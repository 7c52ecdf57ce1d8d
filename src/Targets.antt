-- ===== src/Targets.antt =====
-- The two steps by which src/name_resolver.c and src/grpc_server.c read a target: strchr for the
-- colon and atoi for the port. A number beyond the range of int,
-- for which C leaves the result of atoi open, is given wrapped to an int.
pub mod Decimal
use grpc_c.Common.{
  ℕ, ◌+◌, ◌-◌, ◌*◌, ◌||◌, ◌&&◌, Bool, Option, none, some, List, [], ◌∷◌, leb, ◌==◌, if◌then◌else◌,
}
use grpc_c.Common.Int.{ℤ, pos}
use grpc_c.Common.Words.{truncate, sub_i32}

abbrev pub colon : ℕ
colon = 58

-- What stands before the first colon and after it.
unfoldable pub split_colon : List ℕ → Option (List ℕ × List ℕ)
split_colon [] = none
split_colon (c ∷ cs) =
    if c == colon
    then some ([], cs)
    else (elim (split_colon cs) [ none ↦ none | some (before, after) ↦ some (c ∷ before, after) ])

is_space : ℕ → Bool
is_space c = c == 32 || (leb 9 c && leb c 13)

abbrev pub is_digit : ℕ → Bool
is_digit c = leb 48 c && leb c 57

-- The digits from here on, behind those that gave `n`.
unfoldable pub digits : ℕ → List ℕ → ℕ
digits n [] = n
digits n (c ∷ cs) = let more = digits (n * 10 + (c - 48)) cs in if is_digit c then more else n

signed : List ℕ → ℤ
unfolding digits truncate sub_i32
signed [] = pos 0
signed (c ∷ cs) =
    if c == 45
    then sub_i32 (pos 0) (digits 0 cs)
    else if c == 43
    then truncate (digits 0 cs)
    else truncate (digits 0 (c ∷ cs))

unfoldable pub atoi : List ℕ → ℤ
unfolding signed is_space
atoi [] = pos 0
atoi (c ∷ cs) = let more = atoi cs in if is_space c then more else signed (c ∷ cs)

-- The port that is used if a target names none.
abbrev pub default_port : ℕ
default_port = 50051
