-- ===== src/Common/Memory.antt =====
-- Heap requests, and strings in memory. A block that ends in the NUL a copy routine wrote is the
-- list of the bytes before that NUL; a string function stops at the first NUL in it.
use grpc_c.Common.{
  ℕ, ◌≡◌, refl, arith, Bool, List, [], ◌∷◌, length, take, ◌==◌, if◌then◌else◌, true, false, ◌&&◌,
  ◌≢◌, suc, ◌≤◌, All,
}

-- Whether the k-th heap request of a run (`malloc`, `calloc`, `realloc`, `strdup`) succeeds.
abbrev pub Alloc : Type 0
Alloc = ℕ → Bool

unfoldable pub strlen : List ℕ → ℕ
strlen [] = 0
strlen (c ∷ cs) = if c == 0 then 0 else suc (strlen cs)

-- What a string function sees of a block.
unfoldable pub c_string : List ℕ → List ℕ
c_string b = take (strlen b) b

pub strlen-le : (b : List ℕ) → strlen b ≤ length b
unfolding strlen
strlen-le [] = omega arith
strlen-le (c ∷ cs) = ground (arith, strlen-le cs)

pub length-c_string : (b : List ℕ) → length (c_string b) ≡ strlen b
unfolding strlen c_string
length-c_string [] = refl
length-c_string (c ∷ cs) = ground (arith, length-c_string cs)

pub strlen-c_string : (b : List ℕ) → strlen (c_string b) ≡ strlen b
unfolding strlen c_string
strlen-c_string [] = refl
strlen-c_string (c ∷ cs) = ground (arith, strlen-c_string cs)

-- A string with no NUL in it is seen whole.
pub c_string_whole : (b : List ℕ) → All (λ c. c ≢ 0) b → c_string b ≡ b
unfolding strlen c_string
c_string_whole [] h = refl
c_string_whole (c ∷ cs) h = ground (arith, c_string_whole cs h.1)

-- strcmp(a, b) == 0, for two strings without their NULs.
unfoldable pub same_string : List ℕ → List ℕ → Bool
same_string [] [] = true
same_string [] (d ∷ ds) = false
same_string (c ∷ cs) [] = false
same_string (c ∷ cs) (d ∷ ds) = (c == d) && same_string cs ds

pub same_string-eq : (a b : List ℕ) → same_string a b ≡ true → a ≡ b
unfolding same_string
same_string-eq [] [] h = refl
same_string-eq [] (d ∷ ds) h = cc
same_string-eq (c ∷ cs) [] h = cc
same_string-eq (c ∷ cs) (d ∷ ds) h = ground (arith, same_string-eq cs ds)

pub same_string_refl : (a : List ℕ) → same_string a a ≡ true
unfolding same_string
same_string_refl [] = refl
same_string_refl (c ∷ cs) = ground (arith, same_string_refl cs)
