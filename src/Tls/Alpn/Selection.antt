-- ===== src/Tls/Alpn/Selection.antt =====
-- What the callback chooses from the list of protocols of a client (src/grpc_tls.c).
use grpc_c.Common.{
  ℕ, zero, suc, ◌+◌, ◌%◌, ◌^◌, ◌≤◌, ◌<◌, ◌≡◌, refl, ap, ◌∙◌, ◌⊎◌, inl, inr, arith, Bool, true,
  false, ◌&&◌, some, List, [], ◌∷◌, ◌++◌, length, get_elem?, ltb, ◌==◌, if◌then◌else◌, Bool-cases,
  length-append, append_assoc,
}
use mathlib.Core.Path.{subst}
use grpc_c.Common.Memory.{same_string, same_string-eq}
use grpc_c.Transport.{returns}
use grpc_c.Tls.Alpn.{Selected, chosen, noack, byte_at, is_h2, alpn_loop, alpn_select}

-- The protocols as a client sends them: each with its length before it.
unfoldable pub encode : List (List ℕ) → List ℕ
encode [] = []
encode (p ∷ ps) = length p ∷ (p ++ encode ps)

abbrev h2 : List ℕ
h2 = 104 ∷ 50 ∷ []

-- Where the first "h2" begins, counted from `i` on.
unfoldable pub place : List (List ℕ) → ℕ → Selected
unfolding same_string
place [] i = noack
place (p ∷ ps) i =
    let rest = place ps (i + 1 + length p) in if same_string p h2 then chosen (i + 1) 2 else rest

-- A byte behind others.
get_elem-append : (xs ys : List ℕ) (i : ℕ) → get_elem? (xs ++ ys) (length xs + i) ≡ get_elem? ys i
get_elem-append [] ys i = ap (get_elem? ys) (omega arith)
get_elem-append (x ∷ xs) ys i =
    ap (get_elem? (x ∷ (xs ++ ys))) (suc_add_lem) ∙ get_elem-append xs ys i
  where
    suc_add_lem : suc (length xs) + i ≡ suc (length xs + i)
    suc_add_lem = omega arith

byte_at-append :
    (before : List ℕ) (c : ℕ) (rest : List ℕ) (i : ℕ) (j : ℕ)
    → get_elem? rest i ≡ some c
    → j ≡ length before + i
    → byte_at (before ++ rest) j ≡ returns c
unfolding byte_at
byte_at-append before c rest i j e place_ =
    rw (place_, byte_at, get_elem-append before rest i, e) refl

-- Where a protocol fits in the buffer, its two bytes are compared if it has two.
pub alpn_loop-round :
    (fuel : ℕ) (bytes : List ℕ) (i len : ℕ) (same : Bool)
    → i + 1 + len ≤ length bytes
    → length bytes < 2 ^ 32
    → byte_at bytes i ≡ returns len
    → ((len == 2) ≡ false) ⊎ (is_h2 bytes (i + 1) ≡ returns same)
    → alpn_loop (suc fuel) bytes i ≡ (
        if len == 2 && same
        then some (returns (chosen (i + 1) 2))
        else alpn_loop fuel bytes (i + 1 + len))
unfolding alpn_loop
alpn_loop-round fuel bytes i len same fits small head tail =
    let inside : ltb i (length bytes) ≡ true = ground arith in
    let whole : (i + 1 + len) % 2 ^ 32 ≡ i + 1 + len = omega arith in
    let room : ltb (length bytes) (i + 1 + len) ≡ false = ground arith in
    ground (arith, inside, whole, room, head, tail)

compared :
    (before p : List ℕ) (ps : List (List ℕ))
    → ((length p == 2) ≡ false)
      ⊎ (is_h2 (before ++ encode (p ∷ ps)) (length before + 1) ≡ returns (same_string p h2))
unfolding is_h2 same_string encode
compared before [] ps = inl refl
compared before (a ∷ []) ps = inl refl
compared before (a ∷ b ∷ []) ps =
    let first : byte_at (before ++ encode ((a ∷ b ∷ []) ∷ ps)) (length before + 1) ≡ returns a =
      byte_at-append before a (encode ((a ∷ b ∷ []) ∷ ps)) 1 (length before + 1) refl refl in
    let second : byte_at (before ++ encode ((a ∷ b ∷ []) ∷ ps)) (length before + 1 + 1)
        ≡ returns b =
      byte_at-append before b (encode ((a ∷ b ∷ []) ∷ ps)) 2 (length before + 1 + 1) refl
        (omega arith) in
    inr (rw (is_h2, first, second) (ground arith))
compared before (a ∷ b ∷ c ∷ p) ps = inl (ground arith)

pub alpn_loop-end :
    (fuel : ℕ) (bytes : List ℕ) (i : ℕ)
    → length bytes ≤ i
    → alpn_loop (suc fuel) bytes i ≡ some (returns noack)
unfolding alpn_loop
alpn_loop-end fuel bytes i over = ground arith

-- At the first of the protocols left.
alpn_loop-encode :
    (before : List ℕ) (ps : List (List ℕ)) (fuel : ℕ)
    → length (before ++ encode ps) < 2 ^ 32
    → length (encode ps) < fuel
    → alpn_loop fuel (before ++ encode ps) (length before)
      ≡ some (returns (place ps (length before)))
unfolding encode place
alpn_loop-encode before ps zero small enough = absurd (omega arith)
alpn_loop-encode before [] (suc fuel) small enough =
    alpn_loop-end fuel (before ++ []) (length before) (omega (arith, length-append before []))
alpn_loop-encode before (p ∷ ps) (suc fuel) small enough =
    let bytes = before ++ encode (p ∷ ps) in
    let moved : (before ++ length p ∷ p) ++ encode ps ≡ bytes =
      append_assoc before (length p ∷ p) (encode ps) in
    let further : length (before ++ length p ∷ p) ≡ length before + 1 + length p =
      omega (arith, length-append before (length p ∷ p)) in
    let sizes = length-append p (encode ps) in
    let all = length-append before (encode (p ∷ ps)) in
    let round =
      alpn_loop-round fuel bytes (length before) (length p) (same_string p h2)
        (omega (arith, sizes, all)) small
        (byte_at-append before (length p) (length p ∷ (p ++ encode ps)) 0 (length before) refl
          (omega arith))
        (compared before p ps) in
    let later : alpn_loop fuel bytes (length before + 1 + length p)
        ≡ some (returns (place ps (length before + 1 + length p))) =
      subst (λ n. alpn_loop fuel bytes n ≡ some (returns (place ps n))) further
        (subst
          (λ b.
            alpn_loop fuel b (length (before ++ length p ∷ p))
            ≡ some (returns (place ps (length (before ++ length p ∷ p)))))
          moved
          (alpn_loop-encode (before ++ length p ∷ p) ps fuel
            (omega (arith, length-append (before ++ length p ∷ p) (encode ps), further, sizes, all))
            (omega (arith, sizes)))) in
    elim (Bool-cases (same_string p h2)) [
      | inl same ↦
          let two : (length p == 2) ≡ true = rw (same_string-eq p h2 same) refl in
          round ∙ rw (two, same) refl
      | inr differs ↦
          let skip : (length p == 2 && same_string p h2) ≡ false = ground (arith, differs) in
          round ∙ rw (skip, differs) later
    ]

-- For every list of protocols of a client whose encoding is shorter than 2^32: the callback comes
-- to its end, reads no byte outside the buffer, and chooses the first "h2" in the list, or none if
-- there is none.
pub alpn_select-encode :
    (ps : List (List ℕ))
    → length (encode ps) < 2 ^ 32
    → alpn_select (encode ps) ≡ some (returns (place ps 0))
unfolding alpn_select
alpn_select-encode ps small = alpn_loop-encode [] ps (length (encode ps) + 1) small (omega arith)
