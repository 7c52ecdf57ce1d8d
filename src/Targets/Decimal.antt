-- ===== src/Targets/Decimal.antt =====
-- Ports in decimal are read back.
use grpc_c.Common.{
  ℕ, ◌+◌, ◌-◌, ◌*◌, ◌/◌, ◌%◌, ◌^◌, ◌<◌, ◌≡◌, ◌≢◌, refl, ap, ◌∙◌, arith, dec_lt, true, none, some,
  List, [], ◌∷◌, ◌++◌, All,
}
use grpc_c.Common.Int.{pos}
use grpc_c.Common.Words.{truncate, truncate-exact}
use grpc_c.Common.Order.{lt_wf}
use mathlib.Core.Logic.{dite, dif_pos, dif_neg}
use native.Mathlib.Bridge.{le_prop}
use mathlib.Core.WellFounded.{Acc}
use grpc_c.Targets.{colon, split_colon, is_digit, digits, atoi}

pub tenth_shrinks : (n : ℕ) → (n < 10 → ⊥) → n / 10 < n
tenth_shrinks n h = omega arith

decimal_acc : (n : ℕ) → Acc ◌<◌ n → List ℕ
decimal_acc n (Acc.intro _ smaller) =
    dite (dec_lt n 10) (λ _. (48 + n) ∷ [])
      (λ h. decimal_acc (n / 10) (smaller (n / 10) (tenth_shrinks n h)) ++ (48 + n % 10) ∷ [])

-- The decimal digits of a number, the first one not 0 unless the number is.
unfoldable pub decimal : ℕ → List ℕ
unfolding decimal_acc lt_wf dec_lt
decimal n = decimal_acc n (lt_wf.apply n)

abbrev pub AllDigits : List ℕ → Type 0
AllDigits = All (λ c. is_digit c ≡ true)

digits-append :
    (n d : ℕ) (xs : List ℕ)
    → AllDigits xs
    → d < 10
    → digits n (xs ++ (48 + d) ∷ []) ≡ digits n xs * 10 + d
unfolding digits
digits-append n d [] h small = ground arith
digits-append n d (x ∷ xs) (here, h) small = ground (arith, digits-append (n * 10 + (x - 48)) d xs)

AllDigits-append : (d : ℕ) (xs : List ℕ) → AllDigits xs → d < 10 → AllDigits (xs ++ (48 + d) ∷ [])
AllDigits-append d [] h small = (ground arith, tt)
AllDigits-append d (x ∷ xs) (here, h) small = (here, AllDigits-append d xs h small)

-- A number's digits stand for it.
decimal_acc_value :
    (n : ℕ) (w : Acc ◌<◌ n) → AllDigits (decimal_acc n w) × (digits 0 (decimal_acc n w) ≡ n)
unfolding decimal_acc digits
decimal_acc_value n (Acc.intro _ smaller) = elim (dec_lt n 10) [
  | yes small ↦ rw (dif_pos (dec_lt n 10) le_prop small) ((ground arith, tt), ground arith)
  | no large ↦
      let w = smaller (n / 10) (tenth_shrinks n large) in
      let (all, value) = decimal_acc_value (n / 10) (smaller (n / 10) (tenth_shrinks n large)) in
      rw (dif_neg (dec_lt n 10) large) (
        AllDigits-append (n % 10) (decimal_acc (n / 10) w) all (omega arith),
        digits-append 0 (n % 10) (decimal_acc (n / 10) w) all (omega arith) ∙ omega (arith, value),
      )
]

atoi-digits : (xs : List ℕ) → AllDigits xs → atoi xs ≡ truncate (digits 0 xs)
unfolding atoi
atoi-digits [] h = refl
atoi-digits (x ∷ xs) (here, h) = ground arith

-- atoi reads a number of an int back from its decimal digits.
pub atoi-decimal : (n : ℕ) → n < 2 ^ 31 → atoi (decimal n) ≡ pos n
unfolding decimal
atoi-decimal n small =
    let (all, value) = decimal_acc_value n (lt_wf.apply n) in
    atoi-digits (decimal n) all ∙ ap truncate value ∙ truncate-exact n small

-- A host without a colon is found before the first colon.
pub split_colon-append :
    (host rest : List ℕ)
    → All (λ c. c ≢ colon) host
    → split_colon (host ++ colon ∷ rest) ≡ some (host, rest)
unfolding split_colon
split_colon-append [] rest h = ground arith
split_colon-append (c ∷ cs) rest (other, h) = ground (arith, split_colon-append cs rest)

pub split_colon-none : (host : List ℕ) → All (λ c. c ≢ colon) host → split_colon host ≡ none
unfolding split_colon
split_colon-none [] h = refl
split_colon-none (c ∷ cs) (other, h) = ground (arith, split_colon-none cs)
