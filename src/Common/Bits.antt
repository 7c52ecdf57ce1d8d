-- ===== src/Common/Bits.antt =====
-- `&` with a mask of ones and `|` of disjoint fields, as arithmetic at every width.
use Prim.Native.Nat.{min, max, digits, bit_and-bitwise, bit_or-bitwise}
use native.Mathlib.Nat.{pow-suc, one-le-pow, pow-le-pow_right}
use native.Mathlib.Numerals.{towards_suc}
use grpc_c.Common.{
  ℕ, zero, suc, ◌+◌, ◌-◌, ◌*◌, ◌/◌, ◌%◌, ◌^◌, ◌≤◌, ◌<◌, ◌≡◌, ap, ◌∙◌, refl, arith, Bool, true,
}
use grpc_c.Common.{◌==◌, ◌&&◌}
pub use Prim.Native.Nat.{bit_and, bit_or}

-- The digit recursions behind the two operations, with `n` digits to go.
abbrev and_digits : ℕ → ℕ → ℕ → ℕ
and_digits = digits (λ b. zero) min

abbrev or_digits : ℕ → ℕ → ℕ → ℕ
or_digits = digits (λ b. b) max

and_digits-zero : (n a : ℕ) → and_digits n a 0 ≡ 0
and_digits-zero zero a = refl
and_digits-zero (suc n) zero = refl
and_digits-zero (suc n) (suc a) = omega (arith, and_digits-zero n (suc a / 2))

or_digits-zero : (n a : ℕ) → a ≤ n → or_digits n a 0 ≡ a
or_digits-zero zero a h = omega arith
or_digits-zero (suc n) zero h = refl
or_digits-zero (suc n) (suc a) h = omega (arith, or_digits-zero n (suc a / 2) (omega arith))

scale : (q k : ℕ) → q * 2 ^ suc k ≡ 2 * (q * 2 ^ k)
scale q k = omega (arith, ap (λ (t : ℕ). q * t) (pow-suc 2 k))

-- A number whose low field of `k` digits is `r`, under a mask of `k` ones.
and_digits_low :
    (k n a q r : ℕ) → a ≡ q * 2 ^ k + r → r < 2 ^ k → a ≤ n → and_digits n a (2 ^ k - 1) ≡ r
and_digits_low zero n a q r e fits h = and_digits-zero n a ∙ omega arith
and_digits_low (suc k) zero a q r e fits h = omega arith
and_digits_low (suc k) (suc n) zero q r e fits h = omega arith
and_digits_low (suc k) (suc n) (suc a) q r e fits h =
    let mask : (2 ^ suc k - 1) / 2 ≡ 2 ^ k - 1 = omega (arith, pow-suc 2 k, one-le-pow k 2) in
    let rest =
      and_digits_low k n (suc a / 2) q (r / 2) (omega (arith, scale q k))
        (omega (arith, pow-suc 2 k)) (omega arith) in
    omega (arith, ap (and_digits n (suc a / 2)) mask, rest, scale q k, pow-suc 2 k, one-le-pow k 2)

or_digits_fields : (k n a q r : ℕ) → a ≡ q * 2 ^ k → r < 2 ^ k → a ≤ n → or_digits n a r ≡ a + r
or_digits_fields zero n a q r e fits h =
    ap (or_digits n a) (omega arith) ∙ or_digits-zero n a h ∙ omega arith
or_digits_fields (suc k) zero a q r e fits h = omega arith
or_digits_fields (suc k) (suc n) zero q r e fits h = omega arith
or_digits_fields (suc k) (suc n) (suc a) q r e fits h = omega (
  arith,
  scale q k,
  or_digits_fields k n (suc a / 2) q (r / 2) (omega (arith, scale q k)) (omega (arith, pow-suc 2 k))
      (omega arith),
)

-- A mask of `k` ones leaves the remainder by `2 ^ k`.
pub bit_and_mask : (k a : ℕ) → bit_and a (2 ^ k - 1) ≡ a % 2 ^ k
bit_and_mask k a =
    bit_and-bitwise a (2 ^ k - 1)
    ∙ and_digits_low k a a (a / 2 ^ k) (a % 2 ^ k) (grind (arith, one-le-pow k 2))
        (grind (arith, one-le-pow k 2)) (omega arith)

-- A field of `k` digits beside a shifted number is added to it.
pub bit_or_fields : (k q r : ℕ) → r < 2 ^ k → bit_or (q * 2 ^ k) r ≡ q * 2 ^ k + r
bit_or_fields k q r fits =
    bit_or-bitwise (q * 2 ^ k) r
    ∙ or_digits_fields k (q * 2 ^ k) (q * 2 ^ k) q r refl fits (omega arith)

-- The masks and fields of a byte.
pub bit_and_low7 : (a : ℕ) → bit_and a 0x7f ≡ a % 128
bit_and_low7 a = bit_and_mask 7 a

pub bit_and_byte : (a : ℕ) → bit_and a 0xff ≡ a % 256
bit_and_byte a = bit_and_mask 8 a

-- Two functions agree below a bound, by evaluation.
unfoldable pub agree_below : ℕ → (ℕ → ℕ) → (ℕ → ℕ) → Bool
agree_below zero f g = true
agree_below (suc n) f g = (f n == g n) && agree_below n f g

pub agree_below_sound : (n : ℕ) (f g : ℕ → ℕ) (x : ℕ) → agree_below n f g ≡ true → x < n → f x ≡ g x
unfolding agree_below
agree_below_sound zero f g x e h = absurd (omega arith)
agree_below_sound (suc n) f g x e h = ground (arith, agree_below_sound n f g x)

pub bit_and_top : (b : ℕ) → b < 256 → bit_and b 0x80 ≡ b / 128 * 128
unfolding agree_below
bit_and_top b = agree_below_sound 256 (λ x. bit_and x 0x80) (λ x. x / 128 * 128) b refl

pub bit_or_top : (b : ℕ) → b < 128 → bit_or b 0x80 ≡ b + 128
unfolding agree_below
bit_or_top b = agree_below_sound 128 (λ x. bit_or x 0x80) (λ x. x + 128) b refl

pub two_pow-le : (a b : ℕ) → a ≤ b → 2 ^ a ≤ 2 ^ b
two_pow-le a b h = pow-le-pow_right {n = 2} (omega arith) h

pub two_pow_seven : (s : ℕ) → 2 ^ (s + 7) ≡ 128 * 2 ^ s
two_pow_seven s = simp towards_suc (omega arith)
