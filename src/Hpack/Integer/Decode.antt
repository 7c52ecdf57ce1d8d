-- ===== src/Hpack/Integer/Decode.antt =====
-- hpack_decode_integer on any input, well formed or not.
use grpc_c.Common.{
  ℕ, zero, suc, ◌+◌, ◌-◌, ◌*◌, ◌%◌, ◌^◌, ◌≤◌, ◌<◌, ◌≡◌, ap, arith, some, List, [], ◌∷◌, length,
  take, take-cons, ltb, if◌then◌else◌,
}
use grpc_c.Common.Bits.{bit_and_mask, bit_and_low7, bit_and_top, two_pow-le, two_pow_seven}
use grpc_c.Hpack.Integer.{to_add, decode_loop, decode_prefix, decode_integer}
use grpc_c.Hpack.Integer.RoundTrip.{to_add-eq}
use native.Mathlib.Nat.{mod-lt}

-- The number that groups of seven bits stand for, of whatever size.
unfoldable pub payload : List ℕ → ℕ
payload [] = 0
payload (b ∷ bs) = b % 128 + 128 * payload bs

-- The number that a representation stands for, by RFC 7541.
unfoldable pub rfc_value : ℕ → List ℕ → ℕ
rfc_value p [] = 0
rfc_value p (b ∷ bs) = if ltb (b % 2 ^ p) (2 ^ p - 1) then b % 2 ^ p else 2 ^ p - 1 + payload bs

-- After `j` groups the shift is 7 * j, and it never passes 28.
decode_loop_takes :
    (bs : List ℕ) (pos value m j n v : ℕ)
    → m ≡ 7 * j
    → j ≤ 5
    → decode_loop bs pos value m ≡ some (n, v)
    → (pos < n) × (n ≤ pos + length bs) × (n + j ≤ pos + 5)
unfolding decode_loop
decode_loop_takes [] pos value m j n v hm hj e = ground arith
decode_loop_takes (b ∷ bs) pos value m j n v hm hj e =
    ground (arith, decode_loop_takes bs (pos + 1) (value + to_add b m) (m + 7) (j + 1) n v)

payload-take :
    (c k b : ℕ) (bs : List ℕ)
    → 1 ≤ k
    → c * payload (take k (b ∷ bs)) ≡ c * (b % 128) + 128 * (c * payload (take (k - 1) bs))
unfolding payload
payload-take c zero b bs h = absurd (omega arith)
payload-take c (suc k) b bs h =
    let less : suc k - 1 ≡ k = omega arith in
    omega (arith, ap (λ (t : ℕ). c * payload (take t bs)) less)

payload-take_zero : (c k : ℕ) (bs : List ℕ) → k ≡ 0 → c * payload (take k bs) ≡ 0
unfolding payload
payload-take_zero c k bs e = omega (arith, ap (λ (t : ℕ). c * payload (take t bs)) e)

decode_loop_value :
    (bs : List ℕ) (pos value m j n v : ℕ)
    → m ≡ 7 * j
    → j ≤ 5
    → value < 2 ^ 32
    → decode_loop bs pos value m ≡ some (n, v)
    → v ≡ (value + 2 ^ m * payload (take (n - pos) bs)) % 2 ^ 32
unfolding decode_loop
decode_loop_value [] pos value m j n v hm hj hv e = ground arith
decode_loop_value (b ∷ bs) pos value m j n v hm hj hv e =
    let n_steps : n - pos - 1 ≡ n - (pos + 1) = omega arith in
    ground (
      arith,
      to_add-eq b m,
      decode_loop_takes bs (pos + 1) (value + to_add b m) (m + 7) (j + 1) n v,
      decode_loop_value bs (pos + 1) (value + to_add b m) (m + 7) (j + 1) n v,
      payload-take (2 ^ m) (n - pos) b bs,
      payload-take_zero (2 ^ m) (n - (pos + 1)) bs,
      ap (λ (t : ℕ). 2 ^ m * payload (take t bs)) n_steps,
      ap (λ (t : ℕ). t * payload (take (n - (pos + 1)) bs)) (two_pow_seven m),
    )

decode_prefix_takes :
    (bs : List ℕ) (value m n v : ℕ)
    → decode_prefix value m bs ≡ some (n, v)
    → (1 ≤ n) × (n ≤ 6) × (n ≤ suc (length bs))
unfolding decode_prefix
decode_prefix_takes bs value m n v e = ground (arith, decode_loop_takes bs 1 value 0 0 n v)

decode_prefix_value :
    (bs : List ℕ) (b p n v : ℕ)
    → p ≤ 7
    → decode_prefix (b % 2 ^ p) (2 ^ p - 1) bs ≡ some (n, v)
    → v ≡ rfc_value p (b ∷ take (n - 1) bs) % 2 ^ 32
unfolding decode_prefix rfc_value
decode_prefix_value bs b p n v hp e = ground (
  arith,
  two_pow-le p 7 hp,
  two_pow-le 0 p (omega arith),
  mod-lt b {m = 2 ^ p},
  decode_loop_value bs 1 (b % 2 ^ p) 0 0 n v,
)

-- A successful decoding reads 1 to 6 bytes of the input, and its value is the number that those
-- bytes stand for, reduced modulo 2 ^ 32.
pub decode_integer_sound :
    (input : List ℕ) (p n v : ℕ)
    → decode_integer (some input) p ≡ some (n, v)
    → (1 ≤ n)
      × (n ≤ 6)
      × (n ≤ length input)
      × (v < 2 ^ 32)
      × (v ≡ rfc_value p (take n input) % 2 ^ 32)
unfolding decode_integer
decode_integer_sound [] p n v e = cc
decode_integer_sound (b ∷ bs) p n v e = ground (
  arith,
  bit_and_mask p b,
  decode_prefix_takes bs (b % 2 ^ p) (2 ^ p - 1) n v,
  decode_prefix_value bs b p n v,
  take-cons n b bs,
)

-- The overflow check looks at the last group after the shift has already lost its high bits: a
-- sixth byte from 16 to 127 stands for a number of more than 32 bits, and is accepted.
pub decode_integer_wraps :
    (g : ℕ)
    → 16 ≤ g
    → g < 128
    → let input = 0x7f ∷ 0x80 ∷ 0x80 ∷ 0x80 ∷ 0x80 ∷ g ∷ [] in
      (2 ^ 32 ≤ rfc_value 7 input)
      × (decode_integer (some input) 7 ≡ some (6, 127 + g % 16 * 2 ^ 28))
unfolding decode_integer decode_prefix rfc_value payload decode_loop
decode_integer_wraps g h k = (omega arith, ground (arith, bit_and_low7 g, bit_and_top g))
