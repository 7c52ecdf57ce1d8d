-- ===== src/Hpack/Integer/RoundTrip.antt =====
-- hpack_decode_integer on what hpack_encode_integer wrote.
use grpc_c.Common.{
  ℕ, zero, suc, ◌+◌, ◌-◌, ◌*◌, ◌/◌, ◌%◌, ◌^◌, ◌≤◌, ◌<◌, ◌≡◌, ap, arith, some, List, ◌∷◌, ◌++◌,
  length,
}
use grpc_c.Common.Bits.{bit_and_low7, bit_and_top, bit_and_mask, two_pow-le, two_pow_seven}
use grpc_c.Hpack.Integer.{encode_integer, to_add, decode_loop, decode_prefix, decode_integer}
use grpc_c.Hpack.Integer.Encode.{groups, rfc_integer, encode_integer-rfc}
use grpc_c.Common.Fallible.{fitting-some}
use native.Mathlib.Nat.{div-add-mod, mod-eq_of_lt}

-- In 32 bits a shift by at most 28 does not wrap.
pub to_add-eq : (b m : ℕ) → m ≤ 28 → to_add b m ≡ b % 128 * 2 ^ m % 2 ^ 32
to_add-eq b m h = ground (arith, bit_and_low7 b, two_pow-le m 28 h)

split_group : (v m : ℕ) → v * 2 ^ m ≡ v % 128 * 2 ^ m + v / 128 * 2 ^ (m + 7)
split_group v m = omega (
  arith,
  ap (λ (t : ℕ). t * 2 ^ m) (div-add-mod v 128),
  ap (λ (t : ℕ). v / 128 * t) (two_pow_seven m),
)

last_byte :
    (b m value pos : ℕ) (rest : List ℕ)
    → b < 128
    → m ≤ 28
    → value + b * 2 ^ m < 2 ^ 32
    → decode_loop (b ∷ rest) pos value m ≡ some (pos + 1, value + b * 2 ^ m)
unfolding decode_loop
last_byte b m value pos rest hb hm fits = ground (arith, to_add-eq b m, bit_and_top b)

inner_byte :
    (g m value pos : ℕ) (rest : List ℕ)
    → g < 128
    → m ≤ 28
    → value + g * 2 ^ m < 2 ^ 32
    → decode_loop ((g + 128) ∷ rest) pos value m
      ≡ decode_loop rest (pos + 1) (value + g * 2 ^ m) (m + 7)
unfolding decode_loop
inner_byte g m value pos rest hg hm fits =
    ground (arith, to_add-eq (g + 128) m, bit_and_top (g + 128))

-- `v` is what is still to be read, and counts from bit `m` on.
decode_loop-groups :
    (k v m value pos : ℕ) (rest : List ℕ)
    → v < 128 ^ suc k
    → m + 7 * k ≤ 28
    → value + v * 2 ^ m < 2 ^ 32
    → decode_loop (groups k v ++ rest) pos value m
      ≡ some (pos + length (groups k v), value + v * 2 ^ m)
unfolding groups
decode_loop-groups zero v m value pos rest hv hm fits =
    last_byte v m value pos rest hv (omega arith) fits
decode_loop-groups (suc k) v m value pos rest hv hm fits = ground (
  arith,
  last_byte v m value pos rest,
  split_group v m,
  inner_byte (v % 128) m value pos (groups k (v / 128) ++ rest),
  decode_loop-groups k (v / 128) (m + 7) (value + v % 128 * 2 ^ m) (pos + 1) rest (omega arith),
)

decode_short :
    (v p : ℕ) (rest : List ℕ)
    → p ≤ 7
    → v < 2 ^ p - 1
    → decode_integer (some (v ∷ rest)) p ≡ some (1, v)
unfolding decode_integer decode_prefix
decode_short v p rest hp h = ground (arith, bit_and_mask p v, mod-eq_of_lt {n = v} {m = 2 ^ p})

decode_long :
    (v p : ℕ) (rest : List ℕ)
    → p ≤ 7
    → v < 2 ^ 32
    → 2 ^ p - 1 ≤ v
    → decode_integer (some ((2 ^ p - 1) ∷ (groups 4 (v - (2 ^ p - 1)) ++ rest))) p
      ≡ some (suc (length (groups 4 (v - (2 ^ p - 1)))), v)
unfolding decode_integer decode_prefix
decode_long v p rest hp hv h = ground (
  arith,
  bit_and_mask p (2 ^ p - 1),
  mod-eq_of_lt {n = 2 ^ p - 1} {m = 2 ^ p},
  two_pow-le p 7 hp,
  two_pow-le 0 p (omega arith),
  decode_loop-groups 4 (v - (2 ^ p - 1)) 0 (2 ^ p - 1) 1 rest,
)

pub decode_integer-rfc :
    (v p : ℕ) (rest : List ℕ)
    → p ≤ 7
    → v < 2 ^ 32
    → decode_integer (some (rfc_integer p v ++ rest)) p ≡ some (length (rfc_integer p v), v)
unfolding rfc_integer
decode_integer-rfc v p rest hp hv =
    ground (arith, decode_short v p rest hp, decode_long v p rest hp hv)

-- Whenever the encoder accepts a 32-bit value, the decoder reads the value back from the bytes that
-- it wrote, takes exactly those bytes, and does not look at what follows them.
pub decode_integer-encode_integer :
    (v p len : ℕ) (bytes rest : List ℕ)
    → p ≤ 7
    → v < 2 ^ 32
    → encode_integer v p (some len) ≡ some bytes
    → decode_integer (some (bytes ++ rest)) p ≡ some (length bytes, v)
decode_integer-encode_integer v p len bytes rest hp hv e = ground (
  arith,
  encode_integer-rfc v p len hv hp,
  fitting-some len (rfc_integer p v) bytes,
  decode_integer-rfc v p rest hp hv,
)
