-- ===== src/Hpack/Integer/Encode.antt =====
-- What hpack_encode_integer writes, against the format of RFC 7541, section 5.1.
use grpc_c.Common.{
  ℕ, zero, suc, ◌+◌, ◌-◌, ◌/◌, ◌%◌, ◌^◌, ◌≤◌, ◌<◌, ◌≡◌, ap, arith, none, some, List, [], ◌∷◌, ◌++◌,
  length, length-append, ltb, if◌then◌else◌, append_assoc, ◌↔◌,
}
use grpc_c.Common.Bits.{two_pow-le, bit_and, bit_or, bit_and_low7, bit_or_top}
use grpc_c.Common.Fallible.{put, fitting, fitting-some}
use grpc_c.Common.Order.{lt_wf}
use grpc_c.Hpack.Integer.{encode_loop, encode_prefix, encode_integer}
use mathlib.Core.WellFounded.{Acc}

-- The groups of seven bits, lowest first, each but the last with its top bit set.
unfoldable pub groups : ℕ → ℕ → List ℕ
groups zero v = v ∷ []
groups (suc k) v =
    let rest = groups k (v / 128) in if ltb v 128 then v ∷ [] else (v % 128 + 128) ∷ rest

-- The representation of an integer that has at most 32 bits.
unfoldable pub rfc_integer : ℕ → ℕ → List ℕ
rfc_integer prefix_bits v =
    if ltb v (2 ^ prefix_bits - 1)
    then v ∷ []
    else (2 ^ prefix_bits - 1) ∷ groups 4 (v - (2 ^ prefix_bits - 1))

low_group : (v : ℕ) → bit_or (bit_and v 0x7f) 0x80 % 256 ≡ v % 128 + 128
low_group v = omega (
  arith,
  bit_and_low7 v,
  ap (λ (t : ℕ). bit_or t 0x80) (bit_and_low7 v),
  bit_or_top (v % 128) (omega arith),
)

encode_loop-groups :
    (k len : ℕ) (out : List ℕ) (v : ℕ) (w : Acc ◌<◌ v)
    → v < 128 ^ suc k
    → encode_loop len out v w ≡ fitting len (out ++ groups k v)
unfolding encode_loop groups fitting put
encode_loop-groups zero len out v (Acc.intro _ smaller) h =
    ground (arith, length-append out (v ∷ []))
encode_loop-groups (suc k) len out v (Acc.intro _ smaller) h =
    let head : List ℕ = (v % 128 + 128) ∷ [] in
    grind (
      arith,
      low_group v,
      λ (w : Acc ◌<◌ (v / 128)). encode_loop-groups k len (out ++ head) (v / 128) w (omega arith),
      append_assoc out head (groups k (v / 128)),
      length-append out (v ∷ []),
      length-append out (head ++ groups k (v / 128)),
    )

length-groups : (k v : ℕ) → (1 ≤ length (groups k v)) × (length (groups k v) ≤ k + 1)
unfolding groups
length-groups zero v = omega arith
length-groups (suc k) v = ground (arith, length-groups k (v / 128))

encode_prefix-rfc :
    (v m len : ℕ)
    → v < 2 ^ 32
    → m < 128
    → encode_prefix v m len ≡ fitting len (if ltb v m then v ∷ [] else m ∷ groups 4 (v - m))
unfolding encode_prefix put fitting
encode_prefix-rfc v m len hv hm = ground (
  arith,
  encode_loop-groups 4 len (m ∷ []) (v - m) (lt_wf.apply (v - m)) (omega arith),
  length-groups 4 (v - m),
)

encode_nonempty : (v m : ℕ) → fitting 0 (if ltb v m then v ∷ [] else m ∷ groups 4 (v - m)) ≡ none
unfolding fitting
encode_nonempty v m = ground arith

-- On every 32-bit value and prefix of at most 7 bits the encoder writes the representation of
-- RFC 7541 if it fits the buffer, and otherwise fails.
pub encode_integer-rfc :
    (v prefix_bits len : ℕ)
    → v < 2 ^ 32
    → prefix_bits ≤ 7
    → encode_integer v prefix_bits (some len) ≡ fitting len (rfc_integer prefix_bits v)
unfolding encode_integer rfc_integer
encode_integer-rfc v p len hv hp = ground (
  arith,
  two_pow-le p 7 hp,
  encode_prefix-rfc v (2 ^ p - 1) len hv,
  encode_nonempty v (2 ^ p - 1),
)

groups_five : (v : ℕ) → v < 2 ^ 32 → 2 ^ 28 ≤ v → length (groups 4 v) ≡ 5
unfolding groups
groups_five v h k = ground arith

groups_few : (v : ℕ) → v < 2 ^ 28 → length (groups 4 v) ≤ 4
unfolding groups
groups_few v h = ground arith

pub length-rfc_integer : (p v : ℕ) → (1 ≤ length (rfc_integer p v)) × (length (rfc_integer p v) ≤ 6)
unfolding rfc_integer
length-rfc_integer p v = ground (arith, length-groups 4 (v - (2 ^ p - 1)))

-- A small integer takes at most five bytes.
pub length-rfc_integer_small : (p v : ℕ) → v < 2 ^ 28 → length (rfc_integer p v) ≤ 5
unfolding rfc_integer
length-rfc_integer_small p v h = ground (arith, groups_few (v - (2 ^ p - 1)))

length-rfc_integer_six :
    (p v : ℕ) → v < 2 ^ 32 → (length (rfc_integer p v) ≡ 6) ↔ (2 ^ p - 1 + 2 ^ 28 ≤ v)
unfolding rfc_integer
length-rfc_integer_six p v h = (
  λ e. ground (arith, groups_few (v - (2 ^ p - 1))),
  λ k. ground (arith, groups_five (v - (2 ^ p - 1)) (omega arith) (omega arith)),
)

-- An encoding takes at most six bytes. It takes six, one more than HPACK_INTEGER_MAX_BYTES, exactly
-- from 2 ^ 28 above the prefix on.
pub encode_integer_six :
    (v p len : ℕ) (bytes : List ℕ)
    → v < 2 ^ 32
    → p ≤ 7
    → encode_integer v p (some len) ≡ some bytes
    → (length bytes ≤ 6) × ((length bytes ≡ 6) ↔ (2 ^ p - 1 + 2 ^ 28 ≤ v))
encode_integer_six v p len bytes hv hp e =
    let shape = fitting-some len _ bytes (rw (encode_integer-rfc v p len hv hp) at e) in
    rw (shape.0) ((length-rfc_integer p v).1, length-rfc_integer_six p v hv)
