-- ===== src/Hpack/Integer.antt =====
-- src/hpack.c, hpack_encode_integer and hpack_decode_integer. `-1` is `none`; the encoder's result
-- is the bytes that it wrote, whose number C returns; the decoder's is the bytes read and the
-- value. A NULL buffer is `none`. A `uint32_t` is a number below 2 ^ 32.
pub mod Encode
pub mod Decode
pub mod RoundTrip
use grpc_c.Common.{
  ℕ, ◌+◌, ◌-◌, ◌*◌, ◌/◌, ◌%◌, ◌^◌, ◌<◌, ◌≤◌, arith, Option, none, some, List, [], ◌∷◌, ltb, ◌==◌,
  ◌||◌, if◌then◌else◌, dec_le,
}
use grpc_c.Common.Bits.{bit_and, bit_or}
use grpc_c.Common.Fallible.{put, ◌>>=◌}
use grpc_c.Common.Order.{lt_wf}
use mathlib.Core.Logic.{dite}
use mathlib.Core.WellFounded.{Acc}

pub shift_shrinks : (v : ℕ) → 128 ≤ v → v / 128 < v
shift_shrinks v h = omega arith

-- while (value >= 128) { ... }
unfoldable pub encode_loop : ℕ → List ℕ → (value : ℕ) → Acc ◌<◌ value → Option (List ℕ)
unfolding dec_le
encode_loop output_len out value (Acc.intro _ smaller) =
    dite (dec_le 128 value)
      (λ more. do
        out' ← put output_len out (bit_or (bit_and value 0x7f) 0x80 % 256)
        encode_loop output_len out' (value / 128) (smaller _ (shift_shrinks value more)))
      (λ _. put output_len out (value % 256))

encode_prefix : ℕ → ℕ → ℕ → Option (List ℕ)
unfolding encode_loop lt_wf put
encode_prefix value max_prefix output_len =
    if ltb value max_prefix then put output_len [] (value % 256) else do
      out ← put output_len [] (max_prefix % 256)
      encode_loop output_len out (value - max_prefix) (lt_wf.apply (value - max_prefix))

unfoldable pub encode_integer : ℕ → ℕ → Option ℕ → Option (List ℕ)
unfolding encode_prefix
encode_integer value prefix_bits none = none
encode_integer value prefix_bits (some output_len) =
    if output_len == 0 || ltb 7 prefix_bits
    then none
    else encode_prefix value (2 ^ prefix_bits - 1) output_len

-- (byte & 0x7F) * (1U << m), in 32 bits.
abbrev pub to_add : ℕ → ℕ → ℕ
to_add byte m = bit_and byte 0x7f * (2 ^ m % 2 ^ 32) % 2 ^ 32

-- The list is the input from `pos` on.
decode_loop : List ℕ → ℕ → ℕ → ℕ → Option (ℕ × ℕ)
decode_loop [] pos value m = none
decode_loop (byte ∷ rest) pos value m =
    let more = decode_loop rest (pos + 1) (value + to_add byte m) (m + 7) in
    if ltb 28 m
    then none
    else if ltb (2 ^ 32 - 1 - to_add byte m) value
    then none
    else if bit_and byte 0x80 == 0
    then some (pos + 1, value + to_add byte m)
    else more

decode_prefix : ℕ → ℕ → List ℕ → Option (ℕ × ℕ)
unfolding decode_loop
decode_prefix value max_prefix rest =
    if ltb value max_prefix then some (1, value) else decode_loop rest 1 value 0

unfoldable pub decode_integer : Option (List ℕ) → ℕ → Option (ℕ × ℕ)
unfolding decode_prefix
decode_integer none prefix_bits = none
decode_integer (some []) prefix_bits = none
decode_integer (some (byte ∷ rest)) prefix_bits =
    if ltb 7 prefix_bits
    then none
    else decode_prefix (bit_and byte (2 ^ prefix_bits - 1)) (2 ^ prefix_bits - 1) rest
