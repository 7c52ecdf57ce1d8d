-- ===== src/Hpack/Metadata.antt =====
-- src/hpack.c, hpack_encode_metadata and hpack_decode_metadata.
pub mod RoundTrip
pub mod Decode
pub mod Encode
use grpc_c.Common.{
  ℕ, zero, suc, ◌+◌, ◌-◌, true, false, Option, none, some, List, [], ◌∷◌, ◌++◌, length, drop, leb,
  if◌then◌else◌,
}
use grpc_c.Common.Int.{ℤ}
use grpc_c.Common.Words.{truncate}
use grpc_c.Common.Memory.{Alloc, strlen}
use grpc_c.Common.Fallible.{◌>>=◌}
use grpc_c.Metadata
use grpc_c.Metadata.{Metadata, MetadataArray, entry, fresh, is_full, grow, push, freed}
use grpc_c.Hpack.Header.{encode_literal_header, decode_literal_header}

encode_all : ℕ → List ℕ → List Metadata → Option (List ℕ)
unfolding encode_literal_header
encode_all output_len out [] = some out
encode_all output_len out (md ∷ mds) = do
  bytes ← encode_literal_header md.key md.value (some (output_len - length out))
  encode_all output_len (out ++ bytes) mds

-- The bytes written with the `int` that is returned. A buffer is shorter than 2 ^ 31 bytes.
unfoldable pub encode_metadata : Option MetadataArray → Option ℕ → Option (List ℕ × ℤ)
unfolding encode_all
encode_metadata none output = none
encode_metadata (some a) none = none
encode_metadata (some a) (some output_len) = do
  bytes ← encode_all output_len [] a.metadata
  some (bytes, truncate (length bytes))

-- What the decoder returns, with the array that it leaves in the caller's structure. `stuck` is no
-- result of the C code: the loop of the model ran out of fuel.
pub data Outcome : Type 0 where
  success : MetadataArray → Outcome
  failure : MetadataArray → Outcome
  stuck : Outcome

-- The cleanup after a field that does not decode: all blocks are freed, and the structure keeps its
-- count, its capacity and its pointer.
pub cleanup : MetadataArray → MetadataArray
cleanup a = record a { storage = freed }

pub next_request : ℕ → MetadataArray → ℕ
unfolding is_full
next_request k a = if is_full a then k + 3 else k + 2

-- One literal field at a time. The heap requests of a round are numbered from `k` on: two for the
-- strings, and one more if the array is full.
pub decode_loop : ℕ → Alloc → ℕ → List ℕ → ℕ → MetadataArray → Outcome
unfolding decode_literal_header cleanup next_request grow push strlen
decode_loop zero alloc k input pos a = if leb (length input) pos then success a else stuck
decode_loop (suc fuel) alloc k input pos a =
    if leb (length input) pos
    then success a
    else elim (decode_literal_header alloc k (drop pos input)) [
      | none ↦ failure (cleanup a)
      | some (n, key, value) ↦ elim (grow (alloc (k + 2)) a) [
        | none ↦ failure a
        | some a' ↦
            decode_loop fuel alloc (next_request k a) input (pos + n)
              (push a' (entry key value (strlen value)))
      ]
    ]

abbrev initial_capacity : ℕ
initial_capacity = 16

-- Every field takes a byte at least, so the length of the input is fuel enough. `before` is the
-- caller's structure.
unfoldable pub decode_metadata : Alloc → ℕ → MetadataArray → Option (List ℕ) → Outcome
unfolding decode_loop fresh
decode_metadata alloc k before none = failure before
decode_metadata alloc k before (some input) =
    if alloc k
    then decode_loop (length input) alloc (k + 1) input 0 (fresh true initial_capacity)
    else failure (fresh false initial_capacity)
