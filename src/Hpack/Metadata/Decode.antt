-- ===== src/Hpack/Metadata/Decode.antt =====
-- hpack_decode_metadata on any input.
use grpc_c.Common.{
  ℕ, zero, suc, ◌+◌, ◌≤◌, ◌<◌, ◌≡◌, ◌⊎◌, le→leb, lt→leb_false, arith, true, false, none, some, List,
  [], ◌∷◌, ◌++◌, length, drop,
}
use grpc_c.Common.Memory.{Alloc, strlen}
use grpc_c.Metadata.{Metadata, MetadataArray, entry, is_full, freed, null}
use grpc_c.Metadata.Laws.{IsValid}
use grpc_c.Hpack.Header.{decode_literal_header}
use grpc_c.Hpack.Metadata.{Outcome, success, failure, stuck, cleanup, decode_loop}

pub decode_loop_end :
    (fuel : ℕ) (alloc : Alloc) (k : ℕ) (input : List ℕ) (pos : ℕ) (a : MetadataArray)
    → length input ≤ pos
    → decode_loop fuel alloc k input pos a ≡ success a
unfolding decode_loop
decode_loop_end zero alloc k input pos a h = ground arith
decode_loop_end (suc fuel) alloc k input pos a h = rw (le→leb (length input) pos h)

pub decode_loop_broken :
    (fuel : ℕ) (alloc : Alloc) (k : ℕ) (input : List ℕ) (pos : ℕ) (a : MetadataArray)
    → pos < length input
    → length input ≤ pos + fuel
    → decode_literal_header alloc k (drop pos input) ≡ none
    → decode_loop fuel alloc k input pos a ≡ failure (cleanup a)
unfolding decode_loop
decode_loop_broken zero alloc k input pos a more h bad = absurd (omega arith)
decode_loop_broken (suc fuel) alloc k input pos a more h bad =
    rw (lt→leb_false (length input) pos more, bad)

-- The entries read from the front of an input, field by field, and the position behind them.
pub data Read (alloc : Alloc) (input : List ℕ) : List Metadata → ℕ → Type 0 where
  nothing : Read alloc input [] 0
  field :
      {mds : List Metadata} {pos : ℕ} (k n : ℕ) (key value : List ℕ)
      → Read alloc input mds pos
      → decode_literal_header alloc k (drop pos input) ≡ some (n, key, value)
      → Read alloc input (mds ++ entry key value (strlen value) ∷ []) (pos + n)

-- What the array has become where a field does not decode, and where its growth fails.
abbrev pub Broken : Alloc → List ℕ → MetadataArray → Type 0
Broken alloc input a =
    (a.storage ≡ freed)
    × ((pos : ℕ) × (k : ℕ) × Read alloc input a.metadata pos
        × (pos < length input)
        × (decode_literal_header alloc k (drop pos input) ≡ none))

abbrev pub Stopped : Alloc → List ℕ → MetadataArray → Type 0
Stopped alloc input a =
    IsValid a
    × (is_full a ≡ true)
    × ((k : ℕ) × (alloc k ≡ false))
    × ((pos : ℕ) × Read alloc input a.metadata pos × (pos < length input))

-- The endings of the loop.
abbrev pub Ends : Alloc → List ℕ → Outcome → Type 0
Ends alloc input (success a) = IsValid a × Read alloc input a.metadata (length input)
Ends alloc input (failure a) = Broken alloc input a ⊎ Stopped alloc input a
Ends alloc input stuck = ⊥

-- The array in the middle of a run, with the fields before a position in it.
record Reading (alloc : Alloc) (input : List ℕ) (pos : ℕ) (a : MetadataArray) : Type 0 where
  valid : IsValid a
  within : pos ≤ length input
  entries : Read alloc input a.metadata pos

-- The endings of a decoding, whose first heap request is numbered `k`.
abbrev pub Ended : Alloc → ℕ → List ℕ → Outcome → Type 0
Ended alloc k input (success a) = Ends alloc input (success a)
Ended alloc k input (failure a) =
    ((a.storage ≡ null) × (a.metadata ≡ []) × (alloc k ≡ false)) ⊎ Ends alloc input (failure a)
Ended alloc k input stuck = ⊥
