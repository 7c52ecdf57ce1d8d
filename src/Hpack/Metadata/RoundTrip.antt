-- ===== src/Hpack/Metadata/RoundTrip.antt =====
-- hpack_decode_metadata on what hpack_encode_metadata wrote.
use grpc_c.Common.{
  ℕ, zero, suc, ◌+◌, ◌^◌, ◌≤◌, ◌<◌, ◌≡◌, refl, sym, ap, ◌∙◌, arith, true, none, some, List, [], ◌∷◌,
  ◌++◌, length, length-append, drop-length-append, map, append_assoc, append-nil, All, lt→leb_false,
}
use grpc_c.Common.Memory.{Alloc, strlen}
use grpc_c.Metadata.{Metadata, MetadataArray, entry, fresh, push, destroy}
use grpc_c.Metadata.Laws.{IsValid, fresh-IsValid, grow-IsValid, grow_succeeds, push-IsValid}
use grpc_c.Hpack.Header.{decode_literal_header}
use grpc_c.Hpack.Header.Encode.{rfc_literal}
use grpc_c.Hpack.Header.Decode.{decode_literal_header-rfc, length-rfc_literal_pos}
use grpc_c.Hpack.Metadata.{
  Outcome, success, failure, cleanup, next_request, decode_loop, decode_metadata, initial_capacity,
}
use grpc_c.Hpack.Metadata.Decode.{decode_loop_end, decode_loop_broken}
use native.Mathlib.Nat.{zero-add}

abbrev pub Field : Type 0
Field = List ℕ × List ℕ

-- The fields of a block, one after the other.
abbrev pub literals : List Field → List ℕ
literals [] = []
literals ((name, value) ∷ fields) = rfc_literal name value ++ literals fields

abbrev pub decoded : Field → Metadata
decoded (name, value) = entry name value (strlen value)

abbrev pub IsSmall : Field → Type 0
IsSmall (name, value) = (length name < 2 ^ 32) × (length value < 2 ^ 32)

decode_loop_field :
    (fuel : ℕ) (alloc : Alloc) (k : ℕ) (front name value rest : List ℕ) (a : MetadataArray)
    → ((i : ℕ) → alloc i ≡ true)
    → IsValid a
    → IsSmall (name, value)
    → let input = front ++ (rfc_literal name value ++ rest) in
      (b : MetadataArray) × IsValid b
      × (b.metadata ≡ a.metadata ++ decoded (name, value) ∷ [])
      × (decode_loop (suc fuel) alloc k input (length front) a
          ≡ decode_loop fuel alloc
              (next_request k a)
              input
              (length front + length (rfc_literal name value))
              b)
unfolding decode_loop push
decode_loop_field fuel alloc k front name value rest a ok v (hn, hv) =
    let input = front ++ (rfc_literal name value ++ rest) in
    let (a', grown) = grow_succeeds a in
    let (valid, same, room) = grow-IsValid true a a' v grown in
    let md = decoded (name, value) in
    (
      push a' md,
      push-IsValid a' md valid room,
      ap (λ (l : List Metadata). l ++ md ∷ []) same,
      rw
          (
            lt→leb_false (length input) (length front) (
                omega (
                  arith,
                  length-append front (rfc_literal name value ++ rest),
                  length-append (rfc_literal name value) rest,
                  length-rfc_literal_pos name value,
                )),
            drop-length-append front (rfc_literal name value ++ rest),
            decode_literal_header-rfc alloc k name value rest (ok k) (ok (k + 1)) hn hv,
            ok (k + 2),
            grown,
          )
          refl,
    )

-- After the fields of a text the loop stands behind them, with one entry more for each.
abbrev Reached : ℕ → Alloc → List ℕ → ℕ → MetadataArray → List Metadata → Outcome → Type 0
Reached room alloc input pos a mds r =
    (fuel : ℕ) × (k' : ℕ) × (b : MetadataArray) × IsValid b
    × (b.metadata ≡ a.metadata ++ mds)
    × (room ≤ fuel)
    × (r ≡ decode_loop fuel alloc k' input pos b)

decode_loop-literals :
    (fields : List Field) (fuel : ℕ) (alloc : Alloc) (k : ℕ) (front rest : List ℕ)
    (a : MetadataArray)
    → ((i : ℕ) → alloc i ≡ true)
    → IsValid a
    → All IsSmall fields
    → length (literals fields ++ rest) ≤ fuel
    → let input = front ++ (literals fields ++ rest) in
      Reached
        (length rest)
        alloc
        input
        (length front + length (literals fields))
        a
        (map decoded fields)
        (decode_loop fuel alloc k input (length front) a)
decode_loop-literals [] fuel alloc k front rest a ok v small h = (
  fuel,
  k,
  a,
  v,
  sym (append-nil a.metadata),
  h,
  ap (λ (t : ℕ). decode_loop fuel alloc k (front ++ rest) t a) (omega arith),
)
decode_loop-literals (f ∷ fields) zero alloc k front rest a ok v small h = absurd (
    omega (
      arith,
      length-rfc_literal_pos f.0 f.1,
      length-append (rfc_literal f.0 f.1) (literals fields),
      length-append (rfc_literal f.0 f.1 ++ literals fields) rest,
    ))
decode_loop-literals (f ∷ fields) (suc fuel) alloc k front rest a ok v small h =
    let lit = rfc_literal f.0 f.1 in
    let step =
      decode_loop_field fuel alloc k front f.0 f.1 (literals fields ++ rest) a ok v small.0 in
    let b = step.0 in
    let after =
      decode_loop-literals fields fuel alloc (next_request k a) (front ++ lit) rest b ok step.1
        small.1
        (omega (
          arith,
          length-rfc_literal_pos f.0 f.1,
          length-append lit (literals fields),
          length-append (lit ++ literals fields) rest,
          length-append (literals fields) rest,
        )) in
    let text = literals fields ++ rest in
    let at_lit = length-append front lit in
    let at_end : length (front ++ lit) + length (literals fields)
        ≡ length front + length (lit ++ literals fields) =
      omega (arith, length-append front lit, length-append lit (literals fields)) in
    (
      after.0,
      after.1,
      after.2,
      after.3,
      rw (after.4, step.2) (append_assoc a.metadata (decoded f ∷ []) (map decoded fields)),
      after.5,
      cc (
        ap (◌++◌ front) (append_assoc lit (literals fields) rest),
        append_assoc front lit text,
        at_lit,
        at_end,
        step.3,
        after.6,
      ),
    )

decode_metadata-Reached :
    (fields : List Field) (alloc : Alloc) (k : ℕ) (before : MetadataArray) (rest : List ℕ)
    → ((i : ℕ) → alloc i ≡ true)
    → All IsSmall fields
    → Reached
        (length rest)
        alloc
        (literals fields ++ rest)
        (0 + length (literals fields))
        (fresh true initial_capacity)
        (map decoded fields)
        (decode_metadata alloc k before (some (literals fields ++ rest)))
unfolding decode_metadata
decode_metadata-Reached fields alloc k before rest ok small = rw (ok k) (
    decode_loop-literals fields _ alloc (k + 1) [] rest (fresh true initial_capacity) ok
      (fresh-IsValid initial_capacity (omega arith)) small (omega arith))

pub decode_metadata-literals :
    (fields : List Field) (alloc : Alloc) (k : ℕ) (before : MetadataArray)
    → ((i : ℕ) → alloc i ≡ true)
    → All IsSmall fields
    → (b : MetadataArray) × IsValid b
      × (b.metadata ≡ map decoded fields)
      × (decode_metadata alloc k before (some (literals fields)) ≡ success b)
decode_metadata-literals fields alloc k before ok small =
    let r = decode_metadata-Reached fields alloc k before [] ok small in
    let at_end =
      decode_loop_end r.0 alloc r.1 (literals fields ++ []) (0 + length (literals fields)) r.2
        (omega (arith, length-append (literals fields) [])) in
    (
      r.2,
      r.3,
      r.4 ∙ unfold fresh in refl,
      ap (λ (t : List ℕ). decode_metadata alloc k before (some t))
            (sym (append-nil (literals fields)))
          ∙ r.6
          ∙ at_end,
    )

-- Where all heap requests succeed, good fields before a text that does not decode as a field make
-- the decoder fail. It frees what it had decoded, yet the caller's structure still counts those
-- entries and points to the freed block, so that grpc_metadata_array_destroy frees them again.
pub decode_metadata_broken :
    (fields : List Field) (alloc : Alloc) (k : ℕ) (before : MetadataArray) (bad : List ℕ)
    → ((i : ℕ) → alloc i ≡ true)
    → All IsSmall fields
    → 0 < length bad
    → ((i : ℕ) → decode_literal_header alloc i bad ≡ none)
    → (b : MetadataArray) × (b.metadata ≡ map decoded fields)
      × (decode_metadata alloc k before (some (literals fields ++ bad)) ≡ failure b)
      × (destroy b ≡ none)
unfolding cleanup destroy
decode_metadata_broken fields alloc k before bad ok small some_bad h =
    let r = decode_metadata-Reached fields alloc k before bad ok small in
    (
      cleanup r.2,
      r.4 ∙ unfold fresh in refl,
      r.6
          ∙ decode_loop_broken r.0 alloc r.1 (literals fields ++ bad) (0 + length (literals fields))
              r.2 (omega (arith, length-append (literals fields) bad))
              (omega (arith, length-append (literals fields) bad))
              (rw (zero-add, drop-length-append (literals fields) bad) (h r.1)),
      refl,
    )
