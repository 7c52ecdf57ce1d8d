-- ===== src/Hpack/Tests.antt =====
-- Runs of the HPACK codec on small inputs, and its theorems at concrete inputs.
use grpc_c.Common.{
  ℕ, ◌^◌, ◌≤◌, ◌≡◌, refl, arith, none, some, List, [], ◌∷◌, ◌++◌, map, true, false, length,
}
use grpc_c.Common.Memory.{Alloc}
use grpc_c.Common.Int.{pos}
use grpc_c.Common.Words.{truncate}
use grpc_c.Common.Fallible.{fitting}
use grpc_c.Metadata.{MetadataArray, entry, live, fresh, destroy}
use grpc_c.Metadata.Laws.{IsValid}
use grpc_c.Hpack.Integer.{encode_integer, decode_integer}
use grpc_c.Hpack.Integer.Encode.{rfc_integer, encode_integer-rfc}
use grpc_c.Hpack.Integer.Decode.{decode_integer_wraps, rfc_value}
use grpc_c.Hpack.Integer.RoundTrip.{decode_integer-encode_integer}
use grpc_c.Hpack.Header.{encode_literal_header, decode_literal_header}
use grpc_c.Hpack.Header.Decode.{decode_literal_header_takes}
use grpc_c.Hpack.Metadata.{success, failure, encode_metadata, decode_metadata}
use grpc_c.Hpack.Metadata.RoundTrip.{literals, decoded, decode_metadata_broken}
use grpc_c.Hpack.Metadata.Encode.{returned, decode_metadata-encode_metadata}

-- RFC 7541, appendix C.1: 10 and 1337 with a prefix of five bits.
encode_10 : encode_integer 10 5 (some 8) ≡ some (10 ∷ [])
unfolding encode_integer
encode_10 = refl

encode_1337 : encode_integer 1337 5 (some 8) ≡ some (31 ∷ 154 ∷ 10 ∷ [])
unfolding encode_integer
encode_1337 = refl

decode_1337 : decode_integer (some (31 ∷ 154 ∷ 10 ∷ 7 ∷ [])) 5 ≡ some (3, 1337)
unfolding decode_integer
decode_1337 = refl

encode_integer-rfc_example : encode_integer 1337 5 (some 8) ≡ fitting 8 (rfc_integer 5 1337)
encode_integer-rfc_example = encode_integer-rfc 1337 5 8 (omega arith) (omega arith)

decode_integer-encode_integer_example :
    decode_integer (some (31 ∷ 154 ∷ 10 ∷ 7 ∷ [])) 5 ≡ some (3, 1337)
decode_integer-encode_integer_example =
    decode_integer-encode_integer 1337 5 8 (31 ∷ 154 ∷ 10 ∷ []) (7 ∷ []) (omega arith) (omega arith)
      encode_1337

decode_integer_wraps_example :
    (2 ^ 32 ≤ rfc_value 7 (0x7f ∷ 0x80 ∷ 0x80 ∷ 0x80 ∷ 0x80 ∷ 16 ∷ []))
    × (decode_integer (some (0x7f ∷ 0x80 ∷ 0x80 ∷ 0x80 ∷ 0x80 ∷ 16 ∷ [])) 7 ≡ some (6, 127))
decode_integer_wraps_example = decode_integer_wraps 16 (omega arith) (omega arith)

-- The key "te" and a value with a NUL inside.
abbrev te : List ℕ
te = 116 ∷ 101 ∷ []

abbrev cut : List ℕ
cut = 97 ∷ 0 ∷ 98 ∷ []

abbrev te_bytes : List ℕ
te_bytes = 0 ∷ 2 ∷ 116 ∷ 101 ∷ 1 ∷ 97 ∷ []

encode_te : encode_literal_header (some te) (some cut) (some 14) ≡ some te_bytes
unfolding encode_literal_header
encode_te = refl

abbrev always : Alloc
always k = true

decode_te : decode_literal_header always 0 te_bytes ≡ some (6, te, 97 ∷ [])
unfolding decode_literal_header
decode_te = refl

decode_literal_header_takes_example : (3 ≤ 6) × (6 ≤ 6) × (3 ≤ 6)
decode_literal_header_takes_example =
    decode_literal_header_takes always 0 te_bytes 6 te (97 ∷ []) decode_te

abbrev one_entry : MetadataArray
one_entry = record { metadata = entry te cut 3 ∷ []; capacity = 16; storage = live }

encode_one : encode_metadata (some one_entry) (some 14) ≡ some (te_bytes, pos 6)
unfolding encode_metadata truncate
encode_one = refl

decode_metadata-encode_metadata_example :
    (pos 6 ≡ pos (length te_bytes))
    × (length te_bytes ≤ 14)
    × ((b : MetadataArray) × IsValid b
        × (b.metadata ≡ map returned one_entry.metadata)
        × (decode_metadata always 0 (fresh false 0) (some te_bytes) ≡ success b))
decode_metadata-encode_metadata_example =
    decode_metadata-encode_metadata always 0 14 (fresh false 0) one_entry te_bytes (pos 6)
      (λ i. refl) (omega arith) encode_one

decode_metadata_broken_example :
    (b : MetadataArray) × (b.metadata ≡ map decoded ((te, te) ∷ []))
    × (decode_metadata always 0 (fresh false 0) (some (literals ((te, te) ∷ []) ++ 0 ∷ []))
        ≡ failure b)
    × (destroy b ≡ none)
decode_metadata_broken_example =
    decode_metadata_broken ((te, te) ∷ []) always 0 (fresh false 0) (0 ∷ []) (λ i. refl)
      ((omega arith, omega arith), tt) (omega arith) (λ i. unfold decode_literal_header in refl)
