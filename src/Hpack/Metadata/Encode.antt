-- ===== src/Hpack/Metadata/Encode.antt =====
-- What hpack_encode_metadata writes, and hpack_decode_metadata on it.
use grpc_c.Common.{
  ℕ, ◌-◌, ◌^◌, ◌≤◌, ◌<◌, ◌≡◌, refl, sym, ap, ◌∙◌, arith, true, Option, none, some, List, [], ◌∷◌,
  ◌++◌, length, map, append_assoc, append-nil, All, length-append,
}
use mathlib.Core.Path.{ap₂}
use grpc_c.Common.Int.{ℤ, pos}
use grpc_c.Common.Words.{truncate, truncate-exact}
use grpc_c.Common.Fallible.{>>=-eq-some}
use grpc_c.Common.Memory.{Alloc, strlen, c_string, strlen-c_string, length-c_string}
use grpc_c.Metadata.{Metadata, MetadataArray, entry}
use grpc_c.Metadata.Laws.{IsValid}
use grpc_c.Hpack.Header.{encode_literal_header}
use grpc_c.Hpack.Header.Encode.{rfc_literal, encode_literal_header-fits, encode_literal_header-rfc}
use grpc_c.Hpack.Metadata.{success, encode_all, encode_metadata, decode_metadata}
use grpc_c.Hpack.Metadata.RoundTrip.{Field, literals, decoded, IsSmall, decode_metadata-literals}

-- The string that a pointer shows, up to its NUL.
unfoldable pub seen : Option (List ℕ) → List ℕ
seen none = []
seen (some block) = c_string block

abbrev pub field : Metadata → Field
field md = (seen md.key, seen md.value)

encode_entry :
    (len : ℕ) (key value : Option (List ℕ)) (bytes : List ℕ)
    → len < 2 ^ 31
    → encode_literal_header key value (some len) ≡ some bytes
    → (bytes ≡ rfc_literal (seen key) (seen value))
      × (length bytes ≤ len)
      × IsSmall (seen key, seen value)
unfolding seen
encode_entry len none value bytes small e = unfold encode_literal_header in cc
encode_entry len (some key) none bytes small e = unfold encode_literal_header in cc
encode_entry len (some key) (some value) bytes small e =
    let fits = encode_literal_header-fits key value bytes len e in
    let (same, inside) =
      encode_literal_header-rfc key value bytes len (omega arith) (omega arith) e in
    (same, inside, (omega (arith, length-c_string key), omega (arith, length-c_string value)))

encode_all-literals :
    (mds : List Metadata) (len : ℕ) (out bytes : List ℕ)
    → len < 2 ^ 31
    → length out ≤ len
    → encode_all len out mds ≡ some bytes
    → (bytes ≡ out ++ literals (map field mds)) × (length bytes ≤ len) × All IsSmall (map field mds)
unfolding encode_all
encode_all-literals [] len out bytes small inside e =
    let same : out ≡ bytes = cc in (cc (append-nil out), omega (arith, inside, ap length same), tt)
encode_all-literals (md ∷ mds) len out bytes small inside e =
    let (lit, got, more) =
      >>=-eq-some (encode_literal_header md.key md.value (some (len - length out))) _ e in
    let (written, fits, short) =
      encode_entry (len - length out) md.key md.value lit (omega arith) got in
    let (rest, whole, shorts) =
      encode_all-literals mds len (out ++ lit) bytes small (omega (arith, length-append out lit))
        more in
    (
      rest
          ∙ append_assoc out lit (literals (map field mds))
          ∙ ap (λ (t : List ℕ). out ++ (t ++ literals (map field mds))) written,
      whole,
      (short, shorts),
    )

strlen-seen : (s : Option (List ℕ)) → strlen (seen s) ≡ length (seen s)
unfolding seen strlen
strlen-seen none = refl
strlen-seen (some b) = strlen-c_string b ∙ sym (length-c_string b)

abbrev pub returned : Metadata → Metadata
returned md = entry (seen md.key) (seen md.value) (length (seen md.value))

decoded-fields : (mds : List Metadata) → map decoded (map field mds) ≡ map returned mds
decoded-fields [] = refl
decoded-fields (md ∷ mds) =
    ap₂ (λ (n : ℕ) (rest : List Metadata). entry (seen md.key) (seen md.value) n ∷ rest)
      (strlen-seen md.value) (decoded-fields mds)

-- Metadata survive a trip through the codec: where the encoder succeeds in a buffer shorter than
-- 2^31 bytes and all heap requests succeed, the encoder returns the number of the bytes that it
-- wrote, which is at most the length of the buffer, and the decoder succeeds on them with a valid
-- array of the same entries in order, each key and value cut at its first NUL and the length of the
-- value set to match. The value_length that the caller gave is not used.
pub decode_metadata-encode_metadata :
    (alloc : Alloc) (k len : ℕ) (before a : MetadataArray) (bytes : List ℕ) (result : ℤ)
    → ((i : ℕ) → alloc i ≡ true)
    → len < 2 ^ 31
    → encode_metadata (some a) (some len) ≡ some (bytes, result)
    → (result ≡ pos (length bytes))
      × (length bytes ≤ len)
      × ((b : MetadataArray) × IsValid b
          × (b.metadata ≡ map returned a.metadata)
          × (decode_metadata alloc k before (some bytes) ≡ success b))
unfolding encode_metadata
decode_metadata-encode_metadata alloc k len before a bytes result ok small e =
    let (written, got, same) = >>=-eq-some (encode_all len [] a.metadata) _ e in
    let whole : written ≡ bytes = cc in
    let number : truncate (length written) ≡ result = cc in
    let (text, inside, short) =
      encode_all-literals a.metadata len [] written small (omega arith) got in
    let r = decode_metadata-literals (map field a.metadata) alloc k before ok short in
    (
      sym number
          ∙ truncate-exact (length written) (omega arith)
          ∙ ap (λ (l : List ℕ). pos (length l)) whole,
      omega (arith, inside, ap length whole),
      (r.0, r.1, r.2 ∙ decoded-fields a.metadata, rw (← whole, text) r.3),
    )
