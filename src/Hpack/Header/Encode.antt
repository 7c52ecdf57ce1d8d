-- ===== src/Hpack/Header/Encode.antt =====
-- What hpack_encode_literal_header writes.
use grpc_c.Common.{
  ℕ, ◌+◌, ◌-◌, ◌%◌, ◌^◌, ◌≤◌, ◌<◌, ◌≡◌, ap, arith, none, some, List, [], ◌∷◌, ◌++◌, length,
  length-append, leb, if◌then◌else◌, append_assoc,
}
use grpc_c.Common.Fallible.{put, fitting, fitting-some}
use grpc_c.Common.Memory.{strlen, c_string, length-c_string}
use grpc_c.Hpack.Integer.{encode_integer}
use grpc_c.Hpack.Integer.Encode.{rfc_integer, encode_integer-rfc, length-rfc_integer_small}
use grpc_c.Hpack.Header.{put_string, put_literal, encode_literal_header}

-- A string literal of RFC 7541, section 5.2, with no Huffman coding.
unfoldable pub rfc_string : List ℕ → List ℕ
rfc_string s = rfc_integer 7 (length s) ++ s

-- A literal header field without indexing, new name (section 6.2.2).
unfoldable pub rfc_literal : List ℕ → List ℕ → List ℕ
rfc_literal name value = 0 ∷ (rfc_string name ++ rfc_string value)

put_string-rfc :
    (len : ℕ) (out s : List ℕ)
    → length s < 2 ^ 32
    → length out ≤ len
    → put_string len out s ≡ fitting len (out ++ rfc_string s)
unfolding put_string rfc_string fitting
put_string-rfc len out s h k =
    let whole : length s % 2 ^ 32 ≡ length s = omega arith in
    let room = len - length out in
    let int = rfc_integer 7 (length s) in
    ground (
      arith,
      ap (λ (t : ℕ). encode_integer t 7 (some room)) whole,
      encode_integer-rfc (length s) 7 room h (omega arith),
      append_assoc out int s,
      length-append out int,
      length-append (out ++ int) s,
    )

put_literal-rfc :
    (len : ℕ) (name value : List ℕ)
    → length name < 2 ^ 32
    → length value < 2 ^ 32
    → put_literal len name value ≡ fitting len (rfc_literal name value)
unfolding put_literal rfc_literal put fitting
put_literal-rfc len name value hn hv = ground (
  arith,
  put_string-rfc len (0 ∷ []) name hn,
  put_string-rfc len (0 ∷ rfc_string name) value hv,
  length-append (rfc_string name) (rfc_string value),
)

length-rfc_literal :
    (name value : List ℕ)
    → length name < 2 ^ 28
    → length value < 2 ^ 28
    → length (rfc_literal name value) ≤ 11 + length name + length value
unfolding rfc_literal rfc_string
length-rfc_literal name value hn hv = omega (
  arith,
  length-append (rfc_integer 7 (length name) ++ name) (rfc_integer 7 (length value) ++ value),
  length-append (rfc_integer 7 (length name)) name,
  length-append (rfc_integer 7 (length value)) value,
  length-rfc_integer_small 7 (length name) hn,
  length-rfc_integer_small 7 (length value) hv,
)

-- The encoder's estimate keeps the strings shorter than the buffer.
pub encode_literal_header-fits :
    (name value bytes : List ℕ) (len : ℕ)
    → encode_literal_header (some name) (some value) (some len) ≡ some bytes
    → 11 + strlen name + strlen value ≤ len
unfolding encode_literal_header
encode_literal_header-fits name value bytes len e = ground (arith, e)

-- What the encoder writes for two strings of less than 4 GB is the literal field of RFC 7541 with
-- the two strings up to their first NUL.
pub encode_literal_header-rfc :
    (name value bytes : List ℕ) (len : ℕ)
    → strlen name < 2 ^ 32
    → strlen value < 2 ^ 32
    → encode_literal_header (some name) (some value) (some len) ≡ some bytes
    → (bytes ≡ rfc_literal (c_string name) (c_string value)) × (length bytes ≤ len)
unfolding encode_literal_header
encode_literal_header-rfc name value bytes len hn hv e = ground (
  arith,
  length-c_string name,
  length-c_string value,
  put_literal-rfc len (c_string name) (c_string value),
  fitting-some len (rfc_literal (c_string name) (c_string value)) bytes,
)

-- On strings below 2 ^ 28 bytes the estimate of the space decides: the encoder succeeds exactly if
-- the buffer has 11 bytes more than the two strings.
pub encode_literal_header_total :
    (name value : List ℕ) (len : ℕ)
    → strlen name < 2 ^ 28
    → strlen value < 2 ^ 28
    → encode_literal_header (some name) (some value) (some len) ≡ (
        if leb (11 + strlen name + strlen value) len
        then some (rfc_literal (c_string name) (c_string value))
        else none)
unfolding encode_literal_header fitting
encode_literal_header_total name value len hn hv = ground (
  arith,
  length-c_string name,
  length-c_string value,
  put_literal-rfc len (c_string name) (c_string value),
  length-rfc_literal (c_string name) (c_string value),
)
