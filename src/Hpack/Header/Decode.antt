-- ===== src/Hpack/Header/Decode.antt =====
-- hpack_decode_literal_header, on any input and on what the encoder wrote.
use grpc_c.Common.{
  ℕ, ◌+◌, ◌-◌, ◌^◌, ◌≤◌, ◌<◌, ◌≡◌, ap, ◌∙◌, arith, Bool, true, none, some, List, [], ◌∷◌, ◌++◌,
  length, drop, length-append, length-take, take-length-append, drop-length-append, drop-add, ltb,
  if◌then◌else◌, append_assoc, Option-cases, inl, inr,
}
use grpc_c.Common.Fallible.{>>=-eq-some}
use grpc_c.Common.Memory.{Alloc}
use grpc_c.Hpack.Integer.{decode_integer}
use grpc_c.Hpack.Integer.Decode.{decode_integer_sound}
use grpc_c.Hpack.Integer.RoundTrip.{decode_integer-rfc}
use grpc_c.Hpack.Integer.Encode.{rfc_integer, length-rfc_integer}
use grpc_c.Hpack.Header.{read_string, decode_literal_header}
use grpc_c.Hpack.Header.Encode.{rfc_string, rfc_literal}

read_string_takes :
    (ok : Bool) (input : List ℕ) (pos next : ℕ) (s : List ℕ)
    → read_string ok input pos ≡ some (next, s)
    → (pos < next) × (next ≤ length input) × (length s ≤ next - pos)
unfolding read_string
read_string_takes ok input pos next s e =
    elim (Option-cases (decode_integer (some (drop pos input)) 7)) [
      | inl missing ↦ cc (rw (missing, read_string) at e)
      | inr ((n, v), found) ↦ ground (
        arith,
        rw (found, read_string) at e,
        decode_integer_sound (drop pos input) 7 n v found,
        length-take v (drop (pos + n) input),
      )
    ]

-- A successful decoding reads at least three bytes and stays within the input, and the two strings
-- are no longer than what was read.
pub decode_literal_header_takes :
    (alloc : Alloc) (k : ℕ) (input : List ℕ) (n : ℕ) (key value : List ℕ)
    → decode_literal_header alloc k input ≡ some (n, key, value)
    → (3 ≤ n) × (n ≤ length input) × (length key + length value ≤ n)
unfolding decode_literal_header
decode_literal_header_takes alloc k input n key value e =
    let key_read = if ltb (length input) 2 then none else read_string (alloc k) input 1 in
    let (first, read, more) = >>=-eq-some key_read _ e in
    let value_read = read_string (alloc (k + 1)) input first.0 in
    let (second, read', done) = >>=-eq-some value_read _ more in
    ground (
      arith,
      read_string_takes (alloc k) input 1 first.0 first.1,
      read_string_takes (alloc (k + 1)) input first.0 second.0 second.1,
    )

read_string-rfc :
    (front s rest : List ℕ)
    → length s < 2 ^ 32
    → read_string true (front ++ (rfc_string s ++ rest)) (length front)
      ≡ some (length front + length (rfc_string s), s)
unfolding read_string rfc_string
read_string-rfc front s rest h =
    let input = front ++ (rfc_string s ++ rest) in
    let int = rfc_integer 7 (length s) in
    let e1 : drop (length front) input ≡ int ++ (s ++ rest) =
      drop-length-append front _ ∙ append_assoc int s rest in
    let e2 : drop (length front + length int) input ≡ s ++ rest =
      drop-add (length front) (length int) input
      ∙ ap (drop (length int)) e1
      ∙ drop-length-append int (s ++ rest) in
    rw
      (
        e1,
        decode_integer-rfc (length s) 7 (s ++ rest) (omega arith) h,
        e2,
        take-length-append s rest,
      )
      (ground (
        arith,
        length-append front (rfc_string s ++ rest),
        length-append (int ++ s) rest,
        length-append int s,
      ))

length-rfc_string : (s : List ℕ) → 1 + length s ≤ length (rfc_string s)
unfolding rfc_string
length-rfc_string s =
    omega (arith, length-append (rfc_integer 7 (length s)) s, length-rfc_integer 7 (length s))

-- Where the two heap requests succeed, the decoder reads back the two strings of a literal field,
-- takes exactly the field, and does not look at what follows it.
pub decode_literal_header-rfc :
    (alloc : Alloc) (k : ℕ) (name value rest : List ℕ)
    → alloc k ≡ true
    → alloc (k + 1) ≡ true
    → length name < 2 ^ 32
    → length value < 2 ^ 32
    → decode_literal_header alloc k (rfc_literal name value ++ rest)
      ≡ some (length (rfc_literal name value), name, value)
unfolding decode_literal_header rfc_literal
decode_literal_header-rfc alloc k name value rest ok ok' hn hv =
    let key = rfc_string name in
    let val = rfc_string value in
    rw (append_assoc key val rest, ok, ok')
      (ground (
        arith,
        read_string-rfc (0 ∷ []) name (val ++ rest) hn,
        read_string-rfc (0 ∷ key) value rest hv,
        length-append key val,
        length-append key (val ++ rest),
        length-rfc_string name,
        length-rfc_string value,
        length-append val rest,
      ))

pub length-rfc_literal_pos : (name value : List ℕ) → 3 ≤ length (rfc_literal name value)
unfolding rfc_literal
length-rfc_literal_pos name value = omega (
  arith,
  length-append (rfc_string name) (rfc_string value),
  length-rfc_string name,
  length-rfc_string value,
)
