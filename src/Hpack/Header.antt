-- ===== src/Hpack/Header.antt =====
-- src/hpack.c, hpack_encode_literal_header and hpack_decode_literal_header. A string argument is its
-- block of memory, `none` if NULL; a buffer for output is its length. The encoder's result is the
-- bytes written; the decoder's is the bytes read with the two strings. Buffers are shorter than
-- 2 ^ 31 bytes, as the `int` results need.
pub mod Encode
pub mod Decode
use grpc_c.Common.{
  ℕ, ◌+◌, ◌-◌, ◌%◌, ◌^◌, Bool, Option, none, some, List, [], ◌++◌, length, take, drop, ltb, ◌==◌,
  if◌then◌else◌,
}
use grpc_c.Common.Fallible.{put, ◌>>=◌}
use grpc_c.Common.Memory.{Alloc, strlen, c_string}
use grpc_c.Hpack.Integer.{encode_integer, decode_integer}

abbrev pub integer_max_bytes : ℕ
integer_max_bytes = 5

-- The length of a string, then its bytes by memcpy, behind what was written so far.
put_string : ℕ → List ℕ → List ℕ → Option (List ℕ)
unfolding encode_integer
put_string output_len out string = do
  prefix ← encode_integer (length string % 2 ^ 32) 7 (some (output_len - length out))
  if ltb output_len (length (out ++ prefix) + length string)
      then none
      else some ((out ++ prefix) ++ string)

put_literal : ℕ → List ℕ → List ℕ → Option (List ℕ)
unfolding put_string put
put_literal output_len name value = do
  out ← put output_len [] 0x00
  out' ← put_string output_len out name
  put_string output_len out' value

max_required : List ℕ → List ℕ → ℕ
max_required name value = 1 + integer_max_bytes + strlen name + integer_max_bytes + strlen value

unfoldable pub encode_literal_header :
    Option (List ℕ) → Option (List ℕ) → Option ℕ → Option (List ℕ)
unfolding put_literal max_required strlen c_string
encode_literal_header none value output = none
encode_literal_header (some name) none output = none
encode_literal_header (some name) (some value) none = none
encode_literal_header (some name) (some value) (some output_len) =
    if output_len == 0
    then none
    else if ltb output_len (max_required name value)
    then none
    else put_literal output_len (c_string name) (c_string value)

-- A length at `pos`, the space for the string (`ok` if malloc succeeds) and its bytes; the result is
-- the position behind it and the string.
read_string : Bool → List ℕ → ℕ → Option (ℕ × List ℕ)
unfolding decode_integer
read_string ok input pos = do
  (len_bytes, string_len) ← decode_integer (some (drop pos input)) 7
  if ltb (length input) (pos + len_bytes + string_len)
      then none
      else if ok
      then some (pos + len_bytes + string_len, take string_len (drop (pos + len_bytes) input))
      else none

-- The two heap requests are those numbered `k` and `k + 1`.
unfoldable pub decode_literal_header : Alloc → ℕ → List ℕ → Option (ℕ × List ℕ × List ℕ)
unfolding read_string
decode_literal_header alloc k input = do
  (pos, key) ← (if ltb (length input) 2 then none else read_string (alloc k) input 1)
  (pos', value) ← read_string (alloc (k + 1)) input pos
  some (pos', key, value)
