-- ===== src/Compression.antt =====
-- src/compression.c. zlib is a parameter: a record of what its functions answer.
pub mod Interface
pub mod RoundTrip
mod Tests
use grpc_c.Common.{
  ℕ, zero, suc, ◌+◌, ◌-◌, ◌*◌, ◌%◌, ◌^◌, Bool, true, false, ◌&&◌, Option, none, some, List, [], ◌∷◌,
  ◌++◌, length, take, ◌==◌, if◌then◌else◌,
}
use grpc_c.Common.Memory.{Alloc, same_string}
use grpc_c.Compression.Interface.{Zlib, Return, z_ok, z_stream_end, z_buf_error, z_error}

-- "identity", "gzip" and "deflate"
abbrev pub identity_name : List ℕ
identity_name = 105 ∷ 100 ∷ 101 ∷ 110 ∷ 116 ∷ 105 ∷ 116 ∷ 121 ∷ []

abbrev pub gzip_name : List ℕ
gzip_name = 103 ∷ 122 ∷ 105 ∷ 112 ∷ []

abbrev pub deflate_name : List ℕ
deflate_name = 100 ∷ 101 ∷ 102 ∷ 108 ∷ 97 ∷ 116 ∷ 101 ∷ []

-- (uInt)n for a size_t n, as in an assignment to avail_in or avail_out.
abbrev pub u_int : ℕ → ℕ
u_int n = n % 2 ^ 32

-- What deflate and inflate are shown of an input.
unfoldable pub avail_in : List ℕ → List ℕ
avail_in input = take (u_int (length input)) input

-- Bytes of a buffer that nobody wrote.
unfoldable pub unwritten : ℕ → List ℕ
unwritten zero = []
unwritten (suc n) = 0 ∷ unwritten n

module _ {S : Type 0} (z : Zlib S) where
  -- The one heap request that matters is for the output; to shrink it may fail.
  unfoldable pub compress_gzip : Bool → List ℕ → Option (List ℕ)
  unfolding avail_in
  compress_gzip ok input =
      if length input == 0
      then none
      else (if ok
          then z.deflate (avail_in input) (u_int (z.compress_bound (length input) + 12))
          else none)

  -- The loop of decompress_gzip: the number of the next heap request, the buffer up to next_out,
  -- total_out, avail_out and the size of the buffer. `none` when the fuel is over, else the output
  -- or NULL. Where avail_out was cut to an uInt, next_out moves past bytes that nobody wrote.
  unfoldable pub inflate_loop : ℕ → Alloc → ℕ → S → List ℕ → ℕ → ℕ → ℕ → Option (Option (List ℕ))
  unfolding unwritten
  inflate_loop zero alloc k s out total_out avail_out output_len = none
  inflate_loop (suc fuel) alloc k s out total_out avail_out output_len =
      let answer = z.inflate s avail_out in
      let out' = out ++ answer.1 in
      let total_out' = total_out + length answer.1 in
      let avail_out' = avail_out - length answer.1 in
      elim answer.2 [
        | z_stream_end ↦ some (some (take total_out' out'))
        | z_ok ↦ inflate_loop fuel alloc k answer.0 out' total_out' avail_out' output_len
        | z_buf_error ↦ elim (avail_out' == 0 && alloc k) [
          | true ↦
              inflate_loop fuel alloc (k + 1) answer.0
                (out' ++ unwritten (output_len - length out')) total_out'
                (u_int (output_len * 2 - output_len)) (output_len * 2)
          | false ↦ some none
        ]
        | z_error ↦ some none
      ]

  -- The first request is for the output, four times as long as the input.
  unfoldable pub decompress_gzip : ℕ → Alloc → ℕ → List ℕ → Option (Option (List ℕ))
  unfolding inflate_loop avail_in
  decompress_gzip fuel alloc k input =
      if length input == 0
      then some none
      else if alloc k
      then (elim (z.inflate_init (avail_in input)) [
        | none ↦ some none
        | some s ↦
            inflate_loop fuel alloc (k + 1) s [] 0 (u_int (length input * 4)) (length input * 4)
      ])
      else some none

  -- The copy for "identity".
  unfoldable pub copy_data : Bool → List ℕ → Option (List ℕ)
  copy_data ok input = if ok then some input else none

  unfoldable pub compress_data : Bool → List ℕ → Option (List ℕ) → Option (List ℕ)
  unfolding compress_gzip copy_data
  compress_data ok input none = none
  compress_data ok input (some algorithm) =
      if same_string algorithm identity_name
      then copy_data ok input
      else if same_string algorithm gzip_name
      then compress_gzip ok input
      else if same_string algorithm deflate_name
      then compress_gzip ok input
      else none

  unfoldable pub decompress_data :
      ℕ → Alloc → ℕ → List ℕ → Option (List ℕ) → Option (Option (List ℕ))
  unfolding decompress_gzip copy_data
  decompress_data fuel alloc k input none = some none
  decompress_data fuel alloc k input (some algorithm) =
      if same_string algorithm identity_name
      then some (copy_data (alloc k) input)
      else if same_string algorithm gzip_name
      then decompress_gzip fuel alloc k input
      else if same_string algorithm deflate_name
      then decompress_gzip fuel alloc k input
      else some none

  -- The wrappers of src/enhanced_features.c.
  unfoldable pub compress : Bool → List ℕ → Option (List ℕ) → Option (List ℕ)
  unfolding compress_data
  compress ok input algorithm = compress_data ok input algorithm

  unfoldable pub decompress : ℕ → Alloc → ℕ → List ℕ → Option (List ℕ) → Option (Option (List ℕ))
  unfolding decompress_data
  decompress fuel alloc k input algorithm = decompress_data fuel alloc k input algorithm
