-- ===== src/Compression/Interface.antt =====
-- zlib, as src/compression.c uses it: what its functions answer, and what its documentation says
-- of them.
use grpc_c.Common.{ℕ, ◌+◌, ◌≤◌, ◌<◌, ◌≡◌, ◌≢◌, Option, none, some, List, ◌++◌, length}

-- Z_OK, Z_STREAM_END, Z_BUF_ERROR, and all other results.
pub data Return : Type 0 where
  z_ok z_stream_end z_buf_error z_error : Return

-- `deflate` is deflateInit2 with one call of deflate with Z_FINISH into a buffer of a given size:
-- the output if Z_STREAM_END is returned. `inflate` is a call with Z_NO_FLUSH and the room that is
-- left: the stream after it, the bytes it wrote, and its result.
pub record Zlib (S : Type 0) : Type 0 where
  pub compress_bound : ℕ → ℕ
  pub deflate : List ℕ → ℕ → Option (List ℕ)
  pub inflate_init : List ℕ → Option S
  pub inflate : S → ℕ → S × List ℕ × Return

-- A stream that has still a text to give. `work` is what it has left to do.
pub record ZlibLaws {S : Type 0} (z : Zlib S) (Holds : S → List ℕ → Type 0) (work : S → ℕ)
    : Type 0 where
  -- compressBound with 12 bytes more is enough for the format of gzip.
  pub deflate_fits :
      (text : List ℕ) (room : ℕ)
      → z.compress_bound (length text) + 12 ≤ room
      → z.deflate text room ≢ none
  pub deflate_fill :
      (text : List ℕ) (room : ℕ) (bytes : List ℕ)
      → z.deflate text room ≡ some bytes
      → 1 ≤ length bytes
  -- What deflate writes fits into its buffer.
  pub deflate_room :
      (text : List ℕ) (room : ℕ) (bytes : List ℕ)
      → z.deflate text room ≡ some bytes
      → length bytes ≤ room
  pub inflate_start :
      (text : List ℕ) (room : ℕ) (bytes : List ℕ)
      → z.deflate text room ≡ some bytes
      → (s : S) × (z.inflate_init bytes ≡ some s) × Holds s text
  -- What is written is the next part of the text, and it fits.
  pub inflate_part :
      (s : S) (text : List ℕ) (room : ℕ)
      → Holds s text
      → (later : List ℕ) × (text ≡ (z.inflate s room).1 ++ later)
        × (length (z.inflate s room).1 ≤ room)
        × Holds (z.inflate s room).0 later
  -- At the end of the stream nothing is left.
  pub inflate_end :
      (s : S) (text : List ℕ) (room : ℕ)
      → Holds s text
      → (z.inflate s room).2 ≡ z_stream_end
      → (z.inflate s room).1 ≡ text
  -- Z_OK means progress.
  pub inflate_progress :
      (s : S) (text : List ℕ) (room : ℕ)
      → Holds s text
      → (z.inflate s room).2 ≡ z_ok
      → work (z.inflate s room).0 < work s
  -- Z_BUF_ERROR means that there is no room for more.
  pub inflate_full :
      (s : S) (text : List ℕ) (room : ℕ)
      → Holds s text
      → (z.inflate s room).2 ≡ z_buf_error
      → (room ≡ 0) × (work (z.inflate s room).0 ≤ work s)
  -- A stream that deflate made has no other error.
  pub inflate_valid :
      (s : S) (text : List ℕ) (room : ℕ) → Holds s text → (z.inflate s room).2 ≢ z_error
