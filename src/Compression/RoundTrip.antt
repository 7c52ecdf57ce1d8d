-- ===== src/Compression/RoundTrip.antt =====
-- What is compressed is decompressed again (src/compression.c).
use grpc_c.Common.{
  ℕ, zero, suc, ◌+◌, ◌-◌, ◌*◌, ◌^◌, ◌≤◌, ◌<◌, ◌≡◌, refl, sym, ap, ◌∙◌, ◌⊎◌, inl, inr, arith, true,
  false, some, List, [], ◌++◌, length, take, ◌==◌, Option-cases, length-append, append_assoc,
  append-nil, take-length,
}
use grpc_c.Common.Memory.{Alloc, same_string}
use grpc_c.Compression.{
  u_int, avail_in, unwritten, compress_gzip, inflate_loop, decompress_gzip, copy_data,
  compress_data, decompress_data, identity_name, gzip_name, deflate_name,
}
use grpc_c.Compression.Interface.{Zlib, ZlibLaws, Return, z_ok, z_stream_end, z_buf_error, z_error}

module _ {S : Type 0} (z : Zlib S) {Holds : S → List ℕ → Type 0} {work : S → ℕ}
    (laws : ZlibLaws z Holds work) where
  Return-cases :
      (r : Return) → (r ≡ z_stream_end) ⊎ ((r ≡ z_ok) ⊎ ((r ≡ z_buf_error) ⊎ (r ≡ z_error)))
  Return-cases z_ok = inr (inl refl)
  Return-cases z_stream_end = inl refl
  Return-cases z_buf_error = inr (inr (inl refl))
  Return-cases z_error = inr (inr (inr refl))

  -- While the buffer stays below 4 GB: with room for more, twice the work is enough fuel; without,
  -- one round more.
  inflate_loop-whole :
      (fuel : ℕ) (alloc : Alloc) (k : ℕ) (s : S) (out later : List ℕ)
      (total_out avail_out output_len : ℕ)
      → ((i : ℕ) → alloc i ≡ true)
      → Holds s later
      → 1 ≤ output_len
      → total_out ≡ length out
      → length out + avail_out ≡ output_len
      → length out + length later < 2 ^ 32
      → work s * 2 + (1 - avail_out) < fuel
      → inflate_loop z fuel alloc k s out total_out avail_out output_len
        ≡ some (some (out ++ later))
  unfolding inflate_loop unwritten
  inflate_loop-whole zero alloc k s out later total_out avail_out output_len granted holds some_room
        total fits small enough =
      absurd (omega arith)
  inflate_loop-whole (suc fuel) alloc k s out later total_out avail_out output_len granted holds
        some_room total fits small enough =
      let answer = z.inflate s avail_out in
      let (left, text, short, holds') = laws.inflate_part s later avail_out holds in
      let whole : (out ++ answer.1) ++ left ≡ out ++ later =
        append_assoc out answer.1 left ∙ ap (λ (l : List ℕ). out ++ l) (sym text) in
      let longer = length-append out answer.1 in
      let parts : length later ≡ length answer.1 + length left =
        ap length text ∙ length-append answer.1 left in
      elim (Return-cases answer.2) [
        | inl ended ↦
            let count : total_out + length answer.1 ≡ length (out ++ answer.1) =
              omega (arith, longer) in
            rw (inflate_loop, ended, count, take-length (out ++ answer.1))
              (ap (λ l. some (some (out ++ l))) (laws.inflate_end s later avail_out holds ended))
        | inr (inl progress) ↦
            let less = laws.inflate_progress s later avail_out holds progress in
            rw (inflate_loop, progress, sym whole)
              (inflate_loop-whole fuel alloc k answer.0 (out ++ answer.1) left
                (total_out + length answer.1) (avail_out - length answer.1) output_len granted
                holds' some_room (omega (arith, longer)) (omega (arith, longer, short))
                (omega (arith, longer, parts)) (omega (arith, less)))
        | inr (inr (inl full)) ↦
            let (none_left, no_more) = laws.inflate_full s later avail_out holds full in
            let over : (avail_out - length answer.1 == 0) ≡ true = ground (arith, none_left) in
            let no_gap : output_len - length (out ++ answer.1) ≡ 0 =
              omega (arith, longer, none_left) in
            let doubled : u_int (output_len * 2 - output_len) ≡ output_len =
              omega (arith, longer, parts, none_left) in
            rw
              (
                inflate_loop,
                full,
                over,
                granted k,
                no_gap,
                append-nil (out ++ answer.1),
                doubled,
                sym whole,
              )
              (inflate_loop-whole fuel alloc (k + 1) answer.0 (out ++ answer.1) left
                (total_out + length answer.1) output_len (output_len * 2) granted holds'
                (omega arith) (omega (arith, longer)) (omega (arith, longer, short, none_left))
                (omega (arith, longer, parts)) (omega (arith, none_left, no_more)))
        | inr (inr (inr wrong)) ↦ absurd (laws.inflate_valid s later avail_out holds wrong)
      ]

  avail_in-whole : (input : List ℕ) → length input < 2 ^ 32 → avail_in input ≡ input
  unfolding avail_in
  avail_in-whole input small =
      let same : u_int (length input) ≡ length input = omega arith in
      ap (λ (n : ℕ). take n input) same ∙ take-length input

  -- Whatever is not empty, and small enough for four times the bound of what deflate writes to be
  -- below 4 GB, is compressed where memory is granted, and what was compressed gives the same bytes
  -- again: with twice the work of the stream and two rounds more as fuel, the loop of the
  -- decompression ends, however often the buffer has to grow.
  pub compress_gzip-decompress :
      (input : List ℕ) (alloc : Alloc) (k : ℕ)
      → 1 ≤ length input
      → length input < 2 ^ 32
      → (z.compress_bound (length input) + 12) * 4 < 2 ^ 32
      → ((i : ℕ) → alloc i ≡ true)
      → (bytes : List ℕ) × (s : S) × (compress_gzip z true input ≡ some bytes)
        × (z.inflate_init bytes ≡ some s)
        × (decompress_gzip z (work s * 2 + 2) alloc k bytes ≡ some (some input))
  unfolding compress_gzip decompress_gzip
  compress_gzip-decompress input alloc k filled small bounded granted =
      let room = z.compress_bound (length input) + 12 in
      let some_bytes : (length input == 0) ≡ false = ground (arith) in
      let all_room : u_int room ≡ room = omega arith in
      elim (Option-cases (z.deflate input room)) [
        | inl failed ↦ absurd (laws.deflate_fits input room (omega arith) failed)
        | inr (bytes, deflated) ↦
            let (s, start, holds) = laws.inflate_start input room bytes deflated in
            let fill = laws.deflate_fill input room bytes deflated in
            let short = laws.deflate_room input room bytes deflated in
            let not_empty : (length bytes == 0) ≡ false = ground (arith, fill) in
            let fourfold : u_int (length bytes * 4) ≡ length bytes * 4 = omega (arith, short) in
            (
              bytes,
              s,
              rw (some_bytes, avail_in-whole input small, all_room) deflated,
              start,
              rw
                  (
                    not_empty,
                    granted k,
                    avail_in-whole bytes (omega (arith, short)),
                    start,
                    fourfold,
                  )
                  (inflate_loop-whole (work s * 2 + 2) alloc (k + 1) s [] input 0 (length bytes * 4)
                    (length bytes * 4) granted holds (omega (arith, fill)) refl (omega arith)
                    (omega arith) (omega arith)),
            )
      ]

  -- Under the laws of zlib and with memory, for each of the three algorithms: whatever is not
  -- empty is compressed, and grpc_decompress_data gives it back, in a number of rounds of its loop
  -- that is given. The input is below 4 GB, and so is four times the bound of compressBound with
  -- 12 bytes more, so that no size is cut to an uInt.
  pub compress_data-decompress_data :
      (input algorithm : List ℕ) (alloc : Alloc) (k : ℕ)
      → 1 ≤ length input
      → length input < 2 ^ 32
      → (z.compress_bound (length input) + 12) * 4 < 2 ^ 32
      → ((i : ℕ) → alloc i ≡ true)
      → (algorithm ≡ identity_name) ⊎ ((algorithm ≡ gzip_name) ⊎ (algorithm ≡ deflate_name))
      → (bytes : List ℕ) × (rounds : ℕ) × (compress_data z true input (some algorithm) ≡ some bytes)
        × (decompress_data z rounds alloc k bytes (some algorithm) ≡ some (some input))
  unfolding compress_data decompress_data copy_data same_string
  compress_data-decompress_data input algorithm alloc k filled small bounded granted
        (inl identity) =
      rw identity (input, 0, refl, rw (granted k) refl)
  compress_data-decompress_data input algorithm alloc k filled small bounded granted
        (inr (inl gzip)) =
      let (bytes, s, packed, _, unpacked) =
        compress_gzip-decompress input alloc k filled small bounded granted in
      rw gzip (bytes, work s * 2 + 2, packed, unpacked)
  compress_data-decompress_data input algorithm alloc k filled small bounded granted
        (inr (inr deflate)) =
      let (bytes, s, packed, _, unpacked) =
        compress_gzip-decompress input alloc k filled small bounded granted in
      rw deflate (bytes, work s * 2 + 2, packed, unpacked)
