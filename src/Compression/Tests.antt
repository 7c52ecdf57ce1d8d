-- ===== src/Compression/Tests.antt =====
-- The laws of zlib hold of a coder that stores its text behind one byte (src/compression.c).
use grpc_c.Common.{
  ℕ, zero, suc, ◌+◌, ◌≤◌, ◌≡◌, refl, sym, ap, ◌∙◌, inl, inr, arith, true, none, some, List, [], ◌∷◌,
  ◌++◌, length, take, drop, leb, ◌==◌, if◌then◌else◌, length-take, length-drop,
}
use grpc_c.Compression.{compress_data, decompress_data, gzip_name}
use grpc_c.Compression.Interface.{Zlib, ZlibLaws, Return, z_ok, z_stream_end, z_buf_error}
use grpc_c.Compression.RoundTrip.{compress_data-decompress_data}

abbrev result : List ℕ → ℕ → Return
result s room =
    if leb (length s) room then z_stream_end else (if room == 0 then z_buf_error else z_ok)

abbrev stored : Zlib (List ℕ)
stored = record {
  compress_bound = λ n. n;
  deflate = λ text room. if leb (length text + 1) room then some (0 ∷ text) else none;
  inflate_init = λ bytes. elim bytes [ [] ↦ none | b ∷ bs ↦ some bs ];
  inflate = λ s room. (drop room s, take room s, result s room);
}

take-drop : (n : ℕ) (xs : List ℕ) → xs ≡ take n xs ++ drop n xs
take-drop zero xs = refl
take-drop (suc n) [] = refl
take-drop (suc n) (x ∷ xs) = ap (◌∷◌ x) (take-drop n xs)

take_all : (n : ℕ) (xs : List ℕ) → length xs ≤ n → take n xs ≡ xs
take_all zero [] h = refl
take_all zero (x ∷ xs) h = absurd (omega arith)
take_all (suc n) [] h = refl
take_all (suc n) (x ∷ xs) h = ap (◌∷◌ x) (take_all n xs (omega arith))

stored-ZlibLaws : ZlibLaws stored (λ s text. text ≡ s) length
stored-ZlibLaws = record {
  deflate_fits = λ text room h. ground arith;
  deflate_fill = λ text room bytes h. ground (arith, h);
  deflate_room = λ text room bytes h. ground (arith, h);
  inflate_start = λ text room bytes h. (text, ground (arith, h), refl);
  inflate_part =
      λ s text room h. (drop room s, h ∙ take-drop room s, omega (arith, length-take room s), refl);
  inflate_end = λ s text room h ended. take_all room s (ground (arith, ended)) ∙ sym h;
  inflate_progress = λ s text room h went. ground (arith, went, length-drop room s);
  inflate_full = λ s text room h full. ground (arith, full, length-drop room s);
  inflate_valid = λ s text room h. ground (arith);
}

-- "abc"
abbrev text : List ℕ
text = 97 ∷ 98 ∷ 99 ∷ []

compress_data-decompress_data_example :
    (bytes : List ℕ) × (rounds : ℕ) × (compress_data stored true text (some gzip_name) ≡ some bytes)
    × (decompress_data stored rounds (λ i. true) 0 bytes (some gzip_name) ≡ some (some text))
compress_data-decompress_data_example =
    compress_data-decompress_data stored stored-ZlibLaws text gzip_name (λ i. true) 0 (omega arith)
      (omega arith) (omega arith) (λ i. refl) (inr (inl refl))
