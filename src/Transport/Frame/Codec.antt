-- ===== src/Transport/Frame/Codec.antt =====
-- The frame header codec.
use grpc_c.Common.{ℕ, ◌+◌, ◌*◌, ◌/◌, ◌%◌, ◌^◌, ◌<◌, ◌≡◌, ap, ◌∙◌, arith, some, [], ◌∷◌, All}
use mathlib.Core.Path.{ap₂}
use grpc_c.Common.Bits.{bit_and, bit_or, bit_and_low7, bit_and_byte, bit_or_fields}
use grpc_c.Transport.Frame.{FrameHeader, encode_header, decode_header}

three_bytes :
    (a b c : ℕ)
    → b < 256
    → c < 256
    → bit_or (bit_or (a * 2 ^ 16) (b * 2 ^ 8)) c ≡ a * 65536 + b * 256 + c
three_bytes a b c hb hc =
    ap (λ (t : ℕ). bit_or t c) (high ∙ regroup) ∙ bit_or_fields 8 (a * 256 + b) c hc ∙ omega arith
  where
    high : bit_or (a * 2 ^ 16) (b * 2 ^ 8) ≡ a * 2 ^ 16 + b * 2 ^ 8
    high = bit_or_fields 16 a (b * 2 ^ 8) (omega arith)

    regroup : a * 2 ^ 16 + b * 2 ^ 8 ≡ (a * 256 + b) * 2 ^ 8
    regroup = omega arith

four_bytes :
    (a b c d : ℕ)
    → b < 256
    → c < 256
    → d < 256
    → bit_or (bit_or (bit_or (a * 2 ^ 24) (b * 2 ^ 16)) (c * 2 ^ 8)) d
      ≡ a * 16777216 + b * 65536 + c * 256 + d
four_bytes a b c d hb hc hd =
    ap (λ (t : ℕ). bit_or (bit_or t (c * 2 ^ 8)) d) (high ∙ regroup)
    ∙ three_bytes (a * 256 + b) c d hc hd
    ∙ omega arith
  where
    high : bit_or (a * 2 ^ 24) (b * 2 ^ 16) ≡ a * 2 ^ 24 + b * 2 ^ 16
    high = bit_or_fields 24 a (b * 2 ^ 16) (omega arith)

    regroup : a * 2 ^ 24 + b * 2 ^ 16 ≡ (a * 256 + b) * 2 ^ 16
    regroup = omega arith

-- What a header is on the wire: its length in 24 bits, its stream in 31.
abbrev pub on_wire : FrameHeader → FrameHeader
on_wire h = record h { size = h.size % 2 ^ 24; stream_id = h.stream_id % 2 ^ 31 }

size_round_trip :
    (n : ℕ)
    → bit_or
        (bit_or (bit_and (n / 2 ^ 16) 0xff * 2 ^ 16) (bit_and (n / 2 ^ 8) 0xff * 2 ^ 8))
        (bit_and n 0xff)
      ≡ n % 2 ^ 24
size_round_trip n = simp bit_and_byte (
    three_bytes (n / 2 ^ 16 % 256) (n / 2 ^ 8 % 256) (n % 256) (omega arith) (omega arith)
    ∙ omega arith)

stream_round_trip :
    (n : ℕ)
    → bit_or
        (bit_or
          (bit_or
            (bit_and (bit_and (n / 2 ^ 24) 0x7f) 0x7f * 2 ^ 24)
            (bit_and (n / 2 ^ 16) 0xff * 2 ^ 16))
          (bit_and (n / 2 ^ 8) 0xff * 2 ^ 8))
        (bit_and n 0xff)
      ≡ n % 2 ^ 31
stream_round_trip n =
    simp (bit_and_byte, bit_and_low7)
      (four_bytes (n / 2 ^ 24 % 128 % 128) (n / 2 ^ 16 % 256) (n / 2 ^ 8 % 256) (n % 256)
          (omega arith) (omega arith) (omega arith)
        ∙ omega arith)

-- A header is read back from its nine bytes, with the length modulo 2 ^ 24 and the stream modulo
-- 2 ^ 31; so exactly the headers within these bounds survive.
pub decode_header-encode_header :
    (h : FrameHeader) → decode_header (encode_header h) ≡ some (on_wire h)
unfolding decode_header encode_header
decode_header-encode_header h =
    ap₂ (λ (n s : ℕ). some (record h { size = n; stream_id = s })) (size_round_trip h.size)
      (stream_round_trip h.stream_id)

-- Any nine bytes are written back as they were read, but for the reserved bit, which is cleared.
encode_header-decode_header :
    (b0 b1 b2 b3 b4 b5 b6 b7 b8 : ℕ) (h : FrameHeader)
    → All (λ b. b < 256) (b0 ∷ b1 ∷ b2 ∷ b3 ∷ b4 ∷ b5 ∷ b6 ∷ b7 ∷ b8 ∷ [])
    → decode_header (b0 ∷ b1 ∷ b2 ∷ b3 ∷ b4 ∷ b5 ∷ b6 ∷ b7 ∷ b8 ∷ []) ≡ some h
    → encode_header h ≡ b0 ∷ b1 ∷ b2 ∷ b3 ∷ b4 ∷ (b5 % 128) ∷ b6 ∷ b7 ∷ b8 ∷ []
unfolding decode_header encode_header
encode_header-decode_header b0 b1 b2 b3 b4 b5 b6 b7 b8 h bytes e = ground (
  arith,
  three_bytes b0 b1 b2,
  four_bytes (bit_and b5 0x7f) b6 b7 b8,
  bit_and_low7 b5,
  bit_and_byte (h.size / 2 ^ 16),
  bit_and_byte (h.size / 2 ^ 8),
  bit_and_byte h.size,
  bit_and_low7 (h.stream_id / 2 ^ 24),
  bit_and_byte (h.stream_id / 2 ^ 16),
  bit_and_byte (h.stream_id / 2 ^ 8),
  bit_and_byte h.stream_id,
)
