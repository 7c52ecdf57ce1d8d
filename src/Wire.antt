-- ===== src/Wire.antt =====
-- Metadata on their way from one end of a connection to the other: the codec of src/hpack.c over
-- the frames of src/http2_transport.c.
mod Tests
use grpc_c.Common.{
  ℕ, ◌<◌, ◌^◌, ◌≡◌, refl, sym, ap, ◌∙◌, arith, true, false, Option, some, none, List, [], ◌∷◌, ◌++◌,
  map, length,
}
use grpc_c.Common.Int.{ℤ, pos}
use grpc_c.Common.Words.{truncate}
use grpc_c.Common.Memory.{Alloc}
use grpc_c.Common.Fallible.{success}
use grpc_c.Metadata.{MetadataArray}
use grpc_c.Metadata.Laws.{IsValid}
use grpc_c.Hpack.Metadata.{encode_metadata, decode_metadata}
use grpc_c.Hpack.Metadata as Codec
use grpc_c.Hpack.Metadata.Encode.{returned, decode_metadata-encode_metadata}
use grpc_c.Transport.{Net, Connection, returns}
use grpc_c.Transport.Frame.{FrameHeader, send_frame, recv_frame}
use grpc_c.Transport.Frame.Send.{frame_bytes, send_frame_success}
use grpc_c.Transport.Frame.Receive.{
  IsWhole, payload_pointer, payload_pointer-some, send_frame_whole, recv_frame-frame_bytes,
}

-- The other end, with what was written to this one and then more in its socket.
abbrev pub with_inbox : Connection → List ℕ → Connection
with_inbox d bytes = record d { socket = record d.socket { inbox = bytes } }

-- The receiving end reads the bytes as the payload of that frame, leaves what follows the frame in
-- its socket, and decodes the payload to the metadata.
pub Arrives :
    Net
    → Alloc
    → ℕ
    → MetadataArray
    → FrameHeader
    → List ℕ
    → List ℕ
    → MetadataArray
    → Connection
    → Type 0
Arrives net alloc k before h bytes rest b d =
    ((recv_frame true net d).1 ≡ some (h, some bytes))
    × ((recv_frame true net d).0.socket.inbox ≡ rest)
    × (decode_metadata alloc k before (some bytes) ≡ Codec.success b)

-- A frame that is sent over open sockets that take and give all that a call asks for, where nothing
-- was written before and the write lock is free, is received with its payload.
frame_arrives :
    (net net' : Net) (c d : Connection) (fd fd' : ℕ) (h : FrameHeader) (bytes rest : List ℕ)
    → IsWhole net
    → IsWhole net'
    → c.socket_fd ≡ some fd
    → d.socket_fd ≡ some fd'
    → c.write_mutex ≡ false
    → c.socket.written ≡ []
    → h.size ≡ length bytes
    → h.size < 2 ^ 24
    → h.stream_id < 2 ^ 31
    → (c' : Connection) × (send_frame net c h (some bytes) ≡ returns (success, c'))
      × ((recv_frame true net' (with_inbox d (c'.socket.written ++ rest))).1
          ≡ some (h, payload_pointer bytes))
      × ((recv_frame true net' (with_inbox d (c'.socket.written ++ rest))).0.socket.inbox ≡ rest)
frame_arrives net net' c d fd fd' h bytes rest whole whole' on_c on_d free fresh size small valid =
    let (c', sent) = send_frame_whole net c h (some bytes) fd whole on_c free in
    let (same, written) = send_frame_success net c c' h (some bytes) sent in
    let on_wire : c'.socket.written ≡ frame_bytes h (some bytes) =
      written ∙ ap (λ w. w ++ frame_bytes h (some bytes)) fresh in
    let (received, left) =
      recv_frame-frame_bytes net' (with_inbox d (c'.socket.written ++ rest)) h bytes rest fd' whole'
        on_d small valid size (ap (λ w. w ++ rest) on_wire) in
    (c', sent, received, left)

-- Metadata that the encoder turns into some bytes, fewer than 2 ^ 24 and in a buffer shorter than
-- 2 ^ 31, get from one end of a connection to the other. Over open sockets that take and give all
-- that a call asks for, where nothing was written before and the write lock is free, and with all
-- heap requests granted: the frame with the bytes as its payload is sent, the other end receives it
-- as it was sent, whatever comes after it, and decodes a valid array of the same entries in order,
-- each key and value cut at its first NUL and the length of the value set to match.
pub decode_metadata-recv_frame :
    (net net' : Net) (c d : Connection) (fd fd' : ℕ) (h : FrameHeader) (alloc : Alloc) (k len : ℕ)
    (before a : MetadataArray) (bytes rest : List ℕ) (result : ℤ)
    → IsWhole net
    → IsWhole net'
    → c.socket_fd ≡ some fd
    → d.socket_fd ≡ some fd'
    → c.write_mutex ≡ false
    → c.socket.written ≡ []
    → ((i : ℕ) → alloc i ≡ true)
    → len < 2 ^ 31
    → encode_metadata (some a) (some len) ≡ some (bytes, result)
    → h.size ≡ length bytes
    → 0 < h.size
    → h.size < 2 ^ 24
    → h.stream_id < 2 ^ 31
    → (c' : Connection) × (b : MetadataArray) × (send_frame net c h (some bytes)
        ≡ returns (success, c'))
      × Arrives net' alloc k before h bytes rest b (with_inbox d (c'.socket.written ++ rest))
      × IsValid b
      × (b.metadata ≡ map returned a.metadata)
unfolding Arrives
decode_metadata-recv_frame net net' c d fd fd' h alloc k len before a bytes rest result whole whole'
      on_c on_d free fresh ok room e size some_bytes small valid =
    let (c', sent, received, left) =
      frame_arrives net net' c d fd fd' h bytes rest whole whole' on_c on_d free fresh size small
        valid in
    let pointer = payload_pointer-some h.size bytes size some_bytes in
    let (number, inside, (b, valid_b, entries, decoded)) =
      decode_metadata-encode_metadata alloc k len before a bytes result ok room e in
    let arrived = received ∙ ap (λ (p : Option (List ℕ)). some (h, p)) pointer in
    (c', b, sent, (arrived, left, decoded), valid_b, entries)

-- An array without entries does not get there. The encoder gives no bytes and the result 0, and
-- over such sockets the frame without payload is sent and received; the receiver's pointer to the
-- payload is then NULL, on which the decoder fails, whatever memory there is, and leaves the
-- caller's structure as it was.
pub decode_metadata-recv_frame_empty :
    (net net' : Net) (c d : Connection) (fd fd' : ℕ) (h : FrameHeader) (alloc : Alloc) (k len : ℕ)
    (before a : MetadataArray) (rest : List ℕ)
    → IsWhole net
    → IsWhole net'
    → c.socket_fd ≡ some fd
    → d.socket_fd ≡ some fd'
    → c.write_mutex ≡ false
    → c.socket.written ≡ []
    → a.metadata ≡ []
    → h.size ≡ 0
    → h.stream_id < 2 ^ 31
    → (encode_metadata (some a) (some len) ≡ some ([], pos 0))
      × ((c' : Connection) × (p : Option (List ℕ)) × (send_frame net c h (some [])
            ≡ returns (success, c'))
          × ((recv_frame true net' (with_inbox d (c'.socket.written ++ rest))).1 ≡ some (h, p))
          × ((recv_frame true net' (with_inbox d (c'.socket.written ++ rest))).0.socket.inbox
              ≡ rest)
          × (decode_metadata alloc k before p ≡ Codec.failure before))
unfolding encode_metadata truncate decode_metadata payload_pointer
decode_metadata-recv_frame_empty net net' c d fd fd' h alloc k len before a rest whole whole' on_c
      on_d free fresh nothing size valid =
    let (c', sent, received, left) =
      frame_arrives net net' c d fd fd' h [] rest whole whole' on_c on_d free fresh size
        (omega arith) valid in
    (rw nothing refl, (c', none, sent, received, left, refl))
