-- ===== src/Wire/Tests.antt =====
-- One entry of metadata that is sent and received (src/hpack.c, src/http2_transport.c), and the
-- theorem at it.
use grpc_c.Common.{ℕ, ◌≡◌, refl, arith, true, false, Option, some, List, [], ◌∷◌, ◌++◌, map}
use grpc_c.Common.Int.{pos}
use grpc_c.Common.Words.{truncate}
use grpc_c.Common.Memory.{Alloc}
use grpc_c.Common.Fallible.{success}
use grpc_c.Metadata.{MetadataArray, entry, live, fresh}
use grpc_c.Metadata.Laws.{IsValid}
use grpc_c.Hpack.Metadata.{encode_metadata, decode_metadata, failure}
use grpc_c.Hpack.Metadata.Encode.{returned}
use grpc_c.Transport.{Net, Connection, returns}
use grpc_c.Transport.Frame.{FrameHeader, send_frame, recv_frame}
use grpc_c.Wire.{Arrives, with_inbox, decode_metadata-recv_frame, decode_metadata-recv_frame_empty}

-- The key "te" and a value with a NUL inside.
abbrev te : List ℕ
te = 116 ∷ 101 ∷ []

abbrev sent : MetadataArray
sent = record { metadata = entry te (97 ∷ 0 ∷ 98 ∷ []) 3 ∷ []; capacity = 16; storage = live }

abbrev payload : List ℕ
payload = 0 ∷ 2 ∷ 116 ∷ 101 ∷ 1 ∷ 97 ∷ []

encoded : encode_metadata (some sent) (some 14) ≡ some (payload, pos 6)
unfolding encode_metadata truncate
encoded = refl

abbrev whole_net : Net
whole_net k n = some n

abbrev always : Alloc
always k = true

abbrev end_of : ℕ → Connection
end_of fd = record {
  socket_fd = some fd;
  socket = record { written = []; inbox = []; calls = 0 };
  is_client = true;
  next_stream_id = 3;
  write_mutex = false;
  streams_mutex = false;
  streams = [];
  streams_capacity = 16;
  local_window_size = pos 65535;
  remote_window_size = pos 65535;
  max_frame_size = 16384;
  max_concurrent_streams = 100;
}

-- HEADERS on stream 1.
abbrev headers : FrameHeader
headers = record { size = 6; kind = 1; flags = 4; stream_id = 1 }

decode_metadata-recv_frame_example :
    (c' : Connection) × (b : MetadataArray) × (send_frame whole_net
        (end_of 3)
        headers
        (some payload)
      ≡ returns (success, c'))
    × Arrives whole_net always 0
        (fresh false 0)
        headers
        payload
        (7 ∷ [])
        b
        (with_inbox (end_of 4) (c'.socket.written ++ 7 ∷ []))
    × IsValid b
    × (b.metadata ≡ map returned sent.metadata)
decode_metadata-recv_frame_example =
    decode_metadata-recv_frame whole_net whole_net (end_of 3) (end_of 4) 3 4 headers always 0 14
      (fresh false 0) sent payload (7 ∷ []) (pos 6) (λ k n. refl) (λ k n. refl) refl refl refl refl
      (λ i. refl) (omega arith) encoded refl (omega arith) (omega arith) (omega arith)

abbrev no_headers : FrameHeader
no_headers = record { size = 0; kind = 1; flags = 4; stream_id = 1 }

decode_metadata-recv_frame_empty_example :
    (encode_metadata (some (fresh true 16)) (some 14) ≡ some ([], pos 0))
    × ((c' : Connection) × (p : Option (List ℕ)) × (send_frame whole_net
            (end_of 3)
            no_headers
            (some [])
          ≡ returns (success, c'))
        × ((recv_frame true whole_net (with_inbox (end_of 4) (c'.socket.written ++ 7 ∷ []))).1
            ≡ some (no_headers, p))
        × ((recv_frame true whole_net
              (with_inbox (end_of 4) (c'.socket.written ++ 7 ∷ []))).0.socket.inbox
            ≡ 7 ∷ [])
        × (decode_metadata always 0 (fresh false 0) p ≡ failure (fresh false 0)))
decode_metadata-recv_frame_empty_example =
    decode_metadata-recv_frame_empty whole_net whole_net (end_of 3) (end_of 4) 3 4 no_headers always
      0 14 (fresh false 0) (fresh true 16) (7 ∷ []) (λ k n. refl) (λ k n. refl) refl refl refl refl
      (unfold fresh in refl) refl (omega arith)
