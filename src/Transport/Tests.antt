-- ===== src/Transport/Tests.antt =====
-- Runs of the transport on small inputs, and its theorems at concrete inputs.
use grpc_c.Common.{ℕ, ◌≡◌, refl, true, false, some, List, [], ◌∷◌, ◌++◌}
use grpc_c.Common.Int.{pos}
use grpc_c.Common.Fallible.{success}
use grpc_c.Transport.{Net, Connection, returns}
use grpc_c.Transport.Frame.{FrameHeader, decode_header, send_frame}

abbrev ping : FrameHeader
ping = record { size = 2; kind = 6; flags = 0; stream_id = 5 }

abbrev ping_bytes : List ℕ
ping_bytes = 0 ∷ 0 ∷ 2 ∷ 6 ∷ 0 ∷ 0 ∷ 0 ∷ 0 ∷ 5 ∷ []

abbrev whole_net : Net
whole_net k n = some n

abbrev connected : List ℕ → Connection
connected inbox = record {
  socket_fd = some 3;
  socket = record { written = []; inbox = inbox; calls = 0 };
  is_client = true;
  next_stream_id = 1;
  write_mutex = false;
  streams_mutex = false;
  streams = [];
  streams_capacity = 16;
  local_window_size = pos 65535;
  remote_window_size = pos 65535;
  max_frame_size = 16384;
  max_concurrent_streams = 100;
}

abbrev sent_ping : Connection
sent_ping = record (connected []) {
  socket = record { written = ping_bytes ++ 8 ∷ 9 ∷ []; inbox = []; calls = 2 };
}

send_ping :
    send_frame whole_net (connected []) ping (some (8 ∷ 9 ∷ [])) ≡ returns (success, sent_ping)
unfolding send_frame
send_ping = refl

decode_ping : decode_header ping_bytes ≡ some ping
unfolding decode_header
decode_ping = refl
