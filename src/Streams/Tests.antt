-- ===== src/Streams/Tests.antt =====
-- Runs of the life of streams, and its theorems at concrete inputs.

use grpc_c.Common.{ℕ, ◌≡◌, refl, arith, true, false, none, some, List, [], ◌∷◌}
use grpc_c.Common.Int.{pos}
use grpc_c.Common.Memory.{Alloc}
use grpc_c.Transport.{Stream, Connection, returns}
use grpc_c.Streams.{connection_create, stream_destroy}
use grpc_c.Streams.Laws.{IsValid}

abbrev always : Alloc
always k = true

abbrev stream : ℕ → Stream
stream n = record {
  address = n;
  id = n;
  headers_sent = false;
  end_stream_sent = false;
  end_stream_received = false;
  status = 0;
  local_window_size = pos 65535;
  remote_window_size = pos 65535;
}

abbrev client : List Stream → Connection
client streams = record {
  socket_fd = none;
  socket = record { written = []; inbox = []; calls = 0 };
  is_client = true;
  next_stream_id = 1;
  write_mutex = false;
  streams_mutex = false;
  streams = streams;
  streams_capacity = 16;
  local_window_size = pos 65535;
  remote_window_size = pos 65535;
  max_frame_size = 16384;
  max_concurrent_streams = 100;
}

create : connection_create always 0 true ≡ some (client [])
unfolding connection_create
create = refl

abbrev three : Connection
three = client (stream 1 ∷ stream 3 ∷ stream 5 ∷ [])

destroy_first : stream_destroy 1 three ≡ returns (client (stream 5 ∷ stream 3 ∷ []))
unfolding stream_destroy
destroy_first = refl

three-IsValid : IsValid three
three-IsValid = record { within = omega arith; positive = omega arith; unlocked = refl }
