-- ===== src/FlowControl/Tests.antt =====
-- Runs of the flow control on small inputs, and its theorems at concrete inputs.
use grpc_c.Common.{List, ℕ, ◌≤◌, ◌≡◌, refl, arith, true, false, Option, none, some, [], ◌∷◌}
use grpc_c.Common.Int.{pos, negsuc}
use grpc_c.Common.Fallible.{success}
use grpc_c.Transport.{Net, Stream, Connection, returns, deadlock, stream_at}
use grpc_c.FlowControl.{
  charge_connection, refill_connection, charge_stream, refill_stream, missing, send_window_update,
  receive_window_update, can_send, consume_send_window, consume_recv_window, init_connection,
}
use grpc_c.FlowControl.Operations.{Operation, receives, asks, sends, takes, operate_all}
use grpc_c.FlowControl.Send.{consume_after_can_send}
use grpc_c.FlowControl.Receive.{consume_recv_deadlock}

abbrev stream7 : Stream
stream7 = record {
  address = 7;
  id = 1;
  headers_sent = false;
  end_stream_sent = false;
  end_stream_received = false;
  status = 0;
  local_window_size = pos 40000;
  remote_window_size = pos 100;
}

abbrev conn : Option ℕ → Connection
conn fd = record {
  socket_fd = fd;
  socket = record { written = []; inbox = []; calls = 0 };
  is_client = true;
  next_stream_id = 3;
  write_mutex = false;
  streams_mutex = false;
  streams = stream7 ∷ [];
  streams_capacity = 16;
  local_window_size = pos 65535;
  remote_window_size = pos 65535;
  max_frame_size = 16384;
  max_concurrent_streams = 100;
}

abbrev net : Net
net k n = some n

init_test : (init_connection (conn none)).local_window_size ≡ pos 65535
unfolding init_connection
init_test = refl

can_send_100 : can_send (conn none) 7 100 ≡ returns (true, conn none)
unfolding can_send
can_send_100 = refl

consume_after_can_send_example :
    (c' : Connection) × (consume_send_window (conn none) 7 100 ≡ returns (success, c'))
    × (c'.remote_window_size ≡ pos 65435)
    × (stream_at 7 c'.streams ≡ some (record stream7 { remote_window_size = pos 0 }))
    × (100 ≤ 65535)
    × (100 ≤ 100)
consume_after_can_send_example =
    consume_after_can_send (conn none) 7 65535 100 100 stream7 refl (unfold stream_at in refl) refl
      refl (omega arith) (omega arith) (omega arith) can_send_100

consume_recv_deadlock_example : consume_recv_window net (conn (some 3)) 7 39000 ≡ deadlock
consume_recv_deadlock_example =
    consume_recv_deadlock net (conn (some 3)) 7 65535 39000 3 refl refl refl (omega arith)
      (omega arith) (omega arith)

abbrev low_stream : Connection
low_stream = record (conn (some 3)) { streams = record stream7 { local_window_size = pos 10 } ∷ [] }

-- A window that wraps, and a length beyond both windows.
abbrev operations : List Operation
operations =
    receives 0 0x7fffffff
    ∷ receives 1 200
    ∷ asks 7 4000
    ∷ sends 7 4000
    ∷ takes net 7 100
    ∷ takes net 7 60000
    ∷ []

abbrev after_operations : Connection
after_operations = record (conn none) {
  local_window_size = pos 65535;
  remote_window_size = negsuc 2147422113;
  streams = record stream7 { local_window_size = pos 39900; remote_window_size = negsuc 3699 } ∷ [];
}

operations_run : operate_all operations (conn none) ≡ returns after_operations
unfolding operate_all consume_recv_window receive_window_update can_send consume_send_window
    charge_connection refill_connection charge_stream refill_stream missing send_window_update
operations_run = refl
