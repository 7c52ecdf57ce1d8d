-- ===== src/HealthCheck/Tests.antt =====
-- A health check of a channel with one stream (src/enhanced_features.c).
use grpc_c.Common.{some, ◌≡◌, refl, arith, true, false, Option, none, [], ◌∷◌}
use grpc_c.Common.Int.{pos}
use grpc_c.Common.Memory.{Alloc}
use grpc_c.Transport.{Stream, returns}
use grpc_c.CompletionQueue.Deadline.{Timespec}
use grpc_c.Channel.{create_call, Channel, Call}
use grpc_c.Channel.Calls.{IsSound}
use grpc_c.HealthCheck.{health_check, health_method}
use grpc_c.HealthCheck.Streams.{status_of, health_check-streams}

abbrev first : Stream
first = record {
  address = 500;
  id = 1;
  headers_sent = false;
  end_stream_sent = false;
  end_stream_received = false;
  status = 0;
  local_window_size = pos 65535;
  remote_window_size = pos 65535;
}

abbrev channel : Channel
channel = record {
  target = 104 ∷ [];
  connection = record {
    socket_fd = none;
    socket = record { written = []; inbox = []; calls = 0 };
    is_client = true;
    next_stream_id = 3;
    write_mutex = false;
    streams_mutex = false;
    streams = first ∷ [];
    streams_capacity = 16;
    local_window_size = pos 65535;
    remote_window_size = pos 65535;
    max_frame_size = 16384;
    max_concurrent_streams = 100;
  };
  creds = none;
  args = none;
}

abbrev all_granted : Alloc
all_granted k = true

abbrev never : Timespec
never = record { tv_sec = pos 0; tv_nsec = pos 0 }

channel-IsSound : IsSound channel.connection
channel-IsSound = record {
  valid = record { within = omega arith; positive = omega arith; unlocked = refl };
  numbered = ((omega arith, omega arith), tt);
}

health_check-streams_example :
    (opened left : Channel) × (made : Option Call) × (create_call all_granted 1 600 channel
        (some health_method)
        none
        never
      ≡ returns (opened, made))
    × (health_check all_granted 0 600 channel never ≡ returns (left, status_of made))
    × (left.connection.streams ≡ channel.connection.streams)
health_check-streams_example =
    health_check-streams all_granted 0 600 channel never channel-IsSound (omega arith)
      (λ e. omega (arith, e), tt)
