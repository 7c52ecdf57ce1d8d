-- ===== src/Channel/Tests.antt =====
-- A channel with one stream (src/grpc_channel.c), and its theorems at concrete inputs.
use grpc_c.Common.{All, ℕ, List, ◌≡◌, refl, arith, true, false, Option, none, some, [], ◌∷◌}
use grpc_c.Common.Int.{pos}
use grpc_c.Common.Memory.{Alloc}
use grpc_c.Transport.{Stream, returns}
use grpc_c.CompletionQueue.{cq_next, next}
use grpc_c.CompletionQueue.Deadline.{Timespec}
use grpc_c.Channel.{Channel, Call, create_call, start_batch, completion}
use grpc_c.Channel.{channel_create, channel_destroy, call_destroy, cancel}
use grpc_c.Transport.{deadlock}
use grpc_c.Channel.Lifecycle.{World, ◌⟶*◌, here, later, opens, cancels, destroys, flows}
use grpc_c.FlowControl.Operations.{sends, operate}
use grpc_c.FlowControl.{consume_send_window}
use grpc_c.Channel.Lifecycle.Served.{Served}
use grpc_c.Channel.Lifecycle.Destroy.{⟶*-channel_destroy}
use grpc_c.Channel.Calls.{IsSound, Opened, create_call_opens}

abbrev first : Stream
first = record {
  address = 500;
  id = 1;
  headers_sent = false;
  end_stream_sent = false;
  end_stream_received = false;
  status = 0;
  local_window_size = pos 65535;
  remote_window_size = pos 65535;
}

abbrev channel : Channel
channel = record {
  target = 104 ∷ [];
  connection = record {
    socket_fd = none;
    socket = record { written = []; inbox = []; calls = 0 };
    is_client = true;
    next_stream_id = 3;
    write_mutex = false;
    streams_mutex = false;
    streams = first ∷ [];
    streams_capacity = 16;
    local_window_size = pos 65535;
    remote_window_size = pos 65535;
    max_frame_size = 16384;
    max_concurrent_streams = 100;
  };
  creds = none;
  args = none;
}

abbrev all_granted : Alloc
all_granted k = true

abbrev never : Timespec
never = record { tv_sec = pos 0; tv_nsec = pos 0 }

channel-IsSound : IsSound channel.connection
channel-IsSound = record {
  valid = record { within = omega arith; positive = omega arith; unlocked = refl };
  numbered = ((omega arith, omega arith), tt);
}

create_call_opens_example :
    (channel' : Channel) × (result : Option Call) × (create_call all_granted 0 600 channel
        (some (109 ∷ []))
        none
        never
      ≡ returns (channel', result))
    × IsSound channel'.connection
    × Opened all_granted 0 none channel 600 channel' result
create_call_opens_example =
    create_call_opens all_granted 0 600 channel (109 ∷ []) none never channel-IsSound (omega arith)

-- The event of a batch is the next one of an empty queue.
batch_completes :
    next (start_batch true (record { kind = cq_next; events = []; shutdown = false }) 77).0 []
    ≡ some (record { kind = cq_next; events = []; shutdown = false }, completion 77)
unfolding next start_batch
batch_completes = refl

abbrev host_name : List ℕ
host_name = 104 ∷ []

-- A channel as it is created.
abbrev fresh : Channel
fresh = record {
  target = host_name;
  connection = record {
    socket_fd = none;
    socket = record { written = []; inbox = []; calls = 0 };
    is_client = true;
    next_stream_id = 1;
    write_mutex = false;
    streams_mutex = false;
    streams = [];
    streams_capacity = 16;
    local_window_size = pos 65535;
    remote_window_size = pos 65535;
    max_frame_size = 16384;
    max_concurrent_streams = 100;
  };
  creds = none;
  args = none;
}

abbrev call_at : ℕ → Call
call_at p = record {
  stream = some p;
  method = some (109 ∷ []);
  host = none;
  deadline = never;
  status = 0;
  cancelled = false;
}

abbrev second : Stream
second = record first { address = 600; id = 3 }

abbrev with_streams : ℕ → List Stream → Channel
with_streams n ss = record fresh {
  connection = record fresh.connection { next_stream_id = n; streams = ss };
}

abbrev spent : Channel
spent = record fresh {
  connection = record fresh.connection {
    next_stream_id = 5;
    remote_window_size = pos 65435;
    streams = record second { remote_window_size = pos 65435 } ∷ [];
  };
}

-- Two calls are created, the first is cancelled, and then destroyed; the other sends 100 bytes.
two_calls :
    record { channel = fresh; calls = [] } ⟶* record { channel = spent; calls = call_at 600 ∷ [] }
unfolding create_call call_destroy cancel operate consume_send_window
two_calls =
    later
      (later
        (later
          (later
            (later here (
              opens {channel = with_streams 3 (first ∷ [])} {result = some (call_at 500)}
                all_granted 0 500 (109 ∷ []) none never tt (omega arith) refl))
            (opens {channel = with_streams 5 (first ∷ second ∷ [])} {result = some (call_at 600)}
              all_granted 0 600 (109 ∷ []) none never ((λ e. omega (arith, e)), tt) (omega arith)
              refl))
          (cancels (call_at 600 ∷ []) (call_at 500) [] refl))
        (destroys (call_at 600 ∷ []) (cancel (call_at 500)) [] refl refl))
      (flows (sends 600 100) refl)

created : channel_create all_granted 0 (some host_name) none none ≡ some fresh
unfolding channel_create
created = refl

⟶*-channel_destroy_example :
    let w : World = record { channel = spent; calls = call_at 600 ∷ [] } in
    Served w
    × All (λ call. (rest : Channel) × (call_destroy w.channel call ≡ returns rest)) w.calls
    × (channel_destroy w.channel
        ≡ elim w.calls [ [] ↦ returns w.channel.connection | call ∷ others ↦ deadlock ])
⟶*-channel_destroy_example =
    ⟶*-channel_destroy all_granted 0 host_name none none fresh _ created two_calls
