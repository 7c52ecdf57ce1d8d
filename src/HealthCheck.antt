-- ===== src/HealthCheck.antt =====
-- Streaming calls and the health check (src/enhanced_features.c), over the functions of the
-- channel and of the queue.
pub mod Streams
mod Tests
use grpc_c.Common.{ℕ, ◌+◌, Bool, true, false, Option, none, some, List, [], ◌∷◌, if◌then◌else◌}
use grpc_c.Common.Memory.{Alloc}
use grpc_c.Common.Fallible.{Status, success, failure}
use grpc_c.Transport.{Run, returns, ◌>>=◌}
use grpc_c.Channel.{Channel, Call, create_call, call_destroy}
use grpc_c.CompletionQueue.{CompletionQueue, cq_next, create, shut_down}
use grpc_c.CompletionQueue.Deadline.{Timespec}

-- The kind of a streaming call is told by its operations only.
unfoldable pub create_server_streaming_call :
    Alloc
    → ℕ
    → ℕ
    → Channel
    → Option (List ℕ)
    → Option (List ℕ)
    → Timespec
    → Run (Channel × Option Call)
unfolding create_call
create_server_streaming_call alloc k address channel method host deadline =
    create_call alloc k address channel method host deadline

unfoldable pub create_client_streaming_call :
    Alloc
    → ℕ
    → ℕ
    → Channel
    → Option (List ℕ)
    → Option (List ℕ)
    → Timespec
    → Run (Channel × Option Call)
unfolding create_call
create_client_streaming_call alloc k address channel method host deadline =
    create_call alloc k address channel method host deadline

unfoldable pub create_bidi_streaming_call :
    Alloc
    → ℕ
    → ℕ
    → Channel
    → Option (List ℕ)
    → Option (List ℕ)
    → Timespec
    → Run (Channel × Option Call)
unfolding create_call
create_bidi_streaming_call alloc k address channel method host deadline =
    create_call alloc k address channel method host deadline

-- "/grpc.health.v1.Health/Check"
abbrev pub health_method : List ℕ
health_method =
    47 ∷ 103 ∷ 114 ∷ 112 ∷ 99 ∷ 46 ∷ 104 ∷ 101 ∷ 97 ∷ 108 ∷ 116 ∷ 104 ∷ 46 ∷ 118 ∷ 49 ∷ 46 ∷ 72
    ∷ 101 ∷ 97 ∷ 108 ∷ 116 ∷ 104 ∷ 47 ∷ 67 ∷ 104 ∷ 101 ∷ 99 ∷ 107 ∷ []

-- After grpc_channel_create_call. The queue, which only this function knows, is shut down and freed.
unfoldable pub finish_check : Channel × Option Call → Run (Channel × Status)
unfolding call_destroy
finish_check (channel, none) = returns (channel, failure)
finish_check (channel, some call) = call_destroy channel call >>= λ left. returns (left, success)

-- The first heap request is for the queue. The deadline is five seconds from now.
unfoldable pub health_check : Alloc → ℕ → ℕ → Channel → Timespec → Run (Channel × Status)
unfolding create create_call finish_check
health_check alloc k address channel deadline = elim (create (alloc k) cq_next) [
  | none ↦ returns (channel, failure)
  | some cq ↦
      create_call alloc (k + 1) address channel (some health_method) none deadline >>= finish_check
]
