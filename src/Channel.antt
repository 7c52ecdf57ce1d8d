-- ===== src/Channel.antt =====
-- Channels and their calls (src/grpc_channel.c). A channel has its connection from its creation
-- on. Credentials and arguments are addresses, `none` for NULL; a call is given to the operations
-- with its channel and its queue.
pub mod Calls
pub mod Lifecycle
mod Tests
use grpc_c.Common.{ℕ, ◌+◌, ◌%◌, ◌^◌, Bool, true, false, Option, none, some, List, if◌then◌else◌}
use grpc_c.Common.Int.{pos}
use grpc_c.Common.Memory.{Alloc}
use grpc_c.Common.Fallible.{Status, success}
use grpc_c.Transport.{Stream, Connection, Run, returns, ◌>>=◌}
use grpc_c.Streams.{connection_create, connection_destroy, stream_create, stream_destroy}
use grpc_c.CompletionQueue.{Event, CompletionQueue, push_event}
use grpc_c.CompletionQueue.Deadline.{Timespec}

pub record Channel : Type 0 where
  pub target : List ℕ
  pub connection : Connection
  pub creds : Option ℕ
  pub args : Option ℕ

-- The stream is the address of the call's stream. The method is NULL if its copy failed.
pub record Call : Type 0 where
  pub stream : Option ℕ
  pub method : Option (List ℕ)
  pub host : Option (List ℕ)
  pub deadline : Timespec
  pub status : ℕ
  pub cancelled : Bool

-- The heap requests are for the channel, its target, and two for the connection.
unfoldable pub channel_create : Alloc → ℕ → Option (List ℕ) → Option ℕ → Option ℕ → Option Channel
unfolding connection_create
channel_create alloc k none creds args = none
channel_create alloc k (some target) creds args =
    let made : Option Channel = elim (connection_create alloc (k + 2) true) [
      | none ↦ none
      | some c ↦ some (record { target = target; connection = c; creds = creds; args = args })
    ] in
    if alloc k then (if alloc (k + 1) then made else none) else none

unfoldable pub insecure_channel_create : Alloc → ℕ → Option (List ℕ) → Option ℕ → Option Channel
unfolding channel_create
insecure_channel_create alloc k target args = channel_create alloc k target none args

-- The rest of grpc_channel_destroy frees the channel.
unfoldable pub channel_destroy : Channel → Run Connection
unfolding connection_destroy
channel_destroy channel = connection_destroy channel.connection

-- strdup, whose NULL is not looked at here.
unfoldable pub copy_string : Bool → Option (List ℕ) → Option (List ℕ)
copy_string ok none = none
copy_string ok (some string) = if ok then some string else none

-- The number of the heap request after those for the strings: the host is copied if there is one.
unfoldable pub after_strings : ℕ → Option (List ℕ) → ℕ
after_strings k none = k + 2
after_strings k (some host) = k + 3

-- The identifier that the new stream gets is used up, whether the stream is made or not.
unfoldable pub take_stream_id : Connection → Connection
take_stream_id c = record c { next_stream_id = (c.next_stream_id + 2) % 2 ^ 32 }

-- What is left of the creation of a call once its stream was made or not.
unfoldable pub finish_call : Channel → Call → Connection × Option Stream → Channel × Option Call
finish_call channel call (c, none) = (record channel { connection = c }, none)
finish_call channel call (c, some s) =
    (record channel { connection = c }, some (record call { stream = some s.address }))

-- grpc_channel_create_call, whose stream is at `address` if it is made.
unfoldable pub create_call :
    Alloc
    → ℕ
    → ℕ
    → Channel
    → Option (List ℕ)
    → Option (List ℕ)
    → Timespec
    → Run (Channel × Option Call)
unfolding copy_string after_strings take_stream_id finish_call stream_create
create_call alloc k address channel none host deadline = returns (channel, none)
create_call alloc k address channel (some method) host deadline =
    let call : Call = record {
      stream = none;
      method = copy_string (alloc (k + 1)) (some method);
      host = copy_string (alloc (k + 2)) host;
      deadline = deadline;
      status = 0;
      cancelled = false;
    } in
    if alloc k
    then (stream_create alloc (after_strings k host) address (take_stream_id channel.connection)
          channel.connection.next_stream_id
        >>= λ made. returns (finish_call channel call made))
    else returns (channel, none)

-- GRPC_OP_COMPLETE, with the tag of the batch.
abbrev pub completion : ℕ → Event
completion tag = record { kind = pos 1; success = true; tag = tag }

-- The operations of the batch are not looked at. `ok` is the heap request for the event; the
-- result is GRPC_CALL_OK whether it succeeds or not.
unfoldable pub start_batch : Bool → CompletionQueue → ℕ → CompletionQueue × Status
unfolding push_event
start_batch ok cq tag = (push_event ok cq (completion tag), success)

unfoldable pub cancel : Call → Call
cancel call = record call { cancelled = true; status = 1 }

-- The rest of grpc_call_destroy frees the call.
unfoldable pub call_destroy : Channel → Call → Run Channel
unfolding stream_destroy
call_destroy channel call = elim call.stream [
  | none ↦ returns channel
  | some p ↦
      (stream_destroy p channel.connection >>= λ c. returns (record channel { connection = c }))
]
