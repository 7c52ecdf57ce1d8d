-- ===== src/Streams.antt =====
-- The life of connections and streams (src/http2_transport.c): http2_connection_create and
-- http2_connection_destroy, http2_stream_create and http2_stream_destroy.
pub mod Laws
mod Tests
use grpc_c.Common.{
  ℕ, zero, suc, ◌+◌, ◌*◌, Bool, true, false, Option, none, some, List, [], ◌∷◌, ◌++◌, length,
  get_elem?, leb, ◌==◌, if◌then◌else◌,
}
use grpc_c.Common.Int.{pos}
use grpc_c.Common.Memory.{Alloc}
use grpc_c.Transport.{
  Stream, Connection, Run, returns, deadlock, ◌>>=◌, lock_streams, unlock_streams,
}
use grpc_c.FlowControl.{init_connection, init_stream}

-- A connection as calloc leaves it, and then as http2_connection_create fills it in.
blank_connection : Bool → Connection
blank_connection is_client = record {
  socket_fd = none;
  socket = record { written = []; inbox = []; calls = 0 };
  is_client = is_client;
  next_stream_id = if is_client then 1 else 2;
  write_mutex = false;
  streams_mutex = false;
  streams = [];
  streams_capacity = 16;
  local_window_size = pos 0;
  remote_window_size = pos 0;
  max_frame_size = 0;
  max_concurrent_streams = 0;
}

-- The two heap requests are for the connection and for its array of streams.
unfoldable pub connection_create : Alloc → ℕ → Bool → Option Connection
unfolding blank_connection init_connection
connection_create alloc k is_client =
    if alloc k
    then (if alloc (k + 1) then some (init_connection (blank_connection is_client)) else none)
    else none

-- A stream at the address that calloc gave.
blank_stream : ℕ → ℕ → Stream
blank_stream address stream_id = record {
  address = address;
  id = stream_id;
  headers_sent = false;
  end_stream_sent = false;
  end_stream_received = false;
  status = 0;
  local_window_size = pos 0;
  remote_window_size = pos 0;
}

unfoldable pub streams_full : Connection → Bool
streams_full c = leb c.streams_capacity (length c.streams)

-- The realloc to twice the capacity when the array is full.
unfoldable pub reserve : Bool → Connection → Option Connection
unfolding streams_full
reserve ok c =
    if streams_full c
    then (if ok then some (record c { streams_capacity = c.streams_capacity * 2 }) else none)
    else some c

-- Under the lock: the new stream goes behind the others, or nothing changes.
append_stream : Bool → Stream → Connection → Connection × Option Stream
unfolding reserve
append_stream ok s c = elim (reserve ok c) [
  | none ↦ (c, none)
  | some c' ↦ (record c' { streams = c'.streams ++ s ∷ [] }, some s)
]

released : Connection × Option Stream → Connection × Option Stream
unfolding unlock_streams
released (c, s) = (unlock_streams c, s)

-- `address` is where the stream is put if the first request succeeds.
unfoldable pub stream_create : Alloc → ℕ → ℕ → Connection → ℕ → Run (Connection × Option Stream)
unfolding append_stream released lock_streams blank_stream init_stream
stream_create alloc k address c stream_id =
    if alloc k
    then (lock_streams c >>= λ held. returns (
        released
          (append_stream (alloc (k + 1)) (init_stream (blank_stream address stream_id)) held)))
    else returns (c, none)

-- streams[i] = streams[streams_count - 1]; streams_count--: the last of `s ∷ ss` takes the place
-- of `s`.
unfoldable pub last_or : Stream → List Stream → Stream
last_or s [] = s
last_or s (x ∷ xs) = last_or x xs

unfoldable pub but_last : Stream → List Stream → List Stream
but_last s [] = []
but_last s (x ∷ xs) = s ∷ but_last x xs

swap_out : List Stream → List Stream
unfolding last_or but_last
swap_out [] = []
swap_out (x ∷ xs) = last_or x xs ∷ but_last x xs

-- The loop over the array for the stream at `p`.
unfoldable pub remove_stream : ℕ → List Stream → List Stream
unfolding swap_out
remove_stream p [] = []
remove_stream p (s ∷ ss) = if s.address == p then swap_out ss else s ∷ remove_stream p ss

unfoldable pub stream_destroy : ℕ → Connection → Run Connection
unfolding remove_stream lock_streams unlock_streams
stream_destroy p c = lock_streams c >>= λ held.
    returns (unlock_streams (record held { streams = remove_stream p held.streams }))

-- The loop of http2_connection_destroy with the streams lock held; `left` is the rounds still to
-- be made, at most the number of streams.
destroy_streams : ℕ → ℕ → Connection → Run Connection
unfolding stream_destroy
destroy_streams zero i c = returns c
destroy_streams (suc left) i c = elim (leb (length c.streams) i) [
  | true ↦ returns c
  | false ↦ elim (get_elem? c.streams i) [
    | none ↦ returns c
    | some s ↦ (stream_destroy s.address c >>= λ c'. destroy_streams left (i + 1) c')
  ]
]

-- The connection after its streams were destroyed; the rest only frees it.
unfoldable pub connection_destroy : Connection → Run Connection
unfolding destroy_streams lock_streams unlock_streams
connection_destroy c = lock_streams c >>= λ held.
    (destroy_streams (length held.streams) 0 held >>= λ c'. returns (unlock_streams c'))
