-- ===== src/FlowControl.antt =====
-- flow_control.c (src/flow_control.c): the HTTP/2 windows of a connection and of its streams. A
-- stream argument is its address.
pub mod Update
pub mod Receive
pub mod Keeps
pub mod Operations
pub mod Send
mod Tests
use grpc_c.Common.{
  ℕ, ◌+◌, ◌*◌, ◌/◌, ◌^◌, ◌||◌, ◌&&◌, not, Bool, Option, none, some, List, [], ◌∷◌, ltb, ◌==◌,
  if◌then◌else◌,
}
use grpc_c.Common.Int.{ℤ, pos, ◌-ℤ◌, ltb_ℤ}
use grpc_c.Common.Bits.{bit_and}
use grpc_c.Common.Words.{u32_of, add_i32, sub_i32, truncate}
use grpc_c.Common.Fallible.{Status, success, failure}
use grpc_c.Transport.{
  Net, Stream, Connection, Run, returns, ◌>>=◌, lock_write, unlock_write, lock_streams,
  unlock_streams, the_stream, touch, touch_all,
}
use grpc_c.Transport.Frame.{FrameHeader, send_frame}

abbrev pub default_window_size : ℕ
default_window_size = 65535

abbrev pub max_window : ℕ
max_window = 0x7fffffff

-- HTTP2_DEFAULT_WINDOW_SIZE * HTTP2_WINDOW_UPDATE_THRESHOLD_PERCENT / 100
abbrev pub threshold : ℕ
threshold = default_window_size * 50 / 100

is_bad_increment : ℕ → Bool
is_bad_increment increment = increment == 0 || ltb max_window increment

update_payload : ℕ → List ℕ
update_payload increment =
    bit_and (increment / 2 ^ 24) 0x7f
    ∷ bit_and (increment / 2 ^ 16) 0xff
    ∷ bit_and (increment / 2 ^ 8) 0xff
    ∷ bit_and increment 0xff
    ∷ []

update_header : ℕ → FrameHeader
update_header stream_id = record { size = 4; kind = 8; flags = 0; stream_id = stream_id }

unfoldable pub send_window_update : Net → Connection → ℕ → ℕ → Run (Status × Connection)
unfolding is_bad_increment send_frame update_payload update_header
send_window_update net c stream_id increment =
    if is_bad_increment increment
    then returns (failure, c)
    else send_frame net c (update_header stream_id) (some (update_payload increment))

over_max : ℤ → Status
over_max w = if ltb_ℤ (pos max_window) w then failure else success

-- conn->remote_window_size += increment under the write lock.
update_connection : ℕ → Connection → Status × Connection
unfolding over_max add_i32 unlock_write
update_connection increment c =
    let w = add_i32 c.remote_window_size increment in
    (over_max w, unlock_write (record c { remote_window_size = w }))

-- The first stream with the identifier, if there is one, under the streams lock.
pub find_by_id : ℕ → List Stream → Option Stream
find_by_id id [] = none
find_by_id id (s ∷ ss) = if s.id == id then some s else find_by_id id ss

abbrev pub grow_remote : ℕ → Stream → Stream
grow_remote increment s = record s { remote_window_size = add_i32 s.remote_window_size increment }

update_stream : ℕ → ℕ → Connection → Status × Connection
unfolding over_max add_i32 unlock_streams find_by_id touch
update_stream stream_id increment c = elim (find_by_id stream_id c.streams) [
  | none ↦ (success, unlock_streams c)
  | some s ↦ (
    over_max (add_i32 s.remote_window_size increment),
    unlock_streams (touch s.address (grow_remote increment) c),
  )
]

unfoldable pub receive_window_update : Connection → ℕ → ℕ → Run (Status × Connection)
unfolding is_bad_increment update_connection update_stream lock_write lock_streams
receive_window_update c stream_id increment =
    if is_bad_increment increment
    then returns (failure, c)
    else if stream_id == 0
    then (lock_write c >>= λ held. returns (update_connection increment held))
    else (lock_streams c >>= λ held. returns (update_stream stream_id increment held))

-- Whether a length, as an int32_t, is at most both windows.
fits_both : Connection → ℕ → ℤ → Run (Bool × Connection)
unfolding lock_write unlock_write the_stream
fits_both c p len = do
  held ← lock_write c
  let c' = unlock_write held
  s ← the_stream p c'
  returns (not (ltb_ℤ c'.remote_window_size len) && not (ltb_ℤ s.remote_window_size len), c')

unfoldable pub can_send : Connection → ℕ → ℕ → Run (Bool × Connection)
unfolding fits_both truncate
can_send c p data_len = fits_both c p (truncate data_len)

unfoldable pub consume_send_window : Connection → ℕ → ℕ → Run (Status × Connection)
unfolding lock_write unlock_write the_stream touch sub_i32
consume_send_window c p data_len = do
  held ← lock_write c
  let w = sub_i32 held.remote_window_size data_len
  let c' = unlock_write (record held { remote_window_size = w })
  s ← the_stream p c'
  returns (
    success,
    touch p (λ s. record s { remote_window_size = sub_i32 s.remote_window_size data_len }) c',
  )

-- HTTP2_DEFAULT_WINDOW_SIZE - window, as a uint32_t.
missing : ℤ → ℕ
unfolding u32_of ◌-ℤ◌
missing w = u32_of (pos default_window_size -ℤ w)

-- A WINDOW_UPDATE for the connection when its window is low. The result of sending is not looked at.
refill_connection : Net → Connection → Run Connection
refill_connection net c =
    if ltb_ℤ c.local_window_size (pos threshold)
    then (if ltb 0 (missing c.local_window_size)
        then (send_window_update net c 0 (missing c.local_window_size) >>= λ r.
            returns (record (r.1) { local_window_size = pos default_window_size }))
        else returns c)
    else returns c

refill_stream : Net → ℕ → Stream → Connection → Run Connection
unfolding touch
refill_stream net p s c =
    if ltb_ℤ s.local_window_size (pos threshold)
    then (if ltb 0 (missing s.local_window_size)
        then (send_window_update net c s.id (missing s.local_window_size) >>= λ r.
            returns (touch p (λ s. record s { local_window_size = pos default_window_size }) (r.1)))
        else returns c)
    else returns c

charge_stream : Net → ℕ → ℕ → Connection → Run (Status × Connection)
unfolding the_stream touch
charge_stream net p data_len c = do
  s ← the_stream p c
  let s' = record s { local_window_size = sub_i32 s.local_window_size data_len }
  if ltb_ℤ s.local_window_size (truncate data_len)
      then returns (failure, c)
      else (refill_stream net p s' (touch p (λ _. s') c) >>= λ c'. returns (success, c'))

-- The connection's part, with the write lock held throughout, then the stream's.
charge_connection : Net → ℕ → ℕ → Connection → Run (Status × Connection)
unfolding unlock_write
charge_connection net p data_len held =
    if ltb_ℤ held.local_window_size (truncate data_len)
    then returns (failure, unlock_write held)
    else (refill_connection net
          (record held { local_window_size = sub_i32 held.local_window_size data_len })
        >>= λ c. charge_stream net p data_len (unlock_write c))

pub consume_recv_window : Net → Connection → ℕ → ℕ → Run (Status × Connection)
unfolding lock_write
consume_recv_window net c p data_len =
    if ltb_ℤ (truncate data_len) (pos 0) || ltb_ℤ (pos default_window_size) (truncate data_len)
    then returns (failure, c)
    else lock_write c >>= λ held. charge_connection net p data_len held

unfoldable pub init_connection : Connection → Connection
init_connection c = record c {
  local_window_size = pos default_window_size;
  remote_window_size = pos default_window_size;
  max_frame_size = 16384;
  max_concurrent_streams = 100;
}

unfoldable pub init_stream : Stream → Stream
init_stream s = record s {
  local_window_size = pos default_window_size;
  remote_window_size = pos default_window_size;
}
