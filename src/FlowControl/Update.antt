-- ===== src/FlowControl/Update.antt =====
-- http2_flow_control_receive_window_update.
use grpc_c.Common.{
  ℕ, ◌+◌, ◌-◌, ◌^◌, ◌≤◌, ◌<◌, ◌≡◌, ◌≢◌, ◌⊎◌, arith, false, none, some, Option-cases, inl, inr,
}
use grpc_c.Common.Int.{ℤ, pos, negsuc}
use grpc_c.Common.Words.{add_i32, add_i32-IsI32, add_i32_wraps}
use grpc_c.Common.Fallible.{success, failure}
use grpc_c.Transport.{Connection, returns, touch}
use grpc_c.FlowControl.{
  max_window, over_max, update_stream, find_by_id, grow_remote, receive_window_update,
}

-- An int32_t is never above 0x7FFFFFFF.
over_max-success : (w : ℤ) (n : ℕ) → over_max (add_i32 w n) ≡ success
unfolding over_max
over_max-success w n = ground (arith, add_i32-IsI32 w n)

-- An increment outside 1 .. 2 ^ 31 - 1 is refused and changes nothing.
receive_bad_increment :
    (c : Connection) (stream_id increment : ℕ)
    → (increment ≡ 0) ⊎ (max_window < increment)
    → receive_window_update c stream_id increment ≡ returns (failure, c)
unfolding receive_window_update
receive_bad_increment c stream_id increment h = ground arith

-- Whatever the window was, a valid increment of the connection's window is accepted and added modulo
-- 2 ^ 32: the check for an overflow never fires.
receive_connection :
    (c : Connection) (increment : ℕ)
    → 1 ≤ increment
    → increment ≤ max_window
    → c.write_mutex ≡ false
    → receive_window_update c 0 increment
      ≡ returns (success, record c { remote_window_size = add_i32 c.remote_window_size increment })
unfolding receive_window_update
receive_connection c increment h k free =
    ground (arith, over_max-success c.remote_window_size increment)

-- With the write lock free, an increment that takes the window of the connection past 2 ^ 31 - 1
-- is not refused: the update succeeds and leaves the connection with a negative window, 2 ^ 32
-- below the true sum.
pub receive_overflow :
    (c : Connection) (a increment : ℕ)
    → c.write_mutex ≡ false
    → c.remote_window_size ≡ pos a
    → a ≤ max_window
    → increment ≤ max_window
    → max_window < a + increment
    → receive_window_update c 0 increment
      ≡ returns (success, record c { remote_window_size = negsuc (2 ^ 32 - 1 - (a + increment)) })
receive_overflow c a increment free e ha hi over = ground (
  arith,
  receive_connection c increment (omega arith) hi free,
  add_i32_wraps a increment (omega arith) (omega arith) (omega arith),
)

-- With the streams lock free, an increment from 1 to 2 ^ 31 - 1 for a stream is added, as int32_t,
-- to the window of the first stream with the identifier, and changes nothing for an unknown
-- identifier; both succeed.
pub receive_stream :
    (c : Connection) (stream_id increment : ℕ)
    → stream_id ≢ 0
    → 1 ≤ increment
    → increment ≤ max_window
    → c.streams_mutex ≡ false
    → receive_window_update c stream_id increment
      ≡ returns (
        success,
        elim (find_by_id stream_id c.streams) [
          | none ↦ c
          | some s ↦ touch s.address (grow_remote increment) c
        ],
      )
unfolding receive_window_update update_stream touch
receive_stream c stream_id increment some_id h k free =
    elim (Option-cases (find_by_id stream_id c.streams)) [
      | inl missing ↦ ground arith
      | inr (s, found) ↦ ground (arith, over_max-success s.remote_window_size increment)
    ]
