-- ===== src/FlowControl/Keeps/Updates.antt =====
-- Window updates, sent and received, and the windows of sending (src/flow_control.c): what they
-- leave alone.
use mathlib.Core.Path.{subst}
use grpc_c.Common.{
  ℕ, ◌≡◌, refl, sym, arith, Bool, false, some, Bool-cases, Option-cases, inl, inr, ◌==◌,
}
use grpc_c.Common.Words.{add_i32, sub_i32, add_i32-IsI32, sub_i32-IsI32}
use grpc_c.Common.Fallible.{Status}
use grpc_c.Transport.{
  Net, Connection, returns, lock_write, unlock_write, lock_streams, unlock_streams, the_stream,
  touch,
}
use grpc_c.Transport.Frame.{send_frame}
use grpc_c.Transport.Frame.Send.{send_frame_effect}
use grpc_c.FlowControl.{
  fits_both, is_bad_increment, update_header, update_payload, find_by_id, send_window_update,
  receive_window_update, update_connection, update_stream, grow_remote, can_send,
  consume_send_window,
}
use grpc_c.FlowControl.Keeps.{Keeps, Keeps-eq, Keeps-trans, Keeps-windows, Gentle, Keeps-touch}

pub send_window_update-Keeps :
    (net : Net) (c c' : Connection) (stream_id n : ℕ) (status : Status)
    → send_window_update net c stream_id n ≡ returns (status, c')
    → Keeps c c'
unfolding send_window_update
send_window_update-Keeps net c c' stream_id n status e = elim (Bool-cases (is_bad_increment n)) [
  | inl bad ↦ Keeps-eq c c' (ground (arith, bad, e))
  | inr good ↦
      let sent : send_frame net c (update_header stream_id) (some (update_payload n))
          ≡ returns (status, c') =
        ground (arith, good, e) in
      subst (Keeps c)
        (sym (
          send_frame_effect net c c' (update_header stream_id) (some (update_payload n)) status
            sent))
        (Keeps-windows c c'.socket c'.write_mutex c.local_window_size c.remote_window_size
          (λ r. (r.local, r.remote)))
]

Gentle-grow : (n : ℕ) → Gentle (grow_remote n)
Gentle-grow n = record {
  address = λ s. refl;
  id = λ s. refl;
  range = λ s (l, r). (l, add_i32-IsI32 s.remote_window_size n);
}

-- Whatever a window update that was received does.
pub receive_window_update-Keeps :
    (c c' : Connection) (stream_id n : ℕ) (status : Status)
    → receive_window_update c stream_id n ≡ returns (status, c')
    → Keeps c c'
unfolding receive_window_update update_connection update_stream lock_write lock_streams unlock_write
    unlock_streams
receive_window_update-Keeps c c' stream_id n status e = elim (Bool-cases (is_bad_increment n)) [
  | inl bad ↦ Keeps-eq c c' (ground (arith, bad, e))
  | inr good ↦ elim (Bool-cases (stream_id == 0)) [
    | inl whole ↦
        let same : record c {
          write_mutex = false;
          remote_window_size = add_i32 c.remote_window_size n;
        }
            ≡ c' =
          ground (arith, good, whole, e) in
        subst (Keeps c) same (
          Keeps-windows c c.socket false c.local_window_size (add_i32 c.remote_window_size n)
            (λ r. (r.local, add_i32-IsI32 c.remote_window_size n)))
    | inr one ↦
        let free : c.streams_mutex ≡ false = ground (arith, good, one, e) in
        elim (Option-cases (find_by_id stream_id c.streams)) [
          | inl nobody ↦ Keeps-eq c c' (ground (arith, good, one, free, nobody, e))
          | inr (s, found) ↦
              Keeps-trans c (touch s.address (grow_remote n) c) c'
                (Keeps-touch s.address (grow_remote n) c (Gentle-grow n))
                (Keeps-eq (touch s.address (grow_remote n) c) c'
                  (ground (arith, good, one, free, found, e)))
        ]
  ]
]

Gentle-spend :
    (n : ℕ) → Gentle (λ s. record s { remote_window_size = sub_i32 s.remote_window_size n })
Gentle-spend n = record {
  address = λ s. refl;
  id = λ s. refl;
  range = λ s (l, r). (l, sub_i32-IsI32 s.remote_window_size n);
}

pub can_send-Keeps :
    (c c' : Connection) (p n : ℕ) (answer : Bool)
    → can_send c p n ≡ returns (answer, c')
    → Keeps c c'
unfolding can_send fits_both lock_write unlock_write the_stream
can_send-Keeps c c' p n answer e =
    let same : record c { write_mutex = false } ≡ c' = ground (arith, e) in
    subst (Keeps c) same (
      Keeps-windows c c.socket false c.local_window_size c.remote_window_size
        (λ r. (r.local, r.remote)))

pub consume_send_window-Keeps :
    (c c' : Connection) (p n : ℕ) (status : Status)
    → consume_send_window c p n ≡ returns (status, c')
    → Keeps c c'
unfolding consume_send_window lock_write unlock_write the_stream
consume_send_window-Keeps c c' p n status e =
    let d : Connection = record c {
      write_mutex = false;
      remote_window_size = sub_i32 c.remote_window_size n;
    } in
    let same : touch p (λ s. record s { remote_window_size = sub_i32 s.remote_window_size n }) d
        ≡ c' =
      ground (arith, e) in
    subst (Keeps c) same (
      Keeps-trans c d _
        (Keeps-windows c c.socket false c.local_window_size (sub_i32 c.remote_window_size n)
          (λ r. (r.local, sub_i32-IsI32 c.remote_window_size n)))
        (Keeps-touch p (λ s. record s { remote_window_size = sub_i32 s.remote_window_size n }) d
          (Gentle-spend n)))
