-- ===== src/FlowControl/Receive.antt =====
-- http2_flow_control_consume_recv_window, for lengths and windows up to 65535.
use grpc_c.Common.{
  ℕ, ◌-◌, ◌≤◌, ◌<◌, ◌≡◌, refl, ap, ◌∙◌, arith, true, false, none, some, ltb, if◌then◌else◌,
  Bool-cases, inl, inr,
}
use grpc_c.Common.Int.{ℤ, pos}
use grpc_c.Common.Words.{sub_i32-exact, truncate-exact}
use grpc_c.Common.Fallible.{success, failure}
use grpc_c.Transport.{Net, Stream, Connection, returns, deadlock, stream_at, touch}
use grpc_c.FlowControl.{
  default_window_size, threshold, missing, send_window_update, refill_connection, refill_stream,
  charge_stream, charge_connection, consume_recv_window,
}
use grpc_c.FlowControl.Send.{stream_at-address, stream_at-touch_all}

-- A window after `n` bytes: filled up when it falls below the threshold.
abbrev pub left : ℕ → ℕ → ℕ
left w n = if ltb (w - n) threshold then default_window_size else w - n

missing-eq : (w : ℕ) → w ≤ default_window_size → missing (pos w) ≡ default_window_size - w
unfolding missing
missing-eq w h = ground arith

update_closed :
    (net : Net) (c : Connection) (stream_id n : ℕ)
    → c.socket_fd ≡ none
    → send_window_update net c stream_id n ≡ returns (failure, c)
unfolding send_window_update
update_closed net c stream_id n closed = ground arith

update_deadlock :
    (net : Net) (c : Connection) (stream_id n fd : ℕ)
    → c.socket_fd ≡ some fd
    → c.write_mutex ≡ true
    → 1 ≤ n
    → n ≤ default_window_size
    → send_window_update net c stream_id n ≡ deadlock
unfolding send_window_update
update_deadlock net c stream_id n fd e held h k = ground arith

-- With no socket the frame is not sent, and the window is filled up all the same.
refill_connection_closed :
    (net : Net) (c : Connection) (w : ℕ)
    → c.socket_fd ≡ none
    → c.local_window_size ≡ pos w
    → w ≤ default_window_size
    → refill_connection net c
      ≡ returns (record c {
        local_window_size = pos (if ltb w threshold then default_window_size else w);
      })
unfolding refill_connection
refill_connection_closed net c w closed e h =
    ground (arith, missing-eq w h, update_closed net c 0 (default_window_size - w) closed)

refill_high :
    (net : Net) (c : Connection) (w : ℕ)
    → c.local_window_size ≡ pos w
    → threshold ≤ w
    → refill_connection net c ≡ returns c
unfolding refill_connection
refill_high net c w e h = ground arith

-- With a socket, and the lock held, filling it up never returns.
refill_connection_deadlock :
    (net : Net) (c : Connection) (w fd : ℕ)
    → c.socket_fd ≡ some fd
    → c.write_mutex ≡ true
    → c.local_window_size ≡ pos w
    → w < threshold
    → refill_connection net c ≡ deadlock
unfolding refill_connection
refill_connection_deadlock net c w fd e held ew h = ground (
  arith,
  missing-eq w (omega arith),
  update_deadlock net c 0 (default_window_size - w) fd e held (omega arith) (omega arith),
)

abbrev filled : Stream → Stream
filled s = record s { local_window_size = pos default_window_size }

same :
    (s : Stream) (w : ℕ) → s.local_window_size ≡ pos w → s ≡ record s { local_window_size = pos w }
same s w e = ap (λ (x : ℤ). record s { local_window_size = x }) e

refill_stream_closed :
    (net : Net) (c : Connection) (p w : ℕ) (s : Stream)
    → c.socket_fd ≡ none
    → s.local_window_size ≡ pos w
    → w ≤ default_window_size
    → stream_at p c.streams ≡ some s
    → (c' : Connection) × (refill_stream net p s c ≡ returns c')
      × (c'.local_window_size ≡ c.local_window_size)
      × (stream_at p c'.streams
          ≡ some (record s {
            local_window_size = pos (if ltb w threshold then default_window_size else w);
          }))
unfolding refill_stream
refill_stream_closed net c p w s closed e h at = elim (Bool-cases (ltb w threshold)) [
  | inl low ↦ (
    touch p filled c,
    ground (arith, missing-eq w h, update_closed net c s.id (default_window_size - w) closed),
    unfold touch in refl,
    rw low (
        unfold touch in
        stream_at-touch_all p filled c.streams s at (stream_at-address p c.streams s at)),
  )
  | inr high ↦ (c, ground arith, refl, rw high (at ∙ ap some (same s w e)))
]

consume_admitted :
    (net : Net) (c : Connection) (p n : ℕ)
    → c.write_mutex ≡ false
    → n ≤ default_window_size
    → consume_recv_window net c p n ≡ charge_connection net p n (record c { write_mutex = true })
unfolding consume_recv_window
consume_admitted net c p n free h = ground (arith, truncate-exact n (omega arith))

charge_connection_fits :
    (net : Net) (c d : Connection) (p a n : ℕ)
    → c.local_window_size ≡ pos a
    → a ≤ default_window_size
    → n ≤ a
    → refill_connection net (record c { local_window_size = pos (a - n) }) ≡ returns d
    → charge_connection net p n c ≡ charge_stream net p n (record d { write_mutex = false })
unfolding charge_connection
charge_connection_fits net c d p a n e ha na filled_up =
    ground (arith, truncate-exact n (omega arith), sub_i32-exact a n (omega arith) na)

charge_stream_fits :
    (net : Net) (c : Connection) (p b n : ℕ) (s : Stream)
    → c.socket_fd ≡ none
    → stream_at p c.streams ≡ some s
    → s.local_window_size ≡ pos b
    → b ≤ default_window_size
    → n ≤ b
    → (c' : Connection) × (charge_stream net p n c ≡ returns (success, c'))
      × (c'.local_window_size ≡ c.local_window_size)
      × (stream_at p c'.streams ≡ some (record s { local_window_size = pos (left b n) }))
unfolding charge_stream
charge_stream_fits net c p b n s closed at e hb nb =
    let s' = record s { local_window_size = pos (b - n) } in
    let c1 = touch p (λ _. s') c in
    let placed =
      stream_at-touch_all p (λ _. s') c.streams s at (stream_at-address p c.streams s at) in
    let r =
      refill_stream_closed net c1 p (b - n) s' (unfold touch in closed) refl (omega arith)
        (unfold touch in placed) in
    (
      r.0,
      ground (arith, truncate-exact n (omega arith), sub_i32-exact b n (omega arith) nb, r.1),
      r.2 ∙ unfold touch in refl,
      r.3,
    )

-- With no socket, a length that fits both windows is taken from both; a window that falls below the
-- threshold is filled up at once, although no WINDOW_UPDATE was sent.
consume_recv_closed :
    (net : Net) (c : Connection) (p a b n : ℕ) (s : Stream)
    → c.socket_fd ≡ none
    → c.write_mutex ≡ false
    → c.local_window_size ≡ pos a
    → a ≤ default_window_size
    → stream_at p c.streams ≡ some s
    → s.local_window_size ≡ pos b
    → b ≤ default_window_size
    → n ≤ a
    → n ≤ b
    → (c' : Connection) × (consume_recv_window net c p n ≡ returns (success, c'))
      × (c'.local_window_size ≡ pos (left a n))
      × (stream_at p c'.streams ≡ some (record s { local_window_size = pos (left b n) }))
consume_recv_closed net c p a b n s closed free ea ha at eb hb na nb =
    let c1 = record c { write_mutex = true; local_window_size = pos (a - n) } in
    let d = record c1 { local_window_size = pos (left a n); write_mutex = false } in
    let full = refill_connection_closed net c1 (a - n) closed refl (omega arith) in
    let r = charge_stream_fits net d p b n s closed at eb hb nb in
    (
      r.0,
      consume_admitted net c p n free (omega arith)
          ∙ charge_connection_fits net (record c { write_mutex = true })
              (record d { write_mutex = true }) p a n ea ha na full
          ∙ r.1,
      r.2,
      r.3,
    )

-- With a socket, a length that takes the connection's window below the threshold makes the call wait
-- for ever: it sends the WINDOW_UPDATE while it holds the lock that sending takes.
pub consume_recv_deadlock :
    (net : Net) (c : Connection) (p a n fd : ℕ)
    → c.socket_fd ≡ some fd
    → c.write_mutex ≡ false
    → c.local_window_size ≡ pos a
    → a ≤ default_window_size
    → n ≤ a
    → a - n < threshold
    → consume_recv_window net c p n ≡ deadlock
unfolding charge_connection
consume_recv_deadlock net c p a n fd e free ea ha na low =
    let c1 = record c { write_mutex = true; local_window_size = pos (a - n) } in
    consume_admitted net c p n free (omega arith)
    ∙ ground (
      arith,
      truncate-exact n (omega arith),
      sub_i32-exact a n (omega arith) na,
      refill_connection_deadlock net c1 (a - n) fd e refl refl low,
    )

-- With the write lock free, a length that fits the window of the connection, and leaves it at the
-- threshold at least, but does not fit the window of the stream is refused, yet the window of the
-- connection has been charged for it.
pub consume_recv_refused :
    (net : Net) (c : Connection) (p a b n : ℕ) (s : Stream)
    → c.write_mutex ≡ false
    → c.local_window_size ≡ pos a
    → a ≤ default_window_size
    → stream_at p c.streams ≡ some s
    → s.local_window_size ≡ pos b
    → n ≤ a
    → threshold ≤ a - n
    → b < n
    → consume_recv_window net c p n
      ≡ returns (failure, record c { local_window_size = pos (a - n) })
unfolding charge_stream
consume_recv_refused net c p a b n s free ea ha at eb na high nb =
    let c1 = record c { write_mutex = true; local_window_size = pos (a - n) } in
    consume_admitted net c p n free (omega arith)
    ∙ charge_connection_fits net (record c { write_mutex = true }) c1 p a n ea ha na
        (refill_high net c1 (a - n) refl high)
    ∙ ground (arith, truncate-exact n (omega arith))
