-- ===== src/FlowControl/Keeps/Receive.antt =====
-- The windows of receiving (src/flow_control.c): what consuming them leaves alone.
use mathlib.Core.Path.{subst}
use grpc_c.Common.{
  ℕ, ◌≡◌, ◌||◌, refl, sym, ap, arith, true, false, some, List, [], ◌∷◌, Bool-cases, Option-cases,
  inl, inr, ◌==◌, ltb,
}
use grpc_c.Common.Int.{pos, ltb_ℤ}
use grpc_c.Common.Words.{IsI32, sub_i32, sub_i32-IsI32, truncate}
use grpc_c.Common.Fallible.{Status, success}
use grpc_c.Transport.{
  Net, Stream, Connection, returns, lock_write, unlock_write, the_stream, stream_at, touch,
  touch_all, bind_returns,
}
use grpc_c.FlowControl.{
  threshold, send_window_update, consume_recv_window, default_window_size, refill_connection,
  refill_stream, charge_stream, charge_connection, missing,
}
use grpc_c.FlowControl.Keeps.{Keeps, Keeps-eq, Keeps-trans, Keeps-windows, Gentle, Keeps-touch}
use grpc_c.FlowControl.Keeps.Updates.{send_window_update-Keeps}

full_window : IsI32 (pos default_window_size)
full_window = (omega arith, omega arith)

refill_connection-Keeps :
    (net : Net) (c c' : Connection) → refill_connection net c ≡ returns c' → Keeps c c'
unfolding refill_connection
refill_connection-Keeps net c c' e = elim (Bool-cases (ltb_ℤ c.local_window_size (pos threshold))) [
  | inr high ↦ Keeps-eq c c' (ground (arith, high, e))
  | inl low ↦ elim (Bool-cases (ltb 0 (missing c.local_window_size))) [
    | inr enough ↦ Keeps-eq c c' (ground (arith, low, enough, e))
    | inl short ↦
        let ((status, d), sent, rest) =
          bind_returns (send_window_update net c 0 (missing c.local_window_size))
            (λ r. returns (record (r.1) { local_window_size = pos default_window_size })) c'
            (ground (arith, low, short, e)) in
        subst (Keeps c) (ground (arith, rest)) (
          Keeps-trans c d (record d { local_window_size = pos default_window_size })
            (send_window_update-Keeps net c d 0 (missing c.local_window_size) status sent)
            (Keeps-windows d d.socket d.write_mutex (pos default_window_size) d.remote_window_size
              (λ r. (full_window, r.remote))))
  ]
]

touch_all_const :
    (p : ℕ) (f : Stream → Stream) (ss : List Stream) (s : Stream)
    → stream_at p ss ≡ some s
    → touch_all p (λ t. f s) ss ≡ touch_all p f ss
unfolding touch_all stream_at
touch_all_const p f [] s at = refl
touch_all_const p f (t ∷ ss) s at = elim (Bool-cases (t.address == p)) [
  | inl hit ↦ ground (arith, hit, at)
  | inr miss ↦ ground (arith, miss, touch_all_const p f ss s (ground (arith, miss, at)))
]

Gentle-filled : Gentle (λ s. record s { local_window_size = pos default_window_size })
Gentle-filled = record { address = λ s. refl; id = λ s. refl; range = λ s (l, r). (full_window, r) }

Gentle-charged :
    (n : ℕ) → Gentle (λ s. record s { local_window_size = sub_i32 s.local_window_size n })
Gentle-charged n = record {
  address = λ s. refl;
  id = λ s. refl;
  range = λ s (l, r). (sub_i32-IsI32 s.local_window_size n, r);
}

refill_stream-Keeps :
    (net : Net) (p : ℕ) (s : Stream) (c c' : Connection)
    → refill_stream net p s c ≡ returns c'
    → Keeps c c'
unfolding refill_stream
refill_stream-Keeps net p s c c' e = elim (Bool-cases (ltb_ℤ s.local_window_size (pos threshold))) [
  | inr high ↦ Keeps-eq c c' (ground (arith, high, e))
  | inl low ↦ elim (Bool-cases (ltb 0 (missing s.local_window_size))) [
    | inr enough ↦ Keeps-eq c c' (ground (arith, low, enough, e))
    | inl short ↦
        let f : Stream → Stream = λ s. record s { local_window_size = pos default_window_size } in
        let ((status, d), sent, rest) =
          bind_returns (send_window_update net c s.id (missing s.local_window_size))
            (λ r. returns (touch p f (r.1))) c' (ground (arith, low, short, e)) in
        subst (Keeps c) (ground (arith, rest)) (
          Keeps-trans c d (touch p f d)
            (send_window_update-Keeps net c d s.id (missing s.local_window_size) status sent)
            (Keeps-touch p f d Gentle-filled))
  ]
]

charge_stream-Keeps :
    (net : Net) (p n : ℕ) (c c' : Connection) (status : Status)
    → charge_stream net p n c ≡ returns (status, c')
    → Keeps c c'
unfolding charge_stream the_stream
charge_stream-Keeps net p n c c' status e = elim (Option-cases (stream_at p c.streams)) [
  | inl nothing ↦ absurd (ground (arith, nothing, e))
  | inr (s, at) ↦ elim (Bool-cases (ltb_ℤ s.local_window_size (truncate n))) [
    | inl short ↦ Keeps-eq c c' (ground (arith, at, short, e))
    | inr fits ↦
        let f : Stream → Stream =
          λ s. record s { local_window_size = sub_i32 s.local_window_size n } in
        let d : Connection = touch p (λ t. f s) c in
        let charged : touch p f c ≡ d =
          ap (λ (l : List Stream). record c { streams = l })
            (sym (touch_all_const p f c.streams s at)) in
        let (last, filled, rest) =
          bind_returns {B = Status × Connection} (refill_stream net p (f s) d)
            (λ x. returns (success, x)) (status, c') (ground (arith, at, fits, e)) in
        subst (Keeps c) (ground (arith, rest)) (
          Keeps-trans c d last (subst (Keeps c) charged (Keeps-touch p f c (Gentle-charged n)))
            (refill_stream-Keeps net p (f s) d last filled))
  ]
]

charge_connection-Keeps :
    (net : Net) (p n : ℕ) (c c' : Connection) (status : Status)
    → charge_connection net p n c ≡ returns (status, c')
    → Keeps c c'
unfolding charge_connection unlock_write
charge_connection-Keeps net p n c c' status e =
    let unlocked : (d : Connection) → Keeps d (record d { write_mutex = false }) = λ d.
      Keeps-windows d d.socket false d.local_window_size d.remote_window_size
        (λ r. (r.local, r.remote)) in
    elim (Bool-cases (ltb_ℤ c.local_window_size (truncate n))) [
      | inl short ↦ subst (Keeps c) (ground (arith, short, e)) (unlocked c)
      | inr fits ↦
          let d : Connection = record c { local_window_size = sub_i32 c.local_window_size n } in
          let (full, filled, rest) =
            bind_returns {B = Status × Connection} (refill_connection net d)
              (λ x. charge_stream net p n (unlock_write x)) (status, c')
              (ground (arith, fits, e)) in
          Keeps-trans c d c'
            (Keeps-windows c c.socket c.write_mutex (sub_i32 c.local_window_size n)
              c.remote_window_size (λ r. (sub_i32-IsI32 c.local_window_size n, r.remote)))
            (Keeps-trans d full c' (refill_connection-Keeps net d full filled) (
              Keeps-trans full (record full { write_mutex = false }) c' (unlocked full)
                (charge_stream-Keeps net p n (record full { write_mutex = false }) c' status rest)))
    ]

pub consume_recv_window-Keeps :
    (net : Net) (c c' : Connection) (p n : ℕ) (status : Status)
    → consume_recv_window net c p n ≡ returns (status, c')
    → Keeps c c'
unfolding consume_recv_window lock_write
consume_recv_window-Keeps net c c' p n status e =
    elim (Bool-cases (ltb_ℤ (truncate n) (pos 0) || ltb_ℤ (pos default_window_size) (truncate n))) [
      | inl bad ↦ Keeps-eq c c' (ground (arith, bad, e))
      | inr good ↦
          let held : Connection = record c { write_mutex = true } in
          let charged : charge_connection net p n held ≡ returns (status, c') =
            ground (arith, good, e) in
          Keeps-trans c held c'
            (Keeps-windows c c.socket true c.local_window_size c.remote_window_size
              (λ r. (r.local, r.remote)))
            (charge_connection-Keeps net p n held c' status charged)
    ]
