-- ===== src/FlowControl/Send.antt =====
-- http2_flow_control_can_send and http2_flow_control_consume_send_window.
use grpc_c.Common.{
  ℕ, ◌+◌, ◌-◌, ◌^◌, ◌≤◌, ◌<◌, ◌≡◌, ap, ◌∙◌, arith, true, false, some, List, [], ◌∷◌, leb, ◌&&◌,
}
use grpc_c.Common.Int.{ℤ, pos}
use grpc_c.Common.Words.{sub_i32, truncate, sub_i32-exact, truncate-exact}
use grpc_c.Common.Fallible.{success}
use grpc_c.Transport.{Stream, Connection, returns, stream_at, touch, touch_all}
use grpc_c.FlowControl.{fits_both, can_send, consume_send_window}

pub stream_at-address :
    (p : ℕ) (ss : List Stream) (s : Stream) → stream_at p ss ≡ some s → s.address ≡ p
unfolding stream_at
stream_at-address p [] s e = ground arith
stream_at-address p (x ∷ ss) s e = ground (arith, stream_at-address p ss s)

-- A write through a pointer is seen through it.
pub stream_at-touch_all :
    (p : ℕ) (f : Stream → Stream) (ss : List Stream) (s : Stream)
    → stream_at p ss ≡ some s
    → (f s).address ≡ p
    → stream_at p (touch_all p f ss) ≡ some (f s)
unfolding stream_at touch_all
stream_at-touch_all p f [] s e h = ground arith
stream_at-touch_all p f (x ∷ ss) s e h = ground (arith, stream_at-touch_all p f ss s)

-- For windows that are not negative and a length below 2 ^ 31 the answer is whether both windows
-- have room, and nothing changes.
can_send-eq :
    (c : Connection) (p a b n : ℕ) (s : Stream)
    → c.write_mutex ≡ false
    → stream_at p c.streams ≡ some s
    → c.remote_window_size ≡ pos a
    → s.remote_window_size ≡ pos b
    → n < 2 ^ 31
    → can_send c p n ≡ returns (leb n a && leb n b, c)
unfolding can_send
can_send-eq c p a b n s free at ea eb hn = ground (arith, truncate-exact n hn)

abbrev spend : ℕ → Stream → Stream
spend n s = record s { remote_window_size = sub_i32 s.remote_window_size n }

allowed :
    (c : Connection) (p a b n : ℕ) (s : Stream)
    → c.write_mutex ≡ false
    → stream_at p c.streams ≡ some s
    → c.remote_window_size ≡ pos a
    → s.remote_window_size ≡ pos b
    → n < 2 ^ 31
    → can_send c p n ≡ returns (true, c)
    → (n ≤ a) × (n ≤ b)
allowed c p a b n s free at ea eb hn ok = ground (arith, can_send-eq c p a b n s free at ea eb hn)

truncate_cut : (n : ℕ) → truncate (n + 2 ^ 32) ≡ truncate n
unfolding truncate
truncate_cut n = ground arith

-- With the write lock free, a stream of the connection and windows from 0 to 2 ^ 31 - 1: a length
-- below 2 ^ 31 that was allowed is at most both windows, and consuming it takes both down by it.
pub consume_after_can_send :
    (c : Connection) (p a b n : ℕ) (s : Stream)
    → c.write_mutex ≡ false
    → stream_at p c.streams ≡ some s
    → c.remote_window_size ≡ pos a
    → s.remote_window_size ≡ pos b
    → a < 2 ^ 31
    → b < 2 ^ 31
    → n < 2 ^ 31
    → can_send c p n ≡ returns (true, c)
    → (c' : Connection) × (consume_send_window c p n ≡ returns (success, c'))
      × (c'.remote_window_size ≡ pos (a - n))
      × (stream_at p c'.streams ≡ some (record s { remote_window_size = pos (b - n) }))
      × (n ≤ a)
      × (n ≤ b)
unfolding consume_send_window touch
consume_after_can_send c p a b n s free at ea eb ha hb hn ok =
    let (na, nb) = allowed c p a b n s free at ea eb hn ok in
    (
      touch p (spend n) (record c { remote_window_size = sub_i32 c.remote_window_size n }),
      ground arith,
      rw ea (sub_i32-exact a n ha na),
      stream_at-touch_all p (spend n) c.streams s at (stream_at-address p c.streams s at)
          ∙ rw eb (
              ap (λ (w : ℤ). some (record s { remote_window_size = w })) (sub_i32-exact b n hb nb)),
      na,
      nb,
    )

-- The length is cut to 32 bits before the comparison, so 4 GB more never make a difference.
can_send_truncates : (c : Connection) (p n : ℕ) → can_send c p (n + 2 ^ 32) ≡ can_send c p n
unfolding can_send
can_send_truncates c p n = ap (fits_both c p) (truncate_cut n)
