-- ===== src/FlowControl/Keeps.antt =====
-- What no function of the flow control changes, and that the windows stay int32_t
-- (src/flow_control.c).
pub mod Updates
pub mod Receive
use mathlib.Core.Path.{subst}
use grpc_c.Common.{
  ℕ, ◌≡◌, ◌||◌, refl, sym, ap, ◌∙◌, arith, Bool, true, false, some, List, [], ◌∷◌, map, All,
  Bool-cases, Option-cases, inl, inr, ◌==◌, ltb,
}
use grpc_c.Common.Int.{ℤ, pos, ltb_ℤ}
use grpc_c.Common.Words.{IsI32, add_i32, sub_i32, add_i32-IsI32, sub_i32-IsI32, truncate}
use grpc_c.Common.Fallible.{Status, success}
use grpc_c.Transport.{
  Net, Stream, Connection, returns, lock_write, unlock_write, lock_streams, unlock_streams,
  the_stream, stream_at, touch, touch_all, bind_returns,
}
use grpc_c.Transport.Frame.{send_frame}
use grpc_c.Transport.Frame.Send.{send_frame_effect}
use grpc_c.FlowControl.{
  threshold, fits_both, is_bad_increment, update_header, update_payload, find_by_id,
  send_window_update, receive_window_update, update_connection, update_stream, grow_remote,
  can_send, consume_send_window, consume_recv_window, default_window_size, refill_connection,
  refill_stream, charge_stream, charge_connection, missing,
}

abbrev pub HasI32 : Stream → Type 0
HasI32 s = IsI32 s.local_window_size × IsI32 s.remote_window_size

-- All windows of the connection and its streams are values of an int32_t.
pub record Ranged (c : Connection) : Type 0 where
  pub local : IsI32 c.local_window_size
  pub remote : IsI32 c.remote_window_size
  pub streams : All HasI32 c.streams

-- The streams are the same but for their windows, and windows stay int32_t.
pub record Keeps (c c' : Connection) : Type 0 where
  pub addresses : map (λ s. s.address) c'.streams ≡ map (λ s. s.address) c.streams
  pub ids : map (λ s. s.id) c'.streams ≡ map (λ s. s.id) c.streams
  pub next_id : c'.next_stream_id ≡ c.next_stream_id
  pub capacity : c'.streams_capacity ≡ c.streams_capacity
  pub lock : c'.streams_mutex ≡ c.streams_mutex
  pub windows : Ranged c → Ranged c'

pub Keeps-eq : (c c' : Connection) → c ≡ c' → Keeps c c'
Keeps-eq c c' e = subst (Keeps c) e (record {
  addresses = refl;
  ids = refl;
  next_id = refl;
  capacity = refl;
  lock = refl;
  windows = λ h. h;
})

pub Keeps-trans : (a b c : Connection) → Keeps a b → Keeps b c → Keeps a c
Keeps-trans a b c f g = record {
  addresses = g.addresses ∙ f.addresses;
  ids = g.ids ∙ f.ids;
  next_id = g.next_id ∙ f.next_id;
  capacity = g.capacity ∙ f.capacity;
  lock = g.lock ∙ f.lock;
  windows = λ r. g.windows (f.windows r);
}

-- A change of the connection's own windows, its socket and its write lock.
pub Keeps-windows :
    (c : Connection) (socket : _) (mutex : Bool) (l r : ℤ)
    → (Ranged c → IsI32 l × IsI32 r)
    → Keeps c (record c {
      socket = socket;
      write_mutex = mutex;
      local_window_size = l;
      remote_window_size = r;
    })
Keeps-windows c socket mutex l r ok = record {
  addresses = refl;
  ids = refl;
  next_id = refl;
  capacity = refl;
  lock = refl;
  windows = λ h. record { local = (ok h).0; remote = (ok h).1; streams = h.streams };
}

-- A change of a stream that leaves its address and identifier alone.
pub record Gentle (f : Stream → Stream) : Type 0 where
  pub address : (s : Stream) → (f s).address ≡ s.address
  pub id : (s : Stream) → (f s).id ≡ s.id
  pub range : (s : Stream) → HasI32 s → HasI32 (f s)

touch_all_keeps :
    (p : ℕ) (f : Stream → Stream) (ss : List Stream)
    → Gentle f
    → (map (λ s. s.address) (touch_all p f ss) ≡ map (λ s. s.address) ss)
      × (map (λ s. s.id) (touch_all p f ss) ≡ map (λ s. s.id) ss)
      × (All HasI32 ss → All HasI32 (touch_all p f ss))
unfolding touch_all
touch_all_keeps p f [] g = (refl, refl, λ h. h)
touch_all_keeps p f (s ∷ ss) g = elim (Bool-cases (s.address == p)) [
  | inl hit ↦ rw hit (
    ap (λ a. a ∷ map (λ s. s.address) ss) (g.address s),
    ap (λ a. a ∷ map (λ s. s.id) ss) (g.id s),
    λ (h, rest). (g.range s h, rest),
  )
  | inr miss ↦
      let (addresses, ids, range) = touch_all_keeps p f ss g in
      rw miss (ap (◌∷◌ s.address) addresses, ap (◌∷◌ s.id) ids, λ (h, rest). (h, range rest))
]

pub Keeps-touch : (p : ℕ) (f : Stream → Stream) (c : Connection) → Gentle f → Keeps c (touch p f c)
unfolding touch
Keeps-touch p f c g =
    let (addresses, ids, range) = touch_all_keeps p f c.streams g in
    record {
      addresses = addresses;
      ids = ids;
      next_id = refl;
      capacity = refl;
      lock = refl;
      windows = λ h. record { local = h.local; remote = h.remote; streams = range h.streams };
    }
