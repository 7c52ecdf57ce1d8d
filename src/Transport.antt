-- ===== src/Transport.antt =====
-- http2_transport.c (src/http2_transport.c) with the types of src/grpc_internal.h: the connection,
-- its socket, its locks and its streams.
pub mod Frame
mod Tests
use grpc_c.Common.{
  ℕ, ◌≡◌, refl, Bool, true, false, Option, none, some, List, [], ◌∷◌, ◌==◌, if◌then◌else◌,
}
use grpc_c.Common.Int.{ℤ}

-- The other end of the socket: how many bytes the n-th call of send or recv takes of those offered;
-- `none` if it returns -1.
abbrev pub Net : Type 0
Net = ℕ → ℕ → Option ℕ

-- What was written to the socket, what is still to be read, and the number of calls made.
pub record Socket : Type 0 where
  pub written : List ℕ
  pub inbox : List ℕ
  pub calls : ℕ

-- A stream at its address. Its connection is the one that holds it.
pub record Stream : Type 0 where
  pub address : ℕ
  pub id : ℕ
  pub headers_sent : Bool
  pub end_stream_sent : Bool
  pub end_stream_received : Bool
  pub status : ℕ
  pub local_window_size : ℤ
  pub remote_window_size : ℤ

-- A descriptor below 0 is `none`. A lock is the truth value that says whether it is held.
pub record Connection : Type 0 where
  pub socket_fd : Option ℕ
  pub socket : Socket
  pub is_client : Bool
  pub next_stream_id : ℕ
  pub write_mutex : Bool
  pub streams_mutex : Bool
  pub streams : List Stream
  pub streams_capacity : ℕ
  pub local_window_size : ℤ
  pub remote_window_size : ℤ
  pub max_frame_size : ℕ
  pub max_concurrent_streams : ℕ

-- A run that returns, that waits for ever for a lock that it holds itself, or that uses an object
-- which is not there (any more).
pub data Run {ℓ} (A : Type ℓ) : Type ℓ where
  returns : A → Run A
  deadlock : Run A
  fault : Run A

infixl 5 ◌>>=◌
abbrev pub ◌>>=◌ {ℓ κ} : {A : Type ℓ} {B : Type κ} → Run A → (A → Run B) → Run B
returns a >>= f = f a
deadlock >>= f = deadlock
fault >>= f = fault

unfoldable pub lock_write : Connection → Run Connection
lock_write c = if c.write_mutex then deadlock else returns (record c { write_mutex = true })

unfoldable pub unlock_write : Connection → Connection
unlock_write c = record c { write_mutex = false }

unfoldable pub lock_streams : Connection → Run Connection
lock_streams c = if c.streams_mutex then deadlock else returns (record c { streams_mutex = true })

unfoldable pub unlock_streams : Connection → Connection
unlock_streams c = record c { streams_mutex = false }

-- The object behind a stream pointer. A stream is in its connection's array from its creation to
-- its destruction.
unfoldable pub stream_at : ℕ → List Stream → Option Stream
stream_at p [] = none
stream_at p (s ∷ ss) = if s.address == p then some s else stream_at p ss

unfoldable pub the_stream : ℕ → Connection → Run Stream
unfolding stream_at
the_stream p c = elim (stream_at p c.streams) [ none ↦ fault | some s ↦ returns s ]

-- A write through a stream pointer.
unfoldable pub touch_all : ℕ → (Stream → Stream) → List Stream → List Stream
touch_all p f [] = []
touch_all p f (s ∷ ss) = if s.address == p then f s ∷ ss else s ∷ touch_all p f ss

unfoldable pub touch : ℕ → (Stream → Stream) → Connection → Connection
unfolding touch_all
touch p f c = record c { streams = touch_all p f c.streams }

pub bind_returns {ℓ κ} :
    {A : Type ℓ} {B : Type κ} (m : Run A) (f : A → Run B) (b : B)
    → (m >>= f) ≡ returns b
    → (a : A) × (m ≡ returns a) × (f a ≡ returns b)
bind_returns (returns a) f b e = (a, refl, e)
bind_returns deadlock f b e = cc
bind_returns fault f b e = cc
