-- ===== src/ConnectionPool/Tests.antt =====
-- Runs of the connection pool (src/connection_pool.c) with two connections, and its theorems at
-- concrete inputs.
use grpc_c.Common.{
  ◌≢◌, ℕ, ◌+◌, ◌≡◌, refl, arith, Bool, true, false, Option, none, List, [], ◌∷◌, map, length, inl,
  inr,
}
use grpc_c.Common.Int.{ℤ, pos}
use grpc_c.Common.Memory.{Alloc, same_string}
use grpc_c.Transport.{Connection, returns, fault}
use grpc_c.ConnectionPool.{PooledConnection, live, Pool, get, cleanup_idle, keepalive_tick}
use grpc_c.ConnectionPool.Laws.{IsValid, staying}
use grpc_c.ConnectionPool.Calls.{Got, get_lends}
use grpc_c.ConnectionPool.Destroy.{pool_destroy}
use grpc_c.ConnectionPool.Eviction.{get_full_dangles}
use grpc_c.ConnectionPool.Keepalive.{in_use, ticked, keepalive_cleanup_keeps}

abbrev quiet : ℕ → Connection
quiet address = record {
  socket_fd = none;
  socket = record { written = []; inbox = []; calls = 0 };
  is_client = true;
  next_stream_id = 1;
  write_mutex = false;
  streams_mutex = false;
  streams = [];
  streams_capacity = 16;
  local_window_size = pos 65535;
  remote_window_size = pos 65535;
  max_frame_size = 16384;
  max_concurrent_streams = 100;
}

abbrev to : ℕ → ℕ → Bool → PooledConnection
to host active healthy = record {
  target = host ∷ [];
  connection = host + 100;
  last_used = pos host;
  last_keepalive = pos 0;
  active_calls = active;
  is_healthy = healthy;
}

abbrev pool_of : ℕ → List PooledConnection → Pool
pool_of most conns = record {
  connections = map live conns;
  max_connections = most;
  current_connections = length conns;
  idle_timeout_ms = 30000;
  keepalive = record { interval_ms = 30000; timeout_ms = 10000; permit_without_calls = false };
  keepalive_running = true;
}

abbrev two : List PooledConnection
two = to 7 1 true ∷ to 8 0 false ∷ []

abbrev two-IsValid : IsValid (pool_of 5 two) two
two-IsValid = record { linked = refl; counted = refl; limited = omega arith }

abbrev clock : ℕ → ℤ
clock k = pos (1000 + k)

abbrev all_granted : Alloc
all_granted k = true

-- Only the connection in use is kept.
staying-two : staying two ≡ to 7 1 true ∷ []
unfolding staying
staying-two = refl

get_lends_example : Got quiet clock all_granted 0 300 (pool_of 5 two) two (9 ∷ [])
get_lends_example =
    get_lends quiet clock all_granted 0 300 (pool_of 5 two) two (9 ∷ []) two-IsValid
      (inl (omega arith))

get_full_dangles_example :
    (p' : Pool) × (result : Option ℕ) × (get quiet clock all_granted 0 300 (pool_of 2 two) (9 ∷ [])
      ≡ returns (p', result))
    × (keepalive_tick (pos 2000) p' ≡ fault)
    × (pool_destroy quiet p' ≢ returns tt)
unfolding same_string
get_full_dangles_example =
    get_full_dangles quiet clock all_granted 0 300 (pool_of 2 two) two (9 ∷ []) (pos 2000)
      (record { linked = refl; counted = refl; limited = omega arith }) (omega arith)
      (refl, (refl, tt)) (λ busy. omega (arith, busy.1.0)) ((refl, refl), ((refl, refl), tt))

keepalive_cleanup_keeps_example :
    (p' p'' : Pool) × (left : List PooledConnection) × (keepalive_tick (pos 2000) (pool_of 5 two)
      ≡ returns p')
    × (cleanup_idle quiet p' ≡ returns p'')
    × IsValid p'' left
    × (in_use left ≡ map (ticked (pool_of 5 two) (pos 2000)) (in_use two))
keepalive_cleanup_keeps_example =
    keepalive_cleanup_keeps quiet (pool_of 5 two) (pos 2000) two two-IsValid
      (inr (refl, refl), (inr (refl, refl), tt))
