-- ===== src/ConnectionPool/Destroy.antt =====
-- The end of a pool (connection_pool.c): grpc_connection_pool_destroy.
use grpc_c.Common.{
  ◌≡◌, refl, arith, Bool, true, false, ◌&&◌, List, [], ◌∷◌, map, All, List-cases, if◌then◌else◌,
  inl, inr, ℕ,
}
use grpc_c.Transport.{Stream, Connection, Run, returns, deadlock, fault, ◌>>=◌}
use grpc_c.Streams.{connection_destroy}
use grpc_c.Streams.Laws.{connection_destroy_ends}
use grpc_c.ConnectionPool.{PooledConnection, Node, live, freed, Pool}
use grpc_c.ConnectionPool.Laws.{IsValid}

-- The loop that destroys the connections.
unfoldable pub destroy_nodes : (ℕ → Connection) → List Node → Run (Unit {0})
destroy_nodes heap [] = returns tt
destroy_nodes heap (freed ∷ rest) = fault
destroy_nodes heap (live conn ∷ rest) =
    connection_destroy (heap conn.connection) >>= λ c. destroy_nodes heap rest

-- The thread is joined first, whether it was created or not; to join none is a fault.
unfoldable pub pool_destroy : (ℕ → Connection) → Pool → Run (Unit {0})
unfolding destroy_nodes
pool_destroy heap pool =
    if pool.keepalive_running then destroy_nodes heap pool.connections else fault

abbrev pub no_streams : List Stream → Bool
no_streams [] = true
no_streams (s ∷ ss) = false

-- No connection of the list has a stream.
unfoldable pub all_idle : (ℕ → Connection) → List PooledConnection → Bool
all_idle heap [] = true
all_idle heap (c ∷ cs) = no_streams (heap c.connection).streams && all_idle heap cs

destroy_nodes-all_idle :
    (heap : ℕ → Connection) (conns : List PooledConnection)
    → All (λ c. (heap c.connection).streams_mutex ≡ false) conns
    → destroy_nodes heap (map live conns) ≡ (if all_idle heap conns then returns tt else deadlock)
unfolding destroy_nodes all_idle
destroy_nodes-all_idle heap [] unlocked = refl
destroy_nodes-all_idle heap (c ∷ cs) (free, unlocked) =
    let ends = connection_destroy_ends (heap c.connection) free in
    elim (List-cases (heap c.connection).streams) [
      | inl nothing ↦ ground (arith, ends, nothing, destroy_nodes-all_idle heap cs unlocked)
      | inr (s, ss, some_streams) ↦ ground (arith, ends, some_streams)
    ]

-- A valid pool whose thread was created, with no lock of a connection held, is destroyed if no
-- connection has a stream left; if one has, the destruction waits for ever. Where the thread was
-- not created, which grpc_connection_pool_create does not report, it joins a thread that there
-- is none of.
pub pool_destroy_ends :
    (heap : ℕ → Connection) (p : Pool) (conns : List PooledConnection)
    → IsValid p conns
    → All (λ c. (heap c.connection).streams_mutex ≡ false) conns
    → pool_destroy heap p ≡ (
        if p.keepalive_running
        then (if all_idle heap conns then returns tt else deadlock)
        else fault)
unfolding pool_destroy
pool_destroy_ends heap p conns v unlocked =
    ground (arith, v.linked, destroy_nodes-all_idle heap conns unlocked)
