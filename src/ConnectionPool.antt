-- ===== src/ConnectionPool.antt =====
-- The pool of connections (src/connection_pool.c). A connection is known by its address; `heap` is
-- what stands at an address when an operation runs, and `clock` what a call of time() gives. A
-- pooled connection that was freed and is still linked in the list is `freed`: to walk over it is
-- a fault.
pub mod Laws
pub mod Calls
pub mod Returns
pub mod Eviction
pub mod Keepalive
pub mod Destroy
mod Tests
use grpc_c.Common.{
  ℕ, zero, suc, ◌+◌, ◌-◌, ◌*◌, Bool, true, false, not, ◌&&◌, ◌||◌, Option, none, some, List, [],
  ◌∷◌, length, ltb, leb, ◌==◌, if◌then◌else◌,
}
use grpc_c.Common.Int.{ℤ, pos, ◌-ℤ◌, ◌*ℤ◌, ltb_ℤ}
use grpc_c.Common.Memory.{Alloc, same_string}
use grpc_c.Common.Fallible.{Status, success, failure}
use grpc_c.Transport.{Connection, Run, returns, fault, ◌>>=◌}
use grpc_c.Streams.{connection_create, connection_destroy}

pub record KeepaliveConfig : Type 0 where
  pub interval_ms : ℕ
  pub timeout_ms : ℕ
  pub permit_without_calls : Bool

pub record PooledConnection : Type 0 where
  pub target : List ℕ
  pub connection : ℕ
  pub last_used : ℤ
  pub last_keepalive : ℤ
  pub active_calls : ℕ
  pub is_healthy : Bool

pub data Node : Type 0 where
  live : PooledConnection → Node
  freed : Node

pub record Pool : Type 0 where
  pub connections : List Node
  pub max_connections : ℕ
  pub current_connections : ℕ
  pub idle_timeout_ms : ℕ
  pub keepalive : KeepaliveConfig
  pub keepalive_running : Bool

-- An int argument at most 0 selects the default; it is given as 0.
abbrev pub or_default : ℕ → ℕ → ℕ
or_default given default = if ltb 0 given then given else default

-- `thread` tells whether pthread_create succeeds.
unfoldable pub pool_create : Bool → Bool → ℕ → ℕ → Option Pool
pool_create ok thread max_connections idle_timeout_ms =
    if ok
    then some (record {
      connections = [];
      max_connections = or_default max_connections 10;
      current_connections = 0;
      idle_timeout_ms = or_default idle_timeout_ms 30000;
      keepalive = record { interval_ms = 30000; timeout_ms = 10000; permit_without_calls = false };
      keepalive_running = thread;
    })
    else none

unfoldable pub set_keepalive : Pool → ℕ → ℕ → Bool → Pool
set_keepalive pool interval_ms timeout_ms permit = record pool {
  keepalive = record {
    interval_ms = or_default interval_ms 30000;
    timeout_ms = or_default timeout_ms 10000;
    permit_without_calls = permit;
  };
}

-- elapsed * 1000 >= limit, for the seconds since a time.
abbrev pub is_due : ℤ → ℤ → ℕ → Bool
is_due now since limit = not (ltb_ℤ ((now -ℤ since) *ℤ pos 1000) (pos limit))

-- The PING that the comment in the source announces is not sent.
unfoldable pub tick_ping : KeepaliveConfig → ℤ → PooledConnection → PooledConnection
tick_ping config now conn =
    if is_due now conn.last_keepalive config.interval_ms
      && (conn.is_healthy && (config.permit_without_calls || ltb 0 conn.active_calls))
    then record conn { last_keepalive = now }
    else conn

unfoldable pub tick_idle : ℕ → ℤ → PooledConnection → PooledConnection
tick_idle idle_timeout_ms now conn =
    if (conn.active_calls == 0 && ltb 0 idle_timeout_ms)
      && is_due now conn.last_used idle_timeout_ms
    then record conn { is_healthy = false }
    else conn

unfoldable pub tick_all : Pool → ℤ → List Node → Run (List Node)
unfolding tick_ping tick_idle
tick_all pool now [] = returns []
tick_all pool now (freed ∷ rest) = fault
tick_all pool now (live conn ∷ rest) = tick_all pool now rest >>= λ rest'.
    returns (live (tick_idle pool.idle_timeout_ms now (tick_ping pool.keepalive now conn)) ∷ rest')

-- One round of the keep-alive thread, under the lock.
unfoldable pub keepalive_tick : ℤ → Pool → Run Pool
unfolding tick_all
keepalive_tick now pool = tick_all pool now pool.connections >>= λ connections.
    returns (record pool { connections = connections })

-- The search for a healthy connection to the target.
unfoldable pub reuse : ℤ → List ℕ → List Node → Run (Option (List Node × ℕ))
reuse now target [] = returns none
reuse now target (freed ∷ rest) = fault
reuse now target (live conn ∷ rest) =
    let others = reuse now target rest in
    if conn.is_healthy && same_string conn.target target
    then returns (
        some (
          live (record conn { last_used = now; active_calls = conn.active_calls + 1 }) ∷ rest,
          conn.connection,
        ))
    else (others >>= λ found. elim found [
      | none ↦ returns none
      | some (rest', connection) ↦ returns (some (live conn ∷ rest', connection))
    ])

-- The oldest idle connection: its place and its idle time, starting from the best found so far.
-- The k-th call of time() in the walk gives `clock k`.
unfoldable pub oldest_idle : (ℕ → ℤ) → ℕ → ℕ → Option ℕ → ℤ → List Node → Run (Option ℕ)
oldest_idle clock k i oldest oldest_time [] = returns oldest
oldest_idle clock k i oldest oldest_time (freed ∷ rest) = fault
oldest_idle clock k i oldest oldest_time (live conn ∷ rest) =
    let idle = clock k -ℤ conn.last_used in
    let taken = oldest_idle clock (k + 1) (i + 1) (some i) idle rest in
    let passed = oldest_idle clock (k + 1) (i + 1) oldest oldest_time rest in
    let busy = oldest_idle clock k (i + 1) oldest oldest_time rest in
    if conn.active_calls == 0
    then (elim oldest [ none ↦ taken | some j ↦ if ltb_ℤ oldest_time idle then taken else passed ])
    else busy

-- grpc_pooled_connection_destroy at a place of the list. It is not unlinked.
unfoldable pub destroy_at : (ℕ → Connection) → ℕ → List Node → Run (List Node)
destroy_at heap i [] = fault
destroy_at heap i (freed ∷ rest) = elim i [
  | zero ↦ fault
  | suc j ↦ (destroy_at heap j rest >>= λ rest'. returns (freed ∷ rest'))
]
destroy_at heap zero (live conn ∷ rest) =
    connection_destroy (heap conn.connection) >>= λ c. returns (freed ∷ rest)
destroy_at heap (suc i) (live conn ∷ rest) =
    destroy_at heap i rest >>= λ rest'. returns (live conn ∷ rest')

-- The slot for a new connection: `none` if the pool is full and every connection is in use.
unfoldable pub make_room : (ℕ → Connection) → (ℕ → ℤ) → Pool → Run (Option Pool)
unfolding oldest_idle destroy_at
make_room heap clock pool =
    if leb pool.max_connections pool.current_connections
    then (oldest_idle clock 0 0 none (pos 0) pool.connections >>= λ oldest. elim oldest [
      | none ↦ returns none
      | some i ↦
          (destroy_at heap i pool.connections >>= λ connections. returns (
            some (record pool {
              connections = connections;
              current_connections = pool.current_connections - 1;
            })))
    ])
    else returns (some pool)

-- The heap requests are for the pooled connection and its target.
unfoldable pub pooled_create : Alloc → ℕ → List ℕ → ℕ → ℤ → ℤ → Option PooledConnection
pooled_create alloc k target connection used kept =
    if alloc k && alloc (k + 1)
    then some (record {
      target = target;
      connection = connection;
      last_used = used;
      last_keepalive = kept;
      active_calls = 0;
      is_healthy = true;
    })
    else none

-- The new connection at `address`, linked in at the front with one active call. The heap requests
-- are two for the connection, from `k` on, and two for its place in the pool.
unfoldable pub link_new : Alloc → ℕ → ℕ → ℤ → ℤ → List ℕ → Pool → Run (Pool × Option ℕ)
unfolding connection_create pooled_create
link_new alloc k address used kept target pool = elim (connection_create alloc k true) [
  | none ↦ returns (pool, none)
  | some made ↦ elim (pooled_create alloc (k + 2) target address used kept) [
    | none ↦ (connection_destroy made >>= λ c. returns (pool, none))
    | some conn ↦ returns (
      record pool {
        connections =
            live (record conn { active_calls = conn.active_calls + 1 }) ∷ pool.connections;
        current_connections = pool.current_connections + 1;
      },
      some address,
    )
  ]
]

-- grpc_connection_pool_get for a target that is not NULL. The walk for an idle connection calls
-- time() at most once for each connection.
unfoldable pub get :
    (ℕ → Connection) → (ℕ → ℤ) → Alloc → ℕ → ℕ → Pool → List ℕ → Run (Pool × Option ℕ)
unfolding reuse make_room link_new
get heap clock alloc k address pool target = reuse (clock 0) target pool.connections >>= λ found.
    elim found [
      | some (connections, connection) ↦
          returns (record pool { connections = connections }, some connection)
      | none ↦
          (make_room heap clock pool >>= λ room. elim room [
            | none ↦ returns (pool, none)
            | some pool' ↦
                let n = length pool.connections in
                link_new alloc k address (clock n) (clock (n + 1)) target pool'
          ])
    ]

unfoldable pub give_back : ℤ → List ℕ → ℕ → List Node → Run (Option (List Node))
give_back now target connection [] = returns none
give_back now target connection (freed ∷ rest) = fault
give_back now target connection (live conn ∷ rest) =
    let others = give_back now target connection rest in
    if conn.connection == connection && same_string conn.target target
    then returns
        (some (live (record conn { last_used = now; active_calls = conn.active_calls - 1 }) ∷ rest))
    else (others >>= λ found. elim found [
      | none ↦ returns none
      | some rest' ↦ returns (some (live conn ∷ rest'))
    ])

-- grpc_connection_pool_return: the calls of a connection that has none stay at none.
unfoldable pub return_connection : ℤ → Pool → List ℕ → ℕ → Run (Pool × Status)
unfolding give_back
return_connection now pool target connection =
    give_back now target connection pool.connections >>= λ found. elim found [
      | none ↦ returns (pool, failure)
      | some connections ↦ returns (record pool { connections = connections }, success)
    ]

-- The connections that are kept, and how many were destroyed.
unfoldable pub sweep : (ℕ → Connection) → List Node → Run (List Node × ℕ)
sweep heap [] = returns ([], 0)
sweep heap (freed ∷ rest) = fault
sweep heap (live conn ∷ rest) =
    let others = sweep heap rest in
    if conn.active_calls == 0 && not conn.is_healthy
    then (connection_destroy (heap conn.connection) >>= λ c.
        (others >>= λ r. returns (r.0, r.1 + 1)))
    else (others >>= λ r. returns (live conn ∷ r.0, r.1))

unfoldable pub cleanup_idle : (ℕ → Connection) → Pool → Run Pool
unfolding sweep
cleanup_idle heap pool = sweep heap pool.connections >>= λ r.
    returns
      (record pool { connections = r.0; current_connections = pool.current_connections - r.1 })
