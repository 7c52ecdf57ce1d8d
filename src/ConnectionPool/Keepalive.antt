-- ===== src/ConnectionPool/Keepalive.antt =====
-- A round of the keep-alive thread (connection_pool.c) and the cleanup that follows it.
use grpc_c.Common.{
  length-map, ℕ, ◌≡◌, refl, ◌⊎◌, arith, false, List, [], ◌∷◌, map, All, ◌==◌, if◌then◌else◌,
}
use grpc_c.Common.Int.{ℤ}
use grpc_c.Transport.{Connection, returns}
use grpc_c.ConnectionPool.{
  PooledConnection, live, Pool, cleanup_idle, tick_all, keepalive_tick, tick_ping, tick_idle,
}
use grpc_c.ConnectionPool.Laws.{IsValid, cleanup_idle-staying, IsQuiet, staying, is_dead}

-- What a round does to one connection.
abbrev pub ticked : Pool → ℤ → PooledConnection → PooledConnection
ticked p now c = tick_idle p.idle_timeout_ms now (tick_ping p.keepalive now c)

tick_all-map :
    (p : Pool) (now : ℤ) (conns : List PooledConnection)
    → tick_all p now (map live conns) ≡ returns (map live (map (ticked p now) conns))
unfolding tick_all
tick_all-map p now [] = refl
tick_all-map p now (c ∷ cs) = ground (arith, tick_all-map p now cs)

-- The connections on which a call is in progress.
unfoldable pub in_use : List PooledConnection → List PooledConnection
in_use [] = []
in_use (c ∷ cs) = let rest = in_use cs in if c.active_calls == 0 then rest else c ∷ rest

ticked_calls :
    (p : Pool) (now : ℤ) (c : PooledConnection) → (ticked p now c).active_calls ≡ c.active_calls
unfolding tick_idle tick_ping
ticked_calls p now c = ground arith

in_use-staying :
    (p : Pool) (now : ℤ) (conns : List PooledConnection)
    → in_use (staying (map (ticked p now) conns)) ≡ map (ticked p now) (in_use conns)
unfolding in_use staying
in_use-staying p now [] = refl
in_use-staying p now (c ∷ cs) = ground (arith, in_use-staying p now cs, ticked_calls p now c)

-- A round of the keep-alive thread on a valid pool, and then a cleanup in which the connections
-- that the round leaves idle and unhealthy can be destroyed, give a valid pool. Every connection
-- in use is still linked, in the same order, changed by the round alone.
pub keepalive_cleanup_keeps :
    (heap : ℕ → Connection) (p : Pool) (now : ℤ) (conns : List PooledConnection)
    → IsValid p conns
    → All (λ c. (is_dead c ≡ false) ⊎ IsQuiet (heap c.connection)) (map (ticked p now) conns)
    → (p' p'' : Pool) × (left : List PooledConnection) × (keepalive_tick now p ≡ returns p')
      × (cleanup_idle heap p' ≡ returns p'')
      × IsValid p'' left
      × (in_use left ≡ map (ticked p now) (in_use conns))
unfolding keepalive_tick
keepalive_cleanup_keeps heap p now conns v quiet =
    let p' : Pool = record p { connections = map live (map (ticked p now) conns) } in
    let v' : IsValid p' (map (ticked p now) conns) = record {
      linked = refl;
      counted = omega (arith, v.counted, length-map (ticked p now) conns);
      limited = omega (arith, v.limited, length-map (ticked p now) conns);
    } in
    let (p'', cleaned, v'') = cleanup_idle-staying heap p' (map (ticked p now) conns) v' quiet in
    (
      p',
      p'',
      staying (map (ticked p now) conns),
      ground (arith, v.linked, tick_all-map p now conns),
      cleaned,
      v'',
      in_use-staying p now conns,
    )
