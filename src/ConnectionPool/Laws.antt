-- ===== src/ConnectionPool/Laws.antt =====
-- A pool in which no freed connection is linked (connection_pool.c): what the operations do to it.
use grpc_c.Common.{
  ℕ, ◌+◌, ◌-◌, ◌≤◌, ◌≡◌, refl, ap, ◌∙◌, ◌⊎◌, arith, Bool, false, not, ◌&&◌, List, [], ◌∷◌, map,
  length, All, Bool-cases, ◌==◌, if◌then◌else◌, inl, inr,
}
use grpc_c.Transport.{Connection, Run, returns, ◌>>=◌}
use grpc_c.Streams.{connection_destroy}
use grpc_c.Streams.Laws.{connection_destroy_ends}
use grpc_c.ConnectionPool.{PooledConnection, Node, live, Pool, sweep, cleanup_idle}

-- The linked connections are `conns`, none of them freed; the count is right and within the limit.
pub record IsValid (p : Pool) (conns : List PooledConnection) : Type 0 where
  pub linked : p.connections ≡ map live conns
  pub counted : p.current_connections ≡ length conns
  pub limited : length conns ≤ p.max_connections

-- The calls in progress on all the connections.
unfoldable pub calls : List PooledConnection → ℕ
calls [] = 0
calls (c ∷ cs) = c.active_calls + calls cs

-- Nothing holds the connection's lock, and it has no stream, so that it can be destroyed.
abbrev pub IsQuiet : Connection → Type 0
IsQuiet c = (c.streams_mutex ≡ false) × (c.streams ≡ [])

pub quiet_destroy : (c : Connection) → IsQuiet c → connection_destroy c ≡ returns c
quiet_destroy c (free, none_left) = ground (arith, connection_destroy_ends c free, none_left)

-- The connections that a cleanup keeps.
abbrev pub is_dead : PooledConnection → Bool
is_dead c = c.active_calls == 0 && not c.is_healthy

unfoldable pub staying : List PooledConnection → List PooledConnection
staying [] = []
staying (c ∷ cs) = let rest = staying cs in if is_dead c then rest else c ∷ rest

sweep-staying :
    (heap : ℕ → Connection) (conns : List PooledConnection)
    → All (λ c. (is_dead c ≡ false) ⊎ IsQuiet (heap c.connection)) conns
    → sweep heap (map live conns)
        ≡ returns (map live (staying conns), length conns - length (staying conns))
      × (length (staying conns) ≤ length conns)
unfolding sweep staying
sweep-staying heap [] quiet = (ground arith, ground arith)
sweep-staying heap (c ∷ cs) (here, quiet) =
    let (rest, less) = sweep-staying heap cs quiet in
    elim (Bool-cases (is_dead c)) [
      | inl dead ↦ elim here [
        | inl alive ↦ absurd (ground (arith, dead, alive))
        | inr still ↦ (
          ground (arith, dead, quiet_destroy (heap c.connection) still, rest, less),
          ground (arith, dead, less),
        )
      ]
      | inr alive ↦ (ground (arith, alive, rest, less), ground (arith, alive, less))
    ]

-- A cleanup of a valid pool, whose connections that are idle and unhealthy can be destroyed, removes
-- those and keeps the others in their order; the pool is valid after it.
pub cleanup_idle-staying :
    (heap : ℕ → Connection) (p : Pool) (conns : List PooledConnection)
    → IsValid p conns
    → All (λ c. (is_dead c ≡ false) ⊎ IsQuiet (heap c.connection)) conns
    → (p' : Pool) × (cleanup_idle heap p ≡ returns p') × IsValid p' (staying conns)
unfolding cleanup_idle
cleanup_idle-staying heap p conns v quiet =
    let (swept, less) = sweep-staying heap conns quiet in
    let kept : Pool = record p {
      connections = map live (staying conns);
      current_connections = p.current_connections - (length conns - length (staying conns));
    } in
    (
      kept,
      ap
            (λ (l : List Node). sweep heap l >>= λ r.
              returns
                (record p { connections = r.0; current_connections = p.current_connections - r.1 }))
            v.linked
          ∙ ap
              (λ (s : Run (List Node × ℕ)). s >>= λ r.
                returns (record p {
                  connections = r.0;
                  current_connections = p.current_connections - r.1;
                }))
              swept,
      record {
        linked = refl;
        counted = omega (arith, less, v.counted);
        limited = omega (arith, less, v.limited);
      },
    )
