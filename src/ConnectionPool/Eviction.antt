-- ===== src/ConnectionPool/Eviction.antt =====
-- A get from a full pool (connection_pool.c).
use grpc_c.Common.{
  ℕ, ◌≢◌, zero, suc, ◌+◌, ◌-◌, ◌≤◌, ◌<◌, ◌≡◌, refl, ap, ◌⊎◌, arith, true, false, ◌&&◌, Option, none,
  some, List, [], ◌∷◌, map, length, All, Option-cases, Bool-cases, ◌==◌, inl, inr,
}
use grpc_c.Common.Int.{ℤ, ◌-ℤ◌, ltb_ℤ, pos}
use grpc_c.Common.Memory.{Alloc}
use grpc_c.Transport.{Connection, returns, fault, bind_returns}
use grpc_c.Streams.{connection_create, connection_destroy}
use grpc_c.Streams.Laws.{connection_create_effect}
use grpc_c.ConnectionPool.{
  PooledConnection, Node, live, freed, Pool, reuse, link_new, make_room, get, oldest_idle,
  destroy_at, tick_all, keepalive_tick,
}
use grpc_c.ConnectionPool.Laws.{IsValid, IsQuiet, quiet_destroy}
use grpc_c.ConnectionPool.Calls.{serves}
use grpc_c.ConnectionPool.Destroy.{destroy_nodes, pool_destroy}

-- A freed connection that is still linked.
unfoldable pub Dangles : List Node → Type 0
Dangles [] = ⊥
Dangles (freed ∷ rest) = Unit {0}
Dangles (live c ∷ rest) = Dangles rest

-- The next round of the keep-alive thread walks over it.
tick_all-Dangles :
    (p : Pool) (now : ℤ) (nodes : List Node) → Dangles nodes → tick_all p now nodes ≡ fault
unfolding tick_all Dangles
tick_all-Dangles p now [] d = absurd d
tick_all-Dangles p now (freed ∷ rest) d = refl
tick_all-Dangles p now (live c ∷ rest) d = ground (arith, tick_all-Dangles p now rest d)

destroy_nodes-Dangles :
    (heap : ℕ → Connection) (nodes : List Node)
    → Dangles nodes
    → destroy_nodes heap nodes ≢ returns tt
unfolding destroy_nodes Dangles
destroy_nodes-Dangles heap [] d e = d
destroy_nodes-Dangles heap (freed ∷ rest) d e = cc
destroy_nodes-Dangles heap (live c ∷ rest) d e =
    let (done, ran, next) =
      bind_returns {B = Unit {0}} (connection_destroy (heap c.connection))
        (λ x. destroy_nodes heap rest) tt e in
    destroy_nodes-Dangles heap rest d next

-- The destruction of the pool walks over it too, if it comes so far.
pool_destroy-Dangles :
    (heap : ℕ → Connection) (p : Pool) → Dangles p.connections → pool_destroy heap p ≢ returns tt
unfolding pool_destroy
pool_destroy-Dangles heap p d e = elim (Bool-cases p.keepalive_running) [
  | inl running ↦ destroy_nodes-Dangles heap p.connections d (ground (arith, running, e))
  | inr stopped ↦ ground (arith, stopped, e)
]

-- The walk gives the best so far, and if there is none every connection is in use; or it gives a
-- place in the list.
abbrev Oldest : (ℕ → ℤ) → ℕ → ℕ → Option ℕ → ℤ → List PooledConnection → Type 0
Oldest clock k i oldest oldest_time conns =
    ((oldest_idle clock k i oldest oldest_time (map live conns) ≡ returns oldest)
      × (oldest ≡ none → All (λ c. 0 < c.active_calls) conns))
    ⊎ ((j : ℕ) × (j < length conns)
        × (oldest_idle clock k i oldest oldest_time (map live conns) ≡ returns (some (i + j))))

Oldest-cases :
    (clock : ℕ → ℤ) (k i : ℕ) (oldest : Option ℕ) (oldest_time : ℤ) (conns : List PooledConnection)
    → Oldest clock k i oldest oldest_time conns
unfolding oldest_idle
Oldest-cases clock k i oldest oldest_time [] = inl (refl, λ h. tt)
Oldest-cases clock k i oldest oldest_time (c ∷ cs) =
    let idle : ℤ = clock k -ℤ c.last_used in
    let moved : (j : ℕ) → some (i + 1 + j) ≡ some (i + (j + 1)) = λ j. ap some (omega arith) in
    let at_first : some i ≡ some (i + 0) = ap some (omega arith) in
    let take_it : Oldest clock (k + 1) (i + 1) (some i) idle cs =
      Oldest-cases clock (k + 1) (i + 1) (some i) idle cs in
    elim (Bool-cases (c.active_calls == 0)) [
      | inr busy ↦ elim (Oldest-cases clock k (i + 1) oldest oldest_time cs) [
        | inl (same, all_busy) ↦
            inl (ground (arith, busy, same), λ h. (ground (arith, busy), all_busy h))
        | inr (j, within, found) ↦ inr (j + 1, omega arith, ground (arith, busy, found, moved j))
      ]
      | inl free ↦ elim (Option-cases oldest) [
        | inl nothing ↦ elim take_it [
          | inl (same, h) ↦ inr (0, omega arith, ground (arith, free, nothing, same, at_first))
          | inr (j, within, found) ↦
              inr (j + 1, omega arith, ground (arith, free, nothing, found, moved j))
        ]
        | inr (o, so_far) ↦ elim (Bool-cases (ltb_ℤ oldest_time idle)) [
          | inl older ↦ elim take_it [
            | inl (same, h) ↦
                inr (0, omega arith, ground (arith, free, so_far, older, same, at_first))
            | inr (j, within, found) ↦
                inr (j + 1, omega arith, ground (arith, free, so_far, older, found, moved j))
          ]
          | inr younger ↦ elim (Oldest-cases clock (k + 1) (i + 1) oldest oldest_time cs) [
            | inl (same, h) ↦ inl (
              ground (arith, free, so_far, younger, same),
              λ e. absurd (ground (arith, e, so_far)),
            )
            | inr (j, within, found) ↦
                inr (j + 1, omega arith, ground (arith, free, so_far, younger, found, moved j))
          ]
        ]
      ]
    ]

destroy_at-Dangles :
    (heap : ℕ → Connection) (j : ℕ) (conns : List PooledConnection)
    → j < length conns
    → All (λ c. IsQuiet (heap c.connection)) conns
    → (nodes : List Node) × (destroy_at heap j (map live conns) ≡ returns nodes) × Dangles nodes
unfolding destroy_at Dangles
destroy_at-Dangles heap j [] bound quiet = absurd (omega arith)
destroy_at-Dangles heap zero (c ∷ cs) bound (here, quiet) =
    (freed ∷ map live cs, ground (arith, quiet_destroy (heap c.connection) here), tt)
destroy_at-Dangles heap (suc j) (c ∷ cs) bound (here, quiet) =
    let (nodes, gone, d) = destroy_at-Dangles heap j cs (omega arith) quiet in
    (live c ∷ nodes, ground (arith, gone), d)

reuse-none :
    (now : ℤ) (target : List ℕ) (conns : List PooledConnection)
    → All (λ c. serves target c ≡ false) conns
    → reuse now target (map live conns) ≡ returns none
unfolding reuse
reuse-none now target [] h = refl
reuse-none now target (c ∷ cs) (other, h) = ground (arith, other, reuse-none now target cs h)

link_new-Dangles :
    (alloc : Alloc) (k address : ℕ) (used kept : ℤ) (target : List ℕ) (p : Pool)
    → Dangles p.connections
    → (p' : Pool) × (result : Option ℕ) × (link_new alloc k address used kept target p
        ≡ returns (p', result))
      × Dangles p'.connections
unfolding link_new Dangles
link_new-Dangles alloc k address used kept target p d =
    elim (Option-cases (connection_create alloc k true)) [
      | inl failed ↦ (p, none, ground (arith, failed), d)
      | inr (made, created) ↦ elim (Bool-cases (alloc (k + 2) && alloc (k + 3))) [
        | inr refused ↦
            let facts = connection_create_effect alloc k true made created in
            (
              p,
              none,
              ground (arith, created, refused, quiet_destroy made (facts.0.unlocked, facts.1)),
              d,
            )
        | inl both ↦
            let p' : Pool = record p {
              connections =
                  live (record {
                    target = target;
                    connection = address;
                    last_used = used;
                    last_keepalive = kept;
                    active_calls = 1;
                    is_healthy = true;
                  })
                  ∷ p.connections;
              current_connections = p.current_connections + 1;
            } in
            (p', some address, ground (arith, created, both), d)
      ]
    ]

-- On a valid pool that is full, with an idle connection, no healthy connection to the target, and
-- connections that can all be destroyed, a get destroys a connection that stays linked: it
-- returns, and the next round of the keep-alive thread walks over freed memory; the destruction of
-- the pool cannot return either.
pub get_full_dangles :
    (heap : ℕ → Connection) (clock : ℕ → ℤ) (alloc : Alloc) (k address : ℕ) (p : Pool)
    (conns : List PooledConnection) (target : List ℕ) (now : ℤ)
    → IsValid p conns
    → p.max_connections ≤ length conns
    → All (λ c. serves target c ≡ false) conns
    → (All (λ c. 0 < c.active_calls) conns → ⊥)
    → All (λ c. IsQuiet (heap c.connection)) conns
    → (p' : Pool) × (result : Option ℕ) × (get heap clock alloc k address p target
        ≡ returns (p', result))
      × (keepalive_tick now p' ≡ fault)
      × (pool_destroy heap p' ≢ returns tt)
unfolding get make_room keepalive_tick
get_full_dangles heap clock alloc k address p conns target now v full others idle quiet =
    elim (Oldest-cases clock 0 0 none (pos 0) conns) [
      | inl (nothing, all_busy) ↦ absurd (idle (all_busy refl))
      | inr (j, within, oldest) ↦
          let (nodes, gone, d) = destroy_at-Dangles heap j conns within quiet in
          let q : Pool = record p {
            connections = nodes;
            current_connections = p.current_connections - 1;
          } in
          let n : ℕ = length p.connections in
          let (p', result, linked, still) =
            link_new-Dangles alloc k address (clock n) (clock (n + 1)) target q d in
          let at_j : some (0 + j) ≡ some j = ap some (omega arith) in
          (
            p',
            result,
            ground (
              arith,
              v.linked,
              v.counted,
              reuse-none (clock 0) target conns others,
              oldest,
              at_j,
              gone,
              linked,
            ),
            ground (arith, tick_all-Dangles p' now p'.connections still),
            pool_destroy-Dangles heap p' still,
          )
    ]
