-- ===== src/ConnectionPool/Calls.antt =====
-- The calls in progress over grpc_connection_pool_get (connection_pool.c).
use grpc_c.Common.{
  ℕ, ◌+◌, ◌<◌, ◌≡◌, refl, ap, ◌⊎◌, arith, Bool, true, false, ◌&&◌, Option, none, some, List, [],
  ◌∷◌, map, length, All, Option-cases, Bool-cases, inl, inr,
}
use grpc_c.Common.Int.{ℤ}
use grpc_c.Common.Memory.{Alloc, same_string, same_string_refl}
use grpc_c.Transport.{Connection, returns}
use grpc_c.Streams.{connection_create}
use grpc_c.Streams.Laws.{connection_create_effect}
use grpc_c.ConnectionPool.{PooledConnection, live, Pool, reuse, link_new, get}
use grpc_c.ConnectionPool.Laws.{IsValid, calls, quiet_destroy}

-- A connection that a call for the target may use.
abbrev pub serves : List ℕ → PooledConnection → Bool
serves target c = c.is_healthy && same_string c.target target

-- Some connection of the list is the one, and a call is in progress on it.
unfoldable pub Lent : List ℕ → ℕ → List PooledConnection → Type 0
Lent target connection [] = ⊥
Lent target connection (c ∷ cs) =
    (((c.connection ≡ connection) × (serves target c ≡ true)) × (0 < c.active_calls))
    ⊎ Lent target connection cs

-- What the search for a connection finds.
abbrev Reused : ℤ → List ℕ → List PooledConnection → Type 0
Reused now target conns =
    ((reuse now target (map live conns) ≡ returns none) × All (λ c. serves target c ≡ false) conns)
    ⊎ ((conns' : List PooledConnection) × (connection : ℕ) × (reuse now target (map live conns)
          ≡ returns (some (map live conns', connection)))
        × (length conns' ≡ length conns)
        × (calls conns' ≡ calls conns + 1)
        × Lent target connection conns')

reuse_cases : (now : ℤ) (target : List ℕ) (conns : List PooledConnection) → Reused now target conns
unfolding reuse calls Lent
reuse_cases now target [] = inl (refl, tt)
reuse_cases now target (c ∷ cs) = elim (Bool-cases (serves target c)) [
  | inl serving ↦
      let c' : PooledConnection = record c { last_used = now; active_calls = c.active_calls + 1 } in
      inr (
        c' ∷ cs,
        c.connection,
        ground (arith, serving),
        ground arith,
        ground arith,
        inl ((refl, serving), ground arith),
      )
  | inr other ↦ elim (reuse_cases now target cs) [
    | inl (nothing, none_serves) ↦ inl (ground (arith, other, nothing), (other, none_serves))
    | inr (conns', connection, found, same, more, lent) ↦ inr (
      c ∷ conns',
      connection,
      ground (arith, other, found),
      ground (arith, same),
      ground (arith, more),
      inr lent,
    )
  ]
]

-- What a call gets from a pool whose connections are `conns`: the pool after it, the connection or
-- none, and the connections after it.
pub Got :
    (ℕ → Connection) → (ℕ → ℤ) → Alloc → ℕ → ℕ → Pool → List PooledConnection → List ℕ → Type 0
Got heap clock alloc k address p conns target =
    (p' : Pool) × (result : Option ℕ) × (conns' : List PooledConnection) × (get heap clock alloc k
        address p target
      ≡ returns (p', result))
    × IsValid p' conns'
    × (((result ≡ none) × (p' ≡ p) × (conns' ≡ conns))
        ⊎ ((connection : ℕ) × (result ≡ some connection)
            × (calls conns' ≡ calls conns + 1)
            × Lent target connection conns'))

get_reused :
    (heap : ℕ → Connection) (clock : ℕ → ℤ) (alloc : Alloc) (k address : ℕ) (p : Pool)
    (conns : List PooledConnection) (target : List ℕ) (conns' : List PooledConnection)
    (connection : ℕ)
    → IsValid p conns
    → reuse (clock 0) target (map live conns) ≡ returns (some (map live conns', connection))
    → length conns' ≡ length conns
    → calls conns' ≡ calls conns + 1
    → Lent target connection conns'
    → Got heap clock alloc k address p conns target
unfolding get Got
get_reused heap clock alloc k address p conns target conns' connection v found same more lent =
    let p' : Pool = record p { connections = map live conns' } in
    let v' : IsValid p' conns' = record {
      linked = refl;
      counted = omega (arith, v.counted, same);
      limited = omega (arith, v.limited, same);
    } in
    (
      p',
      some connection,
      conns',
      ground (arith, found, v.linked),
      v',
      inr (connection, refl, more, lent),
    )

-- Linking a new connection in, or not.
link_new_cases :
    (alloc : Alloc) (k address : ℕ) (used kept : ℤ) (target : List ℕ) (p : Pool)
    (conns : List PooledConnection)
    → IsValid p conns
    → length conns < p.max_connections
    → (p' : Pool) × (result : Option ℕ) × (conns' : List PooledConnection) × (link_new alloc k
          address used kept target p
        ≡ returns (p', result))
      × IsValid p' conns'
      × (((result ≡ none) × (p' ≡ p) × (conns' ≡ conns))
          ⊎ ((connection : ℕ) × (result ≡ some connection)
              × (calls conns' ≡ calls conns + 1)
              × Lent target connection conns'))
unfolding link_new calls Lent
link_new_cases alloc k address used kept target p conns v space =
    elim (Option-cases (connection_create alloc k true)) [
      | inl failed ↦ (p, none, conns, ground (arith, failed), v, inl (refl, refl, refl))
      | inr (made, created) ↦ elim (Bool-cases (alloc (k + 2) && alloc (k + 3))) [
        | inr refused ↦
            let fresh : made.streams ≡ [] =
              (connection_create_effect alloc k true made created).1 in
            let unlocked : made.streams_mutex ≡ false =
              (connection_create_effect alloc k true made created).0.unlocked in
            (
              p,
              none,
              conns,
              ground (arith, created, refused, quiet_destroy made (unlocked, fresh)),
              v,
              inl (refl, refl, refl),
            )
        | inl both ↦
            let c : PooledConnection = record {
              target = target;
              connection = address;
              last_used = used;
              last_keepalive = kept;
              active_calls = 1;
              is_healthy = true;
            } in
            let p' : Pool = record p {
              connections = live c ∷ p.connections;
              current_connections = p.current_connections + 1;
            } in
            let v' : IsValid p' (c ∷ conns) = record {
              linked = ap (◌∷◌ (live c)) v.linked;
              counted = omega (arith, v.counted);
              limited = omega (arith, space);
            } in
            (
              p',
              some address,
              c ∷ conns,
              ground (arith, created, both),
              v',
              inr (address, refl, ground arith, inl ((refl, same_string_refl target), omega arith)),
            )
      ]
    ]

-- With room in the pool.
get_new :
    (heap : ℕ → Connection) (clock : ℕ → ℤ) (alloc : Alloc) (k address : ℕ) (p : Pool)
    (conns : List PooledConnection) (target : List ℕ)
    → IsValid p conns
    → length conns < p.max_connections
    → reuse (clock 0) target (map live conns) ≡ returns none
    → Got heap clock alloc k address p conns target
unfolding get Got
get_new heap clock alloc k address p conns target v space nothing =
    let n : ℕ = length p.connections in
    let (p', result, conns', linked, v', effect) =
      link_new_cases alloc k address (clock n) (clock (n + 1)) target p conns v space in
    (p', result, conns', ground (arith, nothing, v.linked, v.counted, linked), v', effect)

-- A get from a valid pool in which there is room, or a healthy connection to the target, returns.
-- Either it gives no connection and changes nothing, or the connection that it gives is linked
-- with the target, healthy and in use, and one more call is in progress. The pool is valid after
-- it.
pub get_lends :
    (heap : ℕ → Connection) (clock : ℕ → ℤ) (alloc : Alloc) (k address : ℕ) (p : Pool)
    (conns : List PooledConnection) (target : List ℕ)
    → IsValid p conns
    → (length conns < p.max_connections) ⊎ (All (λ c. serves target c ≡ false) conns → ⊥)
    → Got heap clock alloc k address p conns target
get_lends heap clock alloc k address p conns target v room =
    elim (reuse_cases (clock 0) target conns) [
      | inr (conns', connection, found, same, more, lent) ↦
          get_reused heap clock alloc k address p conns target conns' connection v found same more
            lent
      | inl (nothing, none_serves) ↦ elim room [
        | inl space ↦ get_new heap clock alloc k address p conns target v space nothing
        | inr serving ↦ absurd (serving none_serves)
      ]
    ]
