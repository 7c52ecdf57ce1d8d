-- ===== src/ConnectionPool/Returns.antt =====
-- The calls in progress over grpc_connection_pool_return (connection_pool.c).
use grpc_c.Common.{
  ℕ, ◌+◌, ◌-◌, ◌≡◌, refl, ◌⊎◌, arith, ◌&&◌, none, some, List, [], ◌∷◌, map, length, Bool-cases,
  ◌==◌, inl, inr,
}
use grpc_c.Common.Int.{ℤ}
use grpc_c.Common.Memory.{same_string}
use grpc_c.Common.Fallible.{Status, success, failure}
use grpc_c.Transport.{returns}
use grpc_c.ConnectionPool.{PooledConnection, live, Pool, give_back, return_connection}
use grpc_c.ConnectionPool.Laws.{IsValid, calls}
use grpc_c.ConnectionPool.Calls.{Lent}

give_back_cases :
    (now : ℤ) (target : List ℕ) (connection : ℕ) (conns : List PooledConnection)
    → ((give_back now target connection (map live conns) ≡ returns none)
        × (Lent target connection conns → ⊥))
      ⊎ ((conns' : List PooledConnection) × (give_back now target connection (map live conns)
            ≡ returns (some (map live conns')))
          × (length conns' ≡ length conns)
          × ((calls conns' ≡ calls conns) ⊎ (calls conns' + 1 ≡ calls conns)))
unfolding give_back calls Lent
give_back_cases now target connection [] = inl (refl, λ x. x)
give_back_cases now target connection (c ∷ cs) =
    elim (Bool-cases (c.connection == connection && same_string c.target target)) [
      | inl mine ↦
          let c' : PooledConnection = record c {
            last_used = now;
            active_calls = c.active_calls - 1;
          } in
          inr (c' ∷ cs, ground (arith, mine), ground arith, ground arith)
      | inr other ↦ elim (give_back_cases now target connection cs) [
        | inl (nothing, not_lent) ↦ inl (
          ground (arith, other, nothing),
          λ lent. elim lent [
            | inl ((same, serving), busy) ↦ ground (arith, other, same, serving)
            | inr later ↦ not_lent later
          ],
        )
        | inr (conns', found, same, less) ↦ inr (
          c ∷ conns',
          ground (arith, other, found),
          ground (arith, same),
          elim less [ inl h ↦ inl (ground (arith, h)) | inr h ↦ inr (ground (arith, h)) ],
        )
      ]
    ]

-- A return to a valid pool gives a valid pool with as many connections, and ends at most one call.
-- It fails only for a connection that is not lent for the target, and then changes nothing.
pub return_connection_effect :
    (now : ℤ) (p : Pool) (conns : List PooledConnection) (target : List ℕ) (connection : ℕ)
    → IsValid p conns
    → (p' : Pool) × (status : Status) × (conns' : List PooledConnection) × (return_connection now p
          target connection
        ≡ returns (p', status))
      × IsValid p' conns'
      × (length conns' ≡ length conns)
      × (((status ≡ failure) × (p' ≡ p) × (Lent target connection conns → ⊥))
          ⊎ ((status ≡ success)
              × ((calls conns' ≡ calls conns) ⊎ (calls conns' + 1 ≡ calls conns))))
unfolding return_connection
return_connection_effect now p conns target connection v =
    elim (give_back_cases now target connection conns) [
      | inl (nothing, not_lent) ↦ (
        p,
        failure,
        conns,
        ground (arith, v.linked, nothing),
        v,
        refl,
        inl (refl, refl, not_lent),
      )
      | inr (conns', found, same, less) ↦
          let p' : Pool = record p { connections = map live conns' } in
          let v' : IsValid p' conns' = record {
            linked = refl;
            counted = omega (arith, v.counted, same);
            limited = omega (arith, v.limited, same);
          } in
          (p', success, conns', ground (arith, v.linked, found), v', same, inr (refl, less))
    ]
