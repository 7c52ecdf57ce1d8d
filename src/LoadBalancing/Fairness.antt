-- ===== src/LoadBalancing/Fairness.antt =====
-- Picks in turn by grpc_lb_round_robin_pick (load_balancing.c).
use grpc_c.Common.{
  ℕ, zero, suc, ◌+◌, ◌%◌, ◌<◌, ◌≡◌, refl, ap, ◌∙◌, arith, true, Option, some, List, [], ◌∷◌, ◌++◌,
  length, take, drop, get_elem?, All, inl,
}
use native.Mathlib.Nat.{mod-add-mod, mod-eq_of_lt}
use grpc_c.LoadBalancing.RoundRobin.{IsValid, round_robin_pick-turn}
use grpc_c.LoadBalancing.{Policy, Address, first_available, advance, round_robin_pick}

-- The policy after k picks.
abbrev pub picked : ℕ → Policy → Policy
picked zero p = p
picked (suc k) p = (round_robin_pick (picked k p)).0

first_available-turn :
    (all more : List Address) (i : ℕ)
    → All (λ a. a.is_available ≡ true) all
    → i < length all
    → (a : Address) × (get_elem? all i ≡ some a)
      × (first_available (drop i all ++ more) ≡ some a.address)
unfolding first_available
first_available-turn [] more i h bound = absurd (omega arith)
first_available-turn (a ∷ all) more zero h bound = (a, refl, ground (arith, h.0))
first_available-turn (a ∷ all) more (suc i) h bound =
    first_available-turn all more i h.1 (omega arith)

abbrev moved_to : Policy → ℕ → Policy
moved_to p j = record p { current_index = j }

round_robin_pick-moved_to :
    (p : Policy) (j : ℕ)
    → p.address_count ≡ length p.addresses
    → All (λ a. a.is_available ≡ true) p.addresses
    → j < length p.addresses
    → (a : Address) × (get_elem? p.addresses j ≡ some a)
      × (round_robin_pick (moved_to p j)
          ≡ (moved_to p ((j + 1) % length p.addresses), some a.address))
unfolding advance
round_robin_pick-moved_to p j counted all_available bound =
    let (a, at_index, first) =
      first_available-turn p.addresses (take j p.addresses) j all_available bound in
    let v : IsValid (moved_to p j) = record { counted = counted; indexed = inl bound } in
    let step : round_robin_pick (moved_to p j) ≡ advance (moved_to p j) (some a.address) =
      round_robin_pick-turn (moved_to p j) v ∙ ap (advance (moved_to p j)) first in
    (a, at_index, step ∙ ap (λ (n : ℕ). (moved_to p ((j + 1) % n), some a.address)) counted)

picked-moved_to :
    (p : Policy) (k : ℕ)
    → IsValid p
    → All (λ a. a.is_available ≡ true) p.addresses
    → 0 < length p.addresses
    → picked k p ≡ moved_to p ((p.current_index + k) % length p.addresses)
picked-moved_to p zero v all_available some_left =
    let bound : p.current_index + 0 < length p.addresses = ground (arith, v.indexed) in
    let same : p.current_index ≡ (p.current_index + 0) % length p.addresses =
      omega (arith, mod-eq_of_lt bound) in
    ap (moved_to p) same
picked-moved_to p (suc k) v all_available some_left =
    let n : ℕ = length p.addresses in
    let j : ℕ = (p.current_index + k) % n in
    let (a, at_index, step) = round_robin_pick-moved_to p j v.counted all_available (omega arith) in
    let round : (j + 1) % n ≡ (p.current_index + suc k) % n =
      mod-add-mod (p.current_index + k) n 1 ∙ ap (λ (t : ℕ). t % n) (omega arith) in
    ap (λ (q : Policy). (round_robin_pick q).0) (picked-moved_to p k v all_available some_left)
    ∙ ap (λ (r : Policy × Option (List ℕ)). r.0) step
    ∙ ap (moved_to p) round

-- While every address of a valid policy is available and there is one, the picks take them in
-- turn: the pick that follows k others is the address k places after the index, cyclically.
pub round_robin_pick_fair :
    (p : Policy) (k : ℕ)
    → IsValid p
    → All (λ a. a.is_available ≡ true) p.addresses
    → 0 < length p.addresses
    → (a : Address) × (get_elem? p.addresses ((p.current_index + k) % length p.addresses) ≡ some a)
      × (round_robin_pick (picked k p) ≡ (
        record p { current_index = (p.current_index + (k + 1)) % length p.addresses },
        some a.address,
      ))
round_robin_pick_fair p k v all_available some_left =
    let n : ℕ = length p.addresses in
    let j : ℕ = (p.current_index + k) % n in
    let (a, at_index, step) = round_robin_pick-moved_to p j v.counted all_available (omega arith) in
    let round : (j + 1) % n ≡ (p.current_index + (k + 1)) % n =
      mod-add-mod (p.current_index + k) n 1 ∙ ap (λ (t : ℕ). t % n) (omega arith) in
    (
      a,
      at_index,
      ap round_robin_pick (picked-moved_to p k v all_available some_left)
          ∙ step
          ∙ ap (λ (t : ℕ). (moved_to p t, some a.address)) round,
    )
