-- ===== src/LoadBalancing/Tests.antt =====
-- A policy with three addresses of load_balancing.c, one of them unavailable.
use grpc_c.Common.{
  ℕ, ◌+◌, ◌%◌, ◌≡◌, refl, arith, Bool, true, false, some, List, [], ◌∷◌, get_elem?, inl,
}
use grpc_c.LoadBalancing.{Address, Policy, PolicyType, round_robin, round_robin_pick, weighted}
use grpc_c.LoadBalancing.RoundRobin.{IsValid}
use grpc_c.LoadBalancing.Fairness.{picked, round_robin_pick_fair}

abbrev host : ℕ → Bool → Address
host name available = record { address = name ∷ []; weight = name; is_available = available }

abbrev with_hosts : PolicyType → List Address → ℕ → Policy
with_hosts kind hosts index = record {
  kind = kind;
  addresses = hosts;
  address_count = 3;
  current_index = index;
}

abbrev hosts : List Address
hosts = host 7 true ∷ host 8 false ∷ host 9 true ∷ []

abbrev all_up : List Address
all_up = host 7 true ∷ host 8 true ∷ host 9 true ∷ []

abbrev pool : Policy
pool = with_hosts round_robin hosts 1

abbrev pool-IsValid : IsValid pool
pool-IsValid = record { counted = refl; indexed = inl (omega arith) }

-- The unavailable address in the middle is left out.
round_robin_pick_skips : round_robin_pick pool ≡ (record pool { current_index = 2 }, some (9 ∷ []))
unfolding round_robin_pick
round_robin_pick_skips = refl

abbrev busy : Policy
busy = with_hosts round_robin all_up 2

round_robin_pick_fair_example :
    (a : Address) × (get_elem? all_up ((2 + 5) % 3) ≡ some a)
    × (round_robin_pick (picked 5 busy)
        ≡ (record busy { current_index = (2 + (5 + 1)) % 3 }, some a.address))
round_robin_pick_fair_example =
    round_robin_pick_fair busy 5 (record { counted = refl; indexed = inl (omega arith) })
      (refl, (refl, (refl, tt))) (omega arith)

abbrev shares : Policy
shares = with_hosts weighted hosts 0
