-- ===== src/LoadBalancing/RoundRobin.antt =====
-- grpc_lb_round_robin_pick.
use grpc_c.Common.{
  ℕ, zero, suc, ◌+◌, ◌%◌, ◌≤◌, ◌<◌, ◌≡◌, refl, ap, sym, ◌∙◌, ◌⊎◌, arith, Bool, Option, none, some,
  List, [], ◌∷◌, ◌++◌, length, length-append, take, drop, length-drop, take-append_le,
  take-append_add, Option-cases, List-cases, Bool-cases, inl, inr,
}
use mathlib.Core.Path.{subst}
use grpc_c.Common.Memory.{Alloc}
use grpc_c.LoadBalancing.{
  Policy, Address, address_create, add_address, scan, first_available, advance, round_robin_pick,
  mark, set_available,
}

-- From a place in the list the walk sees the rest and then the list from its front.
scan-first_available :
    (all : List Address) (tries : ℕ) (rest : List Address)
    → 0 < length all
    → 0 < length rest
    → tries ≤ length rest + length all
    → scan all tries rest ≡ first_available (take tries (rest ++ all))
unfolding scan first_available
scan-first_available all zero rest some_all some_rest h = refl
scan-first_available all (suc tries) [] some_all some_rest h = absurd (omega arith)
scan-first_available all (suc tries) (a ∷ []) some_all some_rest h =
    ground (arith, scan-first_available all tries all, take-append_le tries all all)
scan-first_available all (suc tries) (a ∷ (b ∷ bs)) some_all some_rest h =
    ground (arith, scan-first_available all tries (b ∷ bs))

-- The addresses in the order in which a pick looks at them.
abbrev pub turn : Policy → List Address
turn p = drop p.current_index p.addresses ++ take p.current_index p.addresses

-- The count is right, and the index stands in the list.
pub record IsValid (p : Policy) : Type 0 where
  pub counted : p.address_count ≡ length p.addresses
  pub indexed : (p.current_index < length p.addresses) ⊎ (p.current_index ≡ 0)

-- A whole walk from an index in the list.
scan-turn :
    (all : List Address) (i : ℕ)
    → i < length all
    → scan all (length all) (drop i all) ≡ first_available (drop i all ++ take i all)
scan-turn all i h =
    let split : length all ≡ length (drop i all) + i = omega (arith, length-drop i all) in
    scan-first_available all (length all) (drop i all) (omega arith)
      (omega (arith, length-drop i all)) (omega (arith, length-drop i all))
    ∙ ap first_available
        (ap (λ (t : ℕ). take t (drop i all ++ all)) split ∙ take-append_add (drop i all) all i)

-- A pick from a valid policy is the first available address from the index on, cyclically; it
-- moves the index on by one place, cyclically, if there is one, and otherwise changes nothing.
pub round_robin_pick-turn :
    (p : Policy) → IsValid p → round_robin_pick p ≡ advance p (first_available (turn p))
unfolding round_robin_pick first_available
round_robin_pick-turn p v = elim (List-cases p.addresses) [
  | inl none_left ↦ ground (arith, none_left, v.indexed)
  | inr (a, rest, eq) ↦
      ground (arith, eq, v.counted, v.indexed, scan-turn p.addresses p.current_index)
]

advance-IsValid :
    (p : Policy) (o : Option (List ℕ))
    → 0 < length p.addresses
    → IsValid p
    → IsValid (advance p o).0
unfolding advance
advance-IsValid p none h v = v
advance-IsValid p (some a) h v =
    let bound : (p.current_index + 1) % p.address_count < length p.addresses =
      omega (arith, v.counted) in
    record { counted = v.counted; indexed = inl bound }

mark-length :
    (available : Bool) (name : List ℕ) (all marked : List Address)
    → mark available name all ≡ some marked
    → length marked ≡ length all
unfolding mark
mark-length available name [] marked h = ground arith
mark-length available name (a ∷ rest) marked h =
    let of_rest : (m : List Address) → mark available name rest ≡ some m → length m ≡ length rest =
      mark-length available name rest in
    elim (Option-cases (mark available name rest)) [
      | inl nothing ↦ ground (arith, nothing)
      | inr (m, found) ↦ ground (arith, found, of_rest m found)
    ]

round_robin_pick-IsValid : (p : Policy) → IsValid p → IsValid (round_robin_pick p).0
unfolding round_robin_pick
round_robin_pick-IsValid p v = elim (List-cases p.addresses) [
  | inl nothing ↦
      let same : round_robin_pick p ≡ (p, none) = ground (arith, nothing) in
      subst (λ (r : Policy × Option (List ℕ)). IsValid r.0) (sym same) v
  | inr (a, rest, eq) ↦
      let some_left : 0 < length p.addresses = ground (arith, eq) in
      subst (λ (r : Policy × Option (List ℕ)). IsValid r.0) (sym (round_robin_pick-turn p v))
        (advance-IsValid p (first_available (turn p)) some_left v)
]

add_address-IsValid :
    (alloc : Alloc) (k : ℕ) (p : Policy) (name : Option (List ℕ)) (weight : ℕ)
    → IsValid p
    → IsValid (add_address alloc k p name weight).0
unfolding add_address
add_address-IsValid alloc k p none weight v = v
add_address-IsValid alloc k p (some name) weight v = elim (Bool-cases (alloc k)) [
  | inl node ↦ elim (Bool-cases (alloc (k + 1))) [
    | inl copy ↦ rw node (
        rw copy (record {
          counted =
              omega (arith, v.counted, length-append p.addresses (address_create name weight ∷ []));
          indexed = elim v.indexed [
            | inl h ↦
                inl (omega (arith, h, length-append p.addresses (address_create name weight ∷ [])))
            | inr h ↦ inr h
          ];
        }))
    | inr copy ↦ rw node (rw copy v)
  ]
  | inr node ↦ rw node v
]

set_available-IsValid :
    (available : Bool) (p : Policy) (name : Option (List ℕ))
    → IsValid p
    → IsValid (set_available available p name).0
unfolding set_available
set_available-IsValid available p none v = v
set_available-IsValid available p (some name) v =
    elim (Option-cases (mark available name p.addresses)) [
      | inl nothing ↦ rw (set_available, nothing) v
      | inr (m, found) ↦
          rw (set_available, found)
            (record {
              counted = v.counted ∙ sym (mark-length available name p.addresses m found);
              indexed = elim v.indexed [
                | inl h ↦ inl (omega (arith, h, mark-length available name p.addresses m found))
                | inr h ↦ inr h
              ];
            })
    ]

-- A valid policy stays valid when an address is picked, added, or marked as available or not.
pub policy_operations-IsValid :
    (p : Policy)
    → IsValid p
    → IsValid (round_robin_pick p).0
      × ((alloc : Alloc) (k : ℕ) (name : Option (List ℕ)) (weight : ℕ)
          → IsValid (add_address alloc k p name weight).0)
      × ((available : Bool) (name : Option (List ℕ)) → IsValid (set_available available p name).0)
policy_operations-IsValid p v = (
  round_robin_pick-IsValid p v,
  λ alloc k name weight. add_address-IsValid alloc k p name weight v,
  λ available name. set_available-IsValid available p name v,
)
