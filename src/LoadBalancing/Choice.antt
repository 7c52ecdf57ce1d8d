-- ===== src/LoadBalancing/Choice.antt =====
-- grpc_lb_pick_first_pick, and marking an address (grpc_lb_policy_mark_unavailable and
-- grpc_lb_policy_mark_available).
use grpc_c.Common.{
  ◌≡◌, refl, ap, ◌⊎◌, arith, true, false, none, some, List, [], ◌∷◌, ◌++◌, ℕ, All, Bool-cases, inl,
  inr,
}
use grpc_c.LoadBalancing.{Address, Policy, first_available, pick, pick_first}

-- The addresses that a pick may not use.
abbrev pub Unavailable : List Address → Type 0
Unavailable = All (λ a. a.is_available ≡ false)

first_available_cases :
    (all : List Address)
    → (Unavailable all × (first_available all ≡ none))
      ⊎ ((before : List Address) × (a : Address) × (after : List Address) × (all
            ≡ before ++ a ∷ after)
          × Unavailable before
          × (a.is_available ≡ true)
          × (first_available all ≡ some a.address))
unfolding first_available
first_available_cases [] = inl (tt, refl)
first_available_cases (a ∷ rest) = elim (Bool-cases a.is_available) [
  | inl up ↦ inr ([], a, rest, refl, tt, up, ground (arith, up))
  | inr off ↦ elim (first_available_cases rest) [
    | inl (nothing, eq) ↦ inl ((off, nothing), ground (arith, off, eq))
    | inr (before, b, after, split, nothing, up, eq) ↦
        inr (a ∷ before, b, after, ap (◌∷◌ a) split, (off, nothing), up, ground (arith, off, eq))
  ]
]

-- A pick of a policy that picks the first address changes nothing. Either every address is
-- unavailable and there is no pick, or the pick is available and every address before it is not.
pick_first_cases :
    (rand : ℕ) (p : Policy)
    → p.kind ≡ pick_first
    → (Unavailable p.addresses × (pick rand p ≡ (p, none)))
      ⊎ ((before : List Address) × (a : Address) × (after : List Address) × (p.addresses
            ≡ before ++ a ∷ after)
          × Unavailable before
          × (a.is_available ≡ true)
          × (pick rand p ≡ (p, some a.address)))
unfolding pick
pick_first_cases rand p h =
    let picks : pick rand p ≡ (p, first_available p.addresses) = ground (arith, h) in
    elim (first_available_cases p.addresses) [
      | inl (nothing, eq) ↦ inl (nothing, ground (arith, picks, eq))
      | inr (before, a, after, split, nothing, up, eq) ↦
          inr (before, a, after, split, nothing, up, ground (arith, picks, eq))
    ]
