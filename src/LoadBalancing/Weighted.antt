-- ===== src/LoadBalancing/Weighted.antt =====
-- grpc_lb_weighted_pick.
use grpc_c.Common.{
  ℕ, ◌+◌, ◌-◌, dec_lt, length-append, ◌%◌, ◌≤◌, ◌<◌, ◌≡◌, refl, ap, ◌∙◌, arith, true, some, List,
  [], ◌∷◌, ◌++◌, length, Bool-cases, inl, inr,
}
use grpc_c.LoadBalancing.{Address, Policy, total_weight, pick_at, weighted_pick}

-- `random` falls in the share of the address: past the available weights before it, and within its
-- own.
pick_at-share :
    (before : List Address) (a : Address) (after : List Address) (current random : ℕ)
    → a.is_available ≡ true
    → current + total_weight before ≤ random
    → random < current + total_weight before + a.weight
    → pick_at random current (before ++ a ∷ after) ≡ some a.address
unfolding pick_at total_weight
pick_at-share [] a after current random up low high = ground (arith, up)
pick_at-share (b ∷ before) a after current random up low high = ground (
  arith,
  pick_at-share before a after current random up,
  pick_at-share before a after (current + b.weight) random up,
)

total_weight-append :
    (xs ys : List Address) → total_weight (xs ++ ys) ≡ total_weight xs + total_weight ys
unfolding total_weight
total_weight-append [] ys = ground arith
total_weight-append (x ∷ xs) ys = ground (arith, total_weight-append xs ys)

-- Every number below the sum of the weights falls in some available address's share.
in_share :
    (all : List Address) (random : ℕ)
    → random < total_weight all
    → (before : List Address) × (a : Address) × (after : List Address) × (all ≡ before ++ a ∷ after)
      × (a.is_available ≡ true)
      × (total_weight before ≤ random)
      × (random < total_weight before + a.weight)
unfolding total_weight
in_share [] random h = absurd (omega arith)
in_share (a ∷ rest) random h = elim (Bool-cases a.is_available) [
  | inl up ↦ elim (dec_lt random a.weight) [
    | yes h1 ↦ ([], a, rest, refl, up, ground (arith, up), ground (arith, up))
    | no h1 ↦
        let (before, b, after, split, b_up, low, high) =
          in_share rest (random - a.weight) (ground (arith, up)) in
        (a ∷ before, b, after, ap (◌∷◌ a) split, b_up, ground (arith, up), ground (arith, up))
  ]
  | inr off ↦
      let (before, b, after, split, b_up, low, high) = in_share rest random (ground (arith, off)) in
      (a ∷ before, b, after, ap (◌∷◌ a) split, b_up, ground (arith, off), ground (arith, off))
]

-- Let the remainder of the random number by the sum of the available weights be r. An available
-- address is the pick if r is at least the sum of the available weights before it, and less than
-- that sum with its own: the values of r that give an address are as many as its weight.
weighted_pick-share :
    (rand : ℕ) (p : Policy) (before : List Address) (a : Address) (after : List Address)
    → p.address_count ≡ length p.addresses
    → p.addresses ≡ before ++ a ∷ after
    → a.is_available ≡ true
    → total_weight before ≤ rand % total_weight p.addresses
    → rand % total_weight p.addresses < total_weight before + a.weight
    → weighted_pick rand p ≡ some a.address
unfolding weighted_pick
weighted_pick-share rand p before a after counted split up low high =
    let r : ℕ = rand % total_weight p.addresses in
    let found : pick_at r 0 p.addresses ≡ some a.address =
      ap (pick_at r 0) split ∙ pick_at-share before a after 0 r up (omega arith) (omega arith) in
    ground (
      arith,
      found,
      counted,
      ap length split,
      length-append before (a ∷ after),
      ap total_weight split,
      total_weight-append before (a ∷ after),
    )

-- If the count of addresses is right and the available weights add up to more than 0, there is a
-- pick, and it is an available address in whose share the random number, modulo that sum, falls.
pub weighted_pick_total :
    (rand : ℕ) (p : Policy)
    → p.address_count ≡ length p.addresses
    → 0 < total_weight p.addresses
    → (before : List Address) × (a : Address) × (after : List Address) × (p.addresses
        ≡ before ++ a ∷ after)
      × (a.is_available ≡ true)
      × (total_weight before ≤ rand % total_weight p.addresses)
      × (rand % total_weight p.addresses < total_weight before + a.weight)
      × (weighted_pick rand p ≡ some a.address)
weighted_pick_total rand p counted some_weight =
    let (before, a, after, split, up, low, high) =
      in_share p.addresses (rand % total_weight p.addresses) (omega arith) in
    (
      before,
      a,
      after,
      split,
      up,
      low,
      high,
      weighted_pick-share rand p before a after counted split up low high,
    )
