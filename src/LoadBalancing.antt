-- ===== src/LoadBalancing.antt =====
-- load_balancing.c (src/load_balancing.c): the three policies over a list of addresses. The address
-- strings are C strings; `strdup` and `calloc` are requests of `Common.Memory.Alloc`.
pub mod RoundRobin
pub mod Fairness
pub mod Choice
pub mod Weighted
pub mod Destroy
mod Tests
use grpc_c.Common.{
  ℕ, zero, suc, ◌+◌, ◌-◌, ◌%◌, ◌||◌, Bool, true, false, Option, none, some, List, [], ◌∷◌, ◌++◌,
  length, drop, ltb, ◌==◌, if◌then◌else◌,
}
use grpc_c.Common.Memory.{Alloc, same_string}
use grpc_c.Common.Fallible.{Status, success, failure}

pub data PolicyType : Type 0 where
  round_robin pick_first weighted : PolicyType

pub record Address : Type 0 where
  pub address : List ℕ
  pub weight : ℕ
  pub is_available : Bool

-- `address_count` is kept beside the list, as in the source.
pub record Policy : Type 0 where
  pub kind : PolicyType
  pub addresses : List Address
  pub address_count : ℕ
  pub current_index : ℕ

-- addr->weight = weight > 0 ? weight : 1; an argument below 0 is given as 0.
unfoldable pub address_create : List ℕ → ℕ → Address
address_create address weight = record {
  address = address;
  weight = if ltb 0 weight then weight else 1;
  is_available = true;
}

unfoldable pub policy_create : Bool → PolicyType → Option Policy
policy_create ok kind =
    if ok
    then some (record { kind = kind; addresses = []; address_count = 0; current_index = 0 })
    else none

-- The two heap requests are for the node and for its copy of the string.
unfoldable pub add_address : Alloc → ℕ → Policy → Option (List ℕ) → ℕ → Policy × Status
unfolding address_create
add_address alloc k policy none weight = (policy, failure)
add_address alloc k policy (some address) weight =
    if alloc k
    then (if alloc (k + 1)
        then (
          record policy {
            addresses = policy.addresses ++ address_create address weight ∷ [];
            address_count = policy.address_count + 1;
          },
          success,
        )
        else (policy, failure))
    else (policy, failure)

-- while (addr && attempts < address_count): `rest` is the list from addr on, `tries` the attempts
-- that are left; at the end of the list the walk goes on at its front.
unfoldable pub scan : List Address → ℕ → List Address → Option (List ℕ)
scan all zero rest = none
scan all (suc tries) [] = none
scan all (suc tries) (a ∷ rest) =
    let again : Option (List ℕ) = elim rest [
      | [] ↦ scan all tries all
      | b ∷ bs ↦ scan all tries (b ∷ bs)
    ] in
    if a.is_available then some a.address else again

-- A pick that finds an address moves the index on by one.
unfoldable pub advance : Policy → Option (List ℕ) → Policy × Option (List ℕ)
advance policy none = (policy, none)
advance policy (some a) =
    (record policy { current_index = (policy.current_index + 1) % policy.address_count }, some a)

unfoldable pub round_robin_pick : Policy → Policy × Option (List ℕ)
unfolding scan advance
round_robin_pick policy = elim policy.addresses [
  | [] ↦ (policy, none)
  | a ∷ as' ↦
      if policy.address_count == 0
      then (policy, none)
      else advance policy
          (scan (a ∷ as') policy.address_count (drop policy.current_index (a ∷ as')))
]

unfoldable pub first_available : List Address → Option (List ℕ)
first_available [] = none
first_available (a ∷ rest) = if a.is_available then some a.address else first_available rest

-- The sum of the weights of the available addresses.
unfoldable pub total_weight : List Address → ℕ
total_weight [] = 0
total_weight (a ∷ rest) =
    let total = total_weight rest in if a.is_available then a.weight + total else total

-- The first address at which the running sum passes the random weight.
unfoldable pub pick_at : ℕ → ℕ → List Address → Option (List ℕ)
pick_at random current [] = none
pick_at random current (a ∷ rest) =
    let here = current + a.weight in
    let next = pick_at random here rest in
    let skip = pick_at random current rest in
    if a.is_available then (if ltb random here then some a.address else next) else skip

-- `rand` is the result of rand().
unfoldable pub weighted_pick : ℕ → Policy → Option (List ℕ)
unfolding total_weight pick_at
weighted_pick rand policy =
    if policy.address_count == 0 || total_weight policy.addresses == 0
    then none
    else pick_at (rand % total_weight policy.addresses) 0 policy.addresses

unfoldable pub pick : ℕ → Policy → Policy × Option (List ℕ)
unfolding round_robin_pick first_available weighted_pick
pick rand policy = elim policy.kind [
  | round_robin ↦ round_robin_pick policy
  | pick_first ↦ (policy, first_available policy.addresses)
  | weighted ↦ (policy, weighted_pick rand policy)
]

-- The first address with the name is marked; `none` if there is none.
unfoldable pub mark : Bool → List ℕ → List Address → Option (List Address)
unfolding same_string
mark available name [] = none
mark available name (a ∷ rest) =
    if same_string a.address name
    then some (record a { is_available = available } ∷ rest)
    else (elim (mark available name rest) [ none ↦ none | some rest' ↦ some (a ∷ rest') ])

unfoldable pub set_available : Bool → Policy → Option (List ℕ) → Policy × Status
unfolding mark
set_available available policy none = (policy, failure)
set_available available policy (some name) = elim (mark available name policy.addresses) [
  | none ↦ (policy, failure)
  | some addresses ↦ (record policy { addresses = addresses }, success)
]

unfoldable pub mark_unavailable : Policy → Option (List ℕ) → Policy × Status
unfolding set_available
mark_unavailable = set_available false

unfoldable pub mark_available : Policy → Option (List ℕ) → Policy × Status
unfolding set_available
mark_available = set_available true
