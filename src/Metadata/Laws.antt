-- ===== src/Metadata/Laws.antt =====
-- The growth of a metadata array.
use grpc_c.Common.{
  ℕ, ◌+◌, ◌*◌, ◌≤◌, ◌<◌, ◌≡◌, refl, ◌⊎◌, inl, inr, arith, Bool, true, false, Option-cases,
  Bool-cases, none, some, List, [], ◌∷◌, ◌++◌, length, length-append, take, if◌then◌else◌,
}
use mathlib.Core.Path.{subst}
use grpc_c.Common.Memory.{Alloc, c_string}
use grpc_c.Common.Fallible.{Status, success, failure}
use grpc_c.Transport.{returns}
use grpc_c.Metadata.{
  Metadata, MetadataArray, live, count, entry, fresh, is_full, grow, push, add_copies, add_grown,
  add,
}

-- The array owns a block with room for its entries, which doubling enlarges.
pub record IsValid (a : MetadataArray) : Type 0 where
  pub owned : a.storage ≡ live
  pub within : count a ≤ a.capacity
  pub positive : 0 < a.capacity

pub fresh-IsValid : (n : ℕ) → 0 < n → IsValid (fresh true n)
unfolding fresh
fresh-IsValid n h = record { owned = refl; within = omega arith; positive = h }

pub grow-IsValid :
    (ok : Bool) (a b : MetadataArray)
    → IsValid a
    → grow ok a ≡ some b
    → IsValid b × (b.metadata ≡ a.metadata) × (count b < b.capacity)
unfolding grow is_full
grow-IsValid ok a b v e = ground arith

pub grow_refused :
    (ok : Bool) (a : MetadataArray) → grow ok a ≡ none → (is_full a ≡ true) × (ok ≡ false)
unfolding grow
grow_refused ok a e = ground arith

pub grow_succeeds : (a : MetadataArray) → (b : MetadataArray) × (grow true a ≡ some b)
unfolding grow
grow_succeeds a = elim (Bool-cases (is_full a)) [
  | inl full ↦ (record a { capacity = a.capacity * 2; storage = live }, rw full)
  | inr spare ↦ (a, rw spare)
]

pub push-IsValid :
    (a : MetadataArray) (md : Metadata) → IsValid a → count a < a.capacity → IsValid (push a md)
unfolding push
push-IsValid a md v h = record {
  owned = v.owned;
  within = omega (arith, length-append a.metadata (md ∷ []));
  positive = v.positive;
}

-- What an addition gives, whose heap requests are numbered from `k` on. If it fails, one of the
-- three that it makes at most is refused.
abbrev pub Effect : Alloc → ℕ → MetadataArray → Metadata → MetadataArray × Status → Type 0
Effect alloc k a md r =
    IsValid r.0
    × (((r.1 ≡ success) × (r.0.metadata ≡ a.metadata ++ md ∷ []))
        ⊎ ((r.1 ≡ failure)
            × (r.0.metadata ≡ a.metadata)
            × ((i : ℕ) × (k ≤ i) × (i ≤ k + 2) × (alloc i ≡ false))))

add_copies-Effect :
    (alloc : Alloc) (k next : ℕ) (a : MetadataArray) (key value : List ℕ) (n : ℕ)
    → IsValid a
    → count a < a.capacity
    → n ≤ length value
    → k ≤ next
    → next ≤ k + 1
    → (r : MetadataArray × Status) × (add_copies (alloc next) (alloc (next + 1)) a key value n
        ≡ returns r)
      × Effect alloc k a (entry (c_string key) (take n value) n) r
unfolding add_copies
add_copies-Effect alloc k next a key value n v h inside low high = elim (Bool-cases (alloc next)) [
  | inr refused ↦ (
    (a, failure),
    ground (arith, refused),
    (v, inr (refl, refl, (next, low, omega arith, refused))),
  )
  | inl copied ↦ elim (Bool-cases (alloc (next + 1))) [
    | inr refused ↦ (
      (a, failure),
      ground (arith, copied, refused),
      (v, inr (refl, refl, (next + 1, omega arith, omega arith, refused))),
    )
    | inl copied' ↦ (
      (push a (entry (c_string key) (take n value) n), success),
      ground (arith, copied, copied', inside),
      (push-IsValid a _ v h, inl (refl, unfold push in refl)),
    )
  ]
]

-- An addition of a value whose length stays inside its block returns and keeps the array valid.
-- Either it appends the one new entry and succeeds, or one of its heap requests is refused, and it
-- leaves the entries as they were and fails. The entry has the key up to its first NUL, and the
-- bytes of the value that its length asks for.
pub add-Effect :
    (alloc : Alloc) (k : ℕ) (a : MetadataArray) (key value : List ℕ) (n : ℕ)
    → IsValid a
    → n ≤ length value
    → (r : MetadataArray × Status) × (add alloc k a (some key) (some value) n ≡ returns r)
      × Effect alloc k a (entry (c_string key) (take n value) n) r
unfolding add
add-Effect alloc k a key value n v inside = elim (Option-cases (grow (alloc k) a)) [
  | inl e ↦ (
    (a, failure),
    rw (e, add_grown) refl,
    (v, inr (refl, refl, (k, omega arith, omega arith, (grow_refused (alloc k) a e).1))),
  )
  | inr (b, e) ↦
      let (valid, same, room) = grow-IsValid (alloc k) a b v e in
      let next : ℕ = if is_full a then k + 1 else k in
      let (r, ran, effect) =
        add_copies-Effect alloc k next b key value n valid room inside (ground arith)
          (ground arith) in
      let md : Metadata = entry (c_string key) (take n value) n in
      (
        r,
        rw (e, add_grown) ran,
        subst (λ (l : List Metadata). Effect alloc k (record a { metadata = l }) md r) same effect,
      )
]
