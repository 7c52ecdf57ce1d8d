-- ===== src/Nodes/Chain.antt =====
-- Linked lists in memory: the nodes that the next pointers of a list lead through.

use grpc_c.Common.{
  All-snoc, ℕ, ◌≡◌, ◌≢◌, refl, sym, arith, Option, none, some, List, [], ◌∷◌, ◌++◌, All,
}
use grpc_c.Transport.{returns}
use grpc_c.Nodes.{Node, Memory, look, store, load, set_next}

module _ {A : Type 0} where
  -- The next pointers from `head` lead through nodes at different addresses to NULL.
  unfoldable pub Chain : Memory A → Option ℕ → List (ℕ × A) → Type 0
  Chain m head [] = head ≡ none
  Chain m head ((a, x) ∷ cells) =
      (next : Option ℕ) × (head ≡ some a)
      × (look a m ≡ some (record { item = x; next = next }))
      × All (λ c. c.0 ≢ a) cells
      × Chain m next cells

  unfoldable pub last_of : List (ℕ × A) → Option ℕ
  last_of [] = none
  last_of (c ∷ []) = some c.0
  last_of (c ∷ d ∷ cells) = last_of (d ∷ cells)

  pub last_of_snoc : (cells : List (ℕ × A)) (c : ℕ × A) → last_of (cells ++ c ∷ []) ≡ some c.0
  unfolding last_of
  last_of_snoc [] c = refl
  last_of_snoc (d ∷ []) c = refl
  last_of_snoc (d ∷ e ∷ cells) c = last_of_snoc (e ∷ cells) c

  pub frame :
      (m : Memory A) (p : ℕ) (n : Option (Node A)) (head : Option ℕ) (cells : List (ℕ × A))
      → Chain m head cells
      → All (λ c. c.0 ≢ p) cells
      → Chain (store p n m) head cells
  unfolding Chain look
  frame m p n head [] h out = h
  frame m p n head ((a, x) ∷ cells) (next, at, holds, apart, rest) (here, out) =
      (next, at, ground (arith, here, holds), apart, frame m p n next cells rest out)

  pub unused_apart :
      (m : Memory A) (p : ℕ) (head : Option ℕ) (cells : List (ℕ × A))
      → Chain m head cells
      → look p m ≡ none
      → All (λ c. c.0 ≢ p) cells
  unfolding Chain
  unused_apart m p head [] h unused = tt
  unused_apart m p head ((a, x) ∷ cells) (next, at, holds, apart, rest) unused =
      (λ e. ground (arith, e, holds, unused), unused_apart m p next cells rest unused)

  -- The node at `t` is the last of the list, and `m'` has it point at `p`.
  unfoldable pub Linked : Memory A → ℕ → A → Option ℕ → List (ℕ × A) → ℕ → Memory A → Type 0
  Linked m p x head cells t m' =
      (last_of cells ≡ some t)
      × (set_next t p m ≡ returns m')
      × Chain m' head (cells ++ (p, x) ∷ [])
      × ((a : ℕ) → All (λ c. c.0 ≢ a) cells → look a m' ≡ look a m)

  pub link_last :
      (m : Memory A) (p : ℕ) (x : A) (head : Option ℕ) (c : ℕ × A) (cells : List (ℕ × A))
      → Chain m head (c ∷ cells)
      → look p m ≡ some (record { item = x; next = none })
      → All (λ c. c.0 ≢ p) (c ∷ cells)
      → (t : ℕ) × (item : A) × (next : Option ℕ) × Linked m p x head
          (c ∷ cells)
          t
          (store t (some (record { item = item; next = next })) m)
        × (((a : ℕ) → All (λ c. c.0 ≢ a) (c ∷ cells) → t ≢ a))
  unfolding Chain look load set_next last_of Linked
  link_last m p x head (a, y) [] (next, at, holds, apart, rest) new (differs, out) = (
    a,
    y,
    some p,
    (
      refl,
      ground (arith, holds),
      (
        some p,
        at,
        ground arith,
        (λ e. differs (sym e), tt),
        (none, refl, ground (arith, differs, new), tt, refl),
      ),
      λ b (other, tt). ground (arith, other),
    ),
    λ b (other, tt). other,
  )
  link_last m p x head (a, y) (d ∷ cells) (next, at, holds, apart, rest) new (differs, out) =
      let (t, item, tail, (is_last, linked, chain, kept), far) =
        link_last m p x next d cells rest new out in
      (
        t,
        item,
        tail,
        (
          is_last,
          linked,
          (
            next,
            at,
            ground (arith, far a apart, holds),
            All-snoc (λ c. c.0 ≢ a) (d ∷ cells) apart (λ e. differs (sym e)),
            chain,
          ),
          λ b (here, others). kept b others,
        ),
        λ b (here, others). far b others,
      )

  pub look_new : (m : Memory A) (p : ℕ) (n : Option (Node A)) → look p (store p n m) ≡ n
  unfolding look
  look_new m p n = ground arith

  pub look-store :
      (m : Memory A) (p : ℕ) (n : Option (Node A)) (a : ℕ) → p ≢ a → look a (store p n m) ≡ look a m
  unfolding look
  look-store m p n a differs = ground (arith, differs)

  pub Chain-nil : (m : Memory A) (head : Option ℕ) → Chain m head [] → head ≡ none
  unfolding Chain
  Chain-nil m head h = h

  -- The first of a chain can be read, and the others follow it.
  pub Chain-cons :
      (m : Memory A) (head : Option ℕ) (a : ℕ) (x : A) (cells : List (ℕ × A))
      → Chain m head ((a, x) ∷ cells)
      → (next : Option ℕ) × (head ≡ some a)
        × (load a m ≡ returns (record { item = x; next = next }))
        × Chain m next cells
  unfolding Chain load
  Chain-cons m head a x cells (next, at, holds, apart, rest) =
      (next, at, ground (arith, holds), rest)
