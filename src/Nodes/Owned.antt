-- ===== src/Nodes/Owned.antt =====
-- The nodes that a linked list owns, over additions at its end and removals at its head.

use grpc_c.Common.{
  length, Bool-cases, inl, inr, All-snoc, All-unsnoc, ℕ, ◌≡◌, ◌≢◌, refl, sym, ◌∙◌, arith, Option,
  none, some, List, [], ◌∷◌, ◌++◌, All, ◌==◌,
}
use grpc_c.Transport.{returns}
use grpc_c.Nodes.{Node, Memory, look, store, load, free, set_next, free_from}
use grpc_c.Nodes.Chain.{
  Chain, last_of, frame, unused_apart, Linked, link_last, look_new, look-store, Chain-nil,
}

module _ {A : Type 0} where
  -- Of what was not in memory `m₀`, memory `m` has the nodes of the list alone.
  pub record Owns (m₀ m : Memory A) (head : Option ℕ) (cells : List (ℕ × A)) : Type 0 where
    pub chain : Chain m head cells
    pub outside : (a : ℕ) → All (λ c. c.0 ≢ a) cells → look a m ≡ look a m₀
    pub new : All (λ c. look c.0 m₀ ≡ none) cells

  pub Owns-nil : (m₀ m : Memory A) (head : Option ℕ) → Owns m₀ m head [] → head ≡ none
  Owns-nil m₀ m head owns = Chain-nil m head owns.chain

  pub Owns-empty : (m₀ : Memory A) → Owns m₀ m₀ none []
  unfolding Chain
  Owns-empty m₀ = record { chain = refl; outside = λ a others. refl; new = tt }

  -- A new list of the node at `p` alone.
  pub Owns-first :
      (m₀ m : Memory A) (p : ℕ) (x : A) (head : Option ℕ)
      → Owns m₀ m head []
      → look p m ≡ none
      → Owns m₀ (store p (some (record { item = x; next = none })) m) (some p) ((p, x) ∷ [])
  unfolding Chain look
  Owns-first m₀ m p x head owns unused = record {
    chain = (none, refl, ground arith, tt, refl);
    outside = λ a (differs, tt). look-store m p _ a differs ∙ owns.outside a tt;
    new = (sym (owns.outside p tt) ∙ unused, tt);
  }

  -- To link the node at `p` behind the last of a list.
  pub Owns-push_back :
      (m₀ m : Memory A) (p : ℕ) (x : A) (head : Option ℕ) (c : ℕ × A) (cells : List (ℕ × A))
      → Owns m₀ m head (c ∷ cells)
      → look p m ≡ none
      → (t : ℕ) × (m' : Memory A) × (last_of (c ∷ cells) ≡ some t)
        × (set_next t p (store p (some (record { item = x; next = none })) m) ≡ returns m')
        × Owns m₀ m' head ((c ∷ cells) ++ (p, x) ∷ [])
  unfolding Linked
  Owns-push_back m₀ m p x head c cells owns unused =
      let out = unused_apart m p head (c ∷ cells) owns.chain unused in
      let n : Option (Node A) = some (record { item = x; next = none }) in
      let (t, item, next, (is_last, linked, chain, kept), far) =
        link_last (store p n m) p x head c cells (frame m p n head (c ∷ cells) owns.chain out)
          (look_new m p n) out in
      (
        t,
        store t (some (record { item = item; next = next })) (store p n m),
        is_last,
        linked,
        record {
          chain = chain;
          outside = λ a others.
              let (others', differs) = All-unsnoc (λ d. d.0 ≢ a) (c ∷ cells) others in
              kept a others' ∙ look-store m p n a differs ∙ owns.outside a others';
          new =
              All-snoc (λ d. look d.0 m₀ ≡ none) (c ∷ cells) owns.new
                (sym (owns.outside p out) ∙ unused);
        },
      )

  -- To take the first node off a list and free it.
  pub Owns-pop_front :
      (m₀ m : Memory A) (head : Option ℕ) (a : ℕ) (x : A) (cells : List (ℕ × A))
      → Owns m₀ m head ((a, x) ∷ cells)
      → (next : Option ℕ) × (head ≡ some a)
        × (load a m ≡ returns (record { item = x; next = next }))
        × (free a m ≡ returns (store a none m))
        × Owns m₀ (store a none m) next cells
  unfolding Chain load free look
  Owns-pop_front m₀ m head a x cells owns =
      let (next, at, holds, apart, rest) = owns.chain in
      (
        next,
        at,
        ground (arith, holds),
        ground (arith, holds),
        record {
          chain = frame m a none next cells rest apart;
          outside = λ b others. elim (Bool-cases (a == b)) [
            | inl same ↦ ground (arith, same, owns.new.0)
            | inr other ↦
                let differs : a ≢ b = λ e. ground (arith, other, e) in
                look-store m a none b differs ∙ owns.outside b (differs, others)
          ];
          new = owns.new.1;
        },
      )

  -- The loop that frees a list of its own nodes ends after as many rounds as it has nodes, and none
  -- of them is left.
  pub free_from_lem :
      (m₀ m : Memory A) (head : Option ℕ) (cells : List (ℕ × A))
      → Owns m₀ m head cells
      → (m' : Memory A) × (free_from (length cells) head m ≡ returns m')
        × ((a : ℕ) → look a m' ≡ look a m₀)
  unfolding free_from
  free_from_lem m₀ m head [] owns =
      (m, ground (arith, Owns-nil m₀ m head owns), λ a. owns.outside a tt)
  free_from_lem m₀ m head ((a, x) ∷ cells) owns =
      let (next, at, loaded, freed, rest) = Owns-pop_front m₀ m head a x cells owns in
      let (m', done, same) = free_from_lem m₀ (store a none m) next cells rest in
      (m', ground (arith, at, loaded, freed, done), same)
