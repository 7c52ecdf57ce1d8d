-- ===== src/CompletionQueue/Linked/Refines.antt =====
-- The linked list in memory behaves as the list of events (src/grpc_core.c).
use mathlib.Core.Path.{subst}
use grpc_c.Common.{map, ℕ, ◌≡◌, refl, sym, arith, Option, none, some, List, [], ◌∷◌, ◌++◌, map}
use grpc_c.Transport.{returns}
use grpc_c.Nodes.{Memory, look, store}
use grpc_c.Nodes.Chain.{last_of, last_of_snoc}
use grpc_c.Nodes.Owned.{Owns-nil, Owns, Owns-first, Owns-push_back, Owns-pop_front}
use grpc_c.CompletionQueue.{Event, CompletionQueue}
use grpc_c.CompletionQueue.Linked.{LinkedQueue, State, link_node, reset_tail, take_linked}

module _ (m₀ : Memory Event) where
  -- The nodes that were not in memory m₀ are those of the queue, from its head to its tail, with
  -- the events in order.
  pub record Refines (st : State) (cq : CompletionQueue) : Type 0 where
    pub cells : List (ℕ × Event)
    pub owns : Owns m₀ st.0 st.1.head cells
    pub tail : st.1.tail ≡ last_of cells
    pub events : map (λ c. c.1) cells ≡ cq.events
    pub shutdown : st.1.shutdown ≡ cq.shutdown

  pub link_refines :
      (p : ℕ) (event : Event) (m : Memory Event) (q : LinkedQueue) (cells : List (ℕ × Event))
      → Owns m₀ m q.head cells
      → q.tail ≡ last_of cells
      → look p m ≡ none
      → (st : State) × (link_node p (store p (some (record { item = event; next = none })) m, q)
          ≡ returns st)
        × Owns m₀ st.0 st.1.head (cells ++ (p, event) ∷ [])
        × (st.1.tail ≡ last_of (cells ++ (p, event) ∷ []))
        × (st.1.shutdown ≡ q.shutdown)
  unfolding link_node last_of
  link_refines p event m q [] owns tail unused = (
    (store p _ m, record q { head = some p; tail = some p }),
    ground (arith, tail),
    Owns-first m₀ m p event q.head owns unused,
    refl,
    refl,
  )
  link_refines p event m q (c ∷ cells) owns tail unused =
      let (t, m', is_last, linked, owned) =
        Owns-push_back m₀ m p event q.head c cells owns unused in
      (
        (m', record q { tail = some p }),
        ground (arith, tail, is_last, linked),
        owned,
        sym (last_of_snoc (c ∷ cells) (p, event)),
        refl,
      )

  reset_refines :
      (m : Memory Event) (q : LinkedQueue) (c : ℕ × Event) (cells : List (ℕ × Event))
      → Owns m₀ m q.head cells
      → q.tail ≡ last_of (c ∷ cells)
      → ((reset_tail q).head ≡ q.head)
        × ((reset_tail q).tail ≡ last_of cells)
        × ((reset_tail q).shutdown ≡ q.shutdown)
  unfolding reset_tail last_of
  reset_refines m q c [] owns tail = ground (arith, Owns-nil m₀ m q.head owns)
  reset_refines m q c ((a, x) ∷ cells) owns tail =
      let first : q.head ≡ some a = (Owns-pop_front m₀ m q.head a x cells owns).1 in
      ground (arith, first, tail)

  -- The first of the cells is gone, if there is one.
  unfoldable pub Taken : List (ℕ × Event) → State → Option Event → Type 0
  Taken [] st event = Owns m₀ st.0 st.1.head [] × (st.1.tail ≡ none) × (event ≡ none)
  Taken (c ∷ cells) st event =
      Owns m₀ st.0 st.1.head cells × (st.1.tail ≡ last_of cells) × (event ≡ some c.1)

  pub take_refines :
      (m : Memory Event) (q : LinkedQueue) (cells : List (ℕ × Event))
      → Owns m₀ m q.head cells
      → q.tail ≡ last_of cells
      → (st : State) × (event : Option Event) × (take_linked (m, q) ≡ returns (st, event))
        × Taken cells st event
        × (st.1.shutdown ≡ q.shutdown)
  unfolding take_linked Taken last_of
  take_refines m q [] owns tail =
      ((m, q), none, ground (arith, Owns-nil m₀ m q.head owns), (owns, tail, refl), refl)
  take_refines m q ((a, x) ∷ cells) owns tail =
      let (next, at, loaded, freed, rest) = Owns-pop_front m₀ m q.head a x cells owns in
      let after : LinkedQueue = record q { head = next } in
      let (same_head, new_tail, same_shutdown) =
        reset_refines (store a none m) after (a, x) cells rest tail in
      (
        (store a none m, reset_tail after),
        some x,
        ground (arith, at, loaded, freed),
        (
          subst (λ (h : Option ℕ). Owns m₀ (store a none m) h cells) (sym same_head) rest,
          new_tail,
          refl,
        ),
        same_shutdown,
      )
