-- ===== src/CompletionQueue/Linked/Life.antt =====
-- The linked list of the completion queue from its creation to its destruction (src/grpc_core.c).
use mathlib.Core.Path.{subst}
use mathlib.Core.List.{map-append}
use grpc_c.Common.{
  length-map, List-cases, map, inl, inr, ℕ, ◌≡◌, refl, sym, ap, ◌∙◌, arith, Bool, true, false,
  Option, none, some, List, [], ◌∷◌, ◌++◌, map, inl, inr, length,
}
use grpc_c.Transport.{returns}
use grpc_c.Nodes.{Memory, look, free_from, malloc_if, IsFresh}
use grpc_c.Nodes.Chain.{last_of}
use grpc_c.Nodes.Owned.{free_from_lem, Owns-empty}
use grpc_c.CompletionQueue.{
  CompletionType, create, Event, CompletionQueue, Action, pushes, shuts, takes, perform,
  perform_all, push_event, shut_down, is_empty, take_event,
}
use grpc_c.CompletionQueue.Order.{pushed, taken, perform_all_fifo}
use grpc_c.CompletionQueue.Linked.{
  State, linked_empty, push_linked, note_event, perform_linked, perform_linked_all, destroy_linked,
}
use grpc_c.CompletionQueue.Linked.Refines.{Refines, link_refines, Taken, take_refines}

module _ (m₀ : Memory Event) where
  module _ (malloc : Memory Event → ℕ) where
    -- What an action does to the linked list is what it does to the list of events.
    Steps : Action → State → CompletionQueue → Type 0
    Steps a st cq =
        (st' : State) × (event : Option Event) × (perform_linked malloc a st ≡ returns (st', event))
        × Refines m₀ st' (perform a cq)
        × ((rest : List Action)
            → taken (a ∷ rest) cq ≡ note_event event (taken rest (perform a cq)))

    takes-Refines : (st : State) (cq : CompletionQueue) → Refines m₀ st cq → Steps takes st cq
    unfolding Steps Taken perform_linked perform take_event is_empty taken note_event last_of
    takes-Refines st cq r =
        let (st', event, took, effect, shutdown) =
          take_refines m₀ st.0 st.1 r.cells r.owns r.tail in
        elim (List-cases r.cells) [
          | inl nothing ↦
              let no_events : cq.events ≡ [] = sym r.events ∙ ap (map (λ c. c.1)) nothing in
              let (owns, tail, none_taken) =
                subst (λ (cs : List (ℕ × Event)). Taken m₀ cs st' event) nothing effect in
              (
                st',
                event,
                took,
                record {
                  cells = [];
                  owns = owns;
                  tail = tail;
                  events = ground (arith, no_events);
                  shutdown = ground (arith, no_events, shutdown, r.shutdown);
                },
                λ rest. ground (arith, no_events, none_taken),
              )
          | inr (c, cells, some_cells) ↦
              let events : cq.events ≡ c.1 ∷ map (λ c. c.1) cells =
                sym r.events ∙ ap (map (λ c. c.1)) some_cells in
              let (owns, tail, one) =
                subst (λ (cs : List (ℕ × Event)). Taken m₀ cs st' event) some_cells effect in
              (
                st',
                event,
                took,
                record {
                  cells = cells;
                  owns = owns;
                  tail = tail;
                  events = ground (arith, events);
                  shutdown = ground (arith, events, shutdown, r.shutdown);
                },
                λ rest. ground (arith, events, one),
              )
        ]

    pushes-Refines :
        IsFresh malloc
        → (ok : Bool) (event : Event) (st : State) (cq : CompletionQueue) → Refines m₀ st cq
        → Steps (pushes ok event) st cq
    unfolding Steps perform_linked perform push_event push_linked malloc_if taken note_event
    pushes-Refines fresh false event st cq r = (st, none, refl, r, λ rest. refl)
    pushes-Refines fresh true event st cq r =
        let (st', linked, owns, tail, same) =
          link_refines m₀ (malloc st.0) event st.0 st.1 r.cells r.owns r.tail (fresh st.0) in
        (
          st',
          none,
          rw linked refl,
          record {
            cells = r.cells ++ (malloc st.0, event) ∷ [];
            owns = owns;
            tail = tail;
            events =
                map-append (λ c. c.1) r.cells ((malloc st.0, event) ∷ [])
                ∙ ap (λ es. es ++ event ∷ []) r.events;
            shutdown = same ∙ r.shutdown;
          },
          λ rest. refl,
        )

    perform_linked-Refines :
        IsFresh malloc
        → (a : Action) (st : State) (cq : CompletionQueue) → Refines m₀ st cq
        → Steps a st cq
    unfolding Steps perform_linked perform shut_down taken note_event
    perform_linked-Refines fresh (pushes ok event) st cq r = pushes-Refines fresh ok event st cq r
    perform_linked-Refines fresh shuts st cq r = (
      (st.0, record st.1 { shutdown = true }),
      none,
      refl,
      record { cells = r.cells; owns = r.owns; tail = r.tail; events = r.events; shutdown = refl },
      λ rest. refl,
    )
    perform_linked-Refines fresh takes st cq r = takes-Refines st cq r

    -- Where malloc never gives a node that is in use: in every state in which the linked list stands
    -- for a queue, any sequence of pushes, with their nodes allocated or not, shutdowns and takes
    -- runs on the linked list without an access to a node that is not there. It takes the same
    -- events as on the queue, and the linked list then stands for the queue that is left.
    pub perform_linked_all-perform_all :
        IsFresh malloc
        → (as' : List Action) (st : State) (cq : CompletionQueue) → Refines m₀ st cq
        → (st' : State) × (perform_linked_all malloc as' st ≡ returns (st', taken as' cq))
          × Refines m₀ st' (perform_all as' cq)
    unfolding perform_linked_all perform_all taken Steps
    perform_linked_all-perform_all fresh [] st cq r = (st, refl, r)
    perform_linked_all-perform_all fresh (a ∷ as') st cq r =
        let (middle, event, stepped, r', logged) = perform_linked-Refines fresh a st cq r in
        let (last, ran, r'') = perform_linked_all-perform_all fresh as' middle (perform a cq) r' in
        (last, rw (stepped, ran, logged as') refl, r'')

-- From the creation of a queue through any sequence of pushes, shutdowns and takes to its
-- destruction, where malloc never gives a node that is in use: every step returns, with no access
-- to a node that is not there and no node freed twice; the loop of the destruction ends after as
-- many rounds as events are left; and the memory then holds at every address what it held before:
-- no node is leaked.
pub destroy_linked-perform_linked_all :
    (malloc : Memory Event → ℕ) (as' : List Action) (m₀ : Memory Event) (kind : CompletionType)
    → IsFresh malloc
    → (cq : CompletionQueue) × (st : State) × (m : Memory Event) × (events : List Event) × (create
          true kind
        ≡ some cq)
      × (perform_linked_all malloc as' (m₀, linked_empty) ≡ returns (st, events))
      × (destroy_linked (length (perform_all as' cq).events) st ≡ returns m)
      × (events ++ (perform_all as' cq).events ≡ pushed as')
      × ((a : ℕ) → look a m ≡ look a m₀)
unfolding create destroy_linked last_of
destroy_linked-perform_linked_all malloc as' m₀ kind fresh =
    let cq : CompletionQueue = record { kind = kind; events = []; shutdown = false } in
    let at_start : Refines m₀ (m₀, linked_empty) cq = record {
      cells = [];
      owns = Owns-empty m₀;
      tail = refl;
      events = refl;
      shutdown = refl;
    } in
    let (st, ran, r) =
      perform_linked_all-perform_all m₀ malloc fresh as' (m₀, linked_empty) cq at_start in
    let (m, done, same) = free_from_lem m₀ st.0 st.1.head r.cells r.owns in
    let many : length r.cells ≡ length (perform_all as' cq).events =
      sym (length-map (λ c. c.1) r.cells) ∙ ap length r.events in
    (
      cq,
      st,
      m,
      taken as' cq,
      refl,
      ran,
      subst (λ (n : ℕ). free_from n st.1.head st.0 ≡ returns m) many done,
      perform_all_fifo as' cq,
      same,
    )
