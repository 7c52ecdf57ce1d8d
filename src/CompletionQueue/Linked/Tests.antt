-- ===== src/CompletionQueue/Linked/Tests.antt =====
-- Runs of the linked list of the completion queue (src/grpc_core.c), and its theorems at concrete
-- inputs.
use grpc_c.Common.{ℕ, ◌≡◌, refl, true, false, some, List, [], ◌∷◌, ◌++◌, length}
use grpc_c.Common.Int.{pos}
use grpc_c.Transport.{returns}
use grpc_c.Nodes.{Memory, look}
use grpc_c.Nodes.Above.{above, above-IsFresh}
use grpc_c.CompletionQueue.{
  Event, CompletionQueue, cq_next, Action, pushes, shuts, takes, create, perform_all,
}
use grpc_c.CompletionQueue.Order.{pushed}
use grpc_c.CompletionQueue.Linked.{State, linked_empty, perform_linked_all, destroy_linked}
use grpc_c.CompletionQueue.Linked.Life.{destroy_linked-perform_linked_all}

abbrev event : ℕ → Event
event t = record { kind = pos 2; success = true; tag = t }

abbrev actions : List Action
actions =
    takes
    ∷ pushes true (event 1)
    ∷ takes
    ∷ pushes true (event 2)
    ∷ pushes false (event 3)
    ∷ pushes true (event 4)
    ∷ shuts
    ∷ takes
    ∷ []

-- After the only event was taken the next push starts a new list.
taken_in_order :
    (st : State) × (perform_linked_all above actions ([], linked_empty)
      ≡ returns (st, event 1 ∷ event 2 ∷ []))
unfolding perform_linked_all
taken_in_order = (_, refl)

destroy_linked-perform_linked_all_example :
    (cq : CompletionQueue) × (st : State) × (m : Memory Event) × (events : List Event) × (create
        true cq_next
      ≡ some cq)
    × (perform_linked_all above actions ([], linked_empty) ≡ returns (st, events))
    × (destroy_linked (length (perform_all actions cq).events) st ≡ returns m)
    × (events ++ (perform_all actions cq).events ≡ pushed actions)
    × ((a : ℕ) → look a m ≡ look a [])
destroy_linked-perform_linked_all_example =
    destroy_linked-perform_linked_all above actions [] cq_next above-IsFresh
