-- ===== src/CompletionQueue/Linked.antt =====
-- The completion queue as its linked list in memory (src/grpc_core.c): the head and the tail
-- pointer, and what pushes, takes and the destruction do to the nodes. The lock is held wherever
-- the list is touched, so that the operations come one after the other.
pub mod Refines
pub mod Life
mod Tests
use grpc_c.Common.{
  ℕ, zero, suc, Bool, true, false, Option, none, some, List, [], ◌∷◌, if◌then◌else◌,
}
use grpc_c.Transport.{Run, returns, deadlock, ◌>>=◌}
use grpc_c.Nodes.{Node, Memory, store, load, free, set_next, free_from, malloc_if}
use grpc_c.CompletionQueue.{Event, Action, pushes, shuts, takes}

pub record LinkedQueue : Type 0 where
  pub head : Option ℕ
  pub tail : Option ℕ
  pub shutdown : Bool

abbrev pub State : Type 0
State = Memory Event × LinkedQueue

-- As grpc_completion_queue_create leaves it.
abbrev pub linked_empty : LinkedQueue
linked_empty = record { head = none; tail = none; shutdown = false }

-- Behind the tail, or as the head if there is no tail.
unfoldable pub link_node : ℕ → State → Run State
unfolding set_next
link_node p (m, q) = elim q.tail [
  | none ↦ returns (m, record q { head = some p; tail = some p })
  | some t ↦ (set_next t p m >>= λ m'. returns (m', record q { tail = some p }))
]

-- `at` is what malloc gives for the node.
unfoldable pub push_linked : Option ℕ → Event → State → Run State
unfolding link_node
push_linked none event (m, q) = returns (m, q)
push_linked (some p) event (m, q) =
    link_node p (store p (some (record { item = event; next = none })) m, q)

-- tail = NULL once there is no head.
unfoldable pub reset_tail : LinkedQueue → LinkedQueue
reset_tail q = elim q.head [ none ↦ record q { tail = none } | some p ↦ q ]

-- The end of grpc_completion_queue_next, with an event if there is one.
unfoldable pub take_linked : State → Run (State × Option Event)
unfolding load free reset_tail
take_linked (m, q) = elim q.head [
  | none ↦ returns ((m, q), none)
  | some p ↦
      (load p m >>= λ ev.
      free p m >>= λ m'. returns ((m', reset_tail (record q { head = ev.next })), some ev.item))
]

unfoldable pub note_event : Option Event → List Event → List Event
note_event none events = events
note_event (some event) events = event ∷ events

-- What a thread does, with the event that it takes. `malloc` gives the address of a node.
unfoldable pub perform_linked : (Memory Event → ℕ) → Action → State → Run (State × Option Event)
unfolding push_linked take_linked malloc_if
perform_linked malloc (pushes ok event) (m, q) =
    (push_linked (malloc_if ok (malloc m)) event (m, q) >>= λ st. returns (st, none))
perform_linked malloc shuts (m, q) = returns ((m, record q { shutdown = true }), none)
perform_linked malloc takes (m, q) = take_linked (m, q)

-- The actions one after the other, with the events that they take.
unfoldable pub perform_linked_all :
    (Memory Event → ℕ) → List Action → State → Run (State × List Event)
unfolding perform_linked note_event
perform_linked_all malloc [] st = returns (st, [])
perform_linked_all malloc (a ∷ as') st =
    (perform_linked malloc a st >>= λ (st', event).
    perform_linked_all malloc as' st' >>= λ (last, events). returns (last, note_event event events))

-- The rest of grpc_completion_queue_destroy frees the queue.
unfoldable pub destroy_linked : ℕ → State → Run (Memory Event)
unfolding free_from
destroy_linked rounds (m, q) = free_from rounds q.head m
