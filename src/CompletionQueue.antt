-- ===== src/CompletionQueue.antt =====
-- The completion queue (src/grpc_core.c). The linked list from head to tail is a list. What the
-- other threads do while grpc_completion_queue_next waits is a list of actions for each return of
-- the wait.
pub mod Linked
pub mod Order
pub mod Deadline
mod Tests
use grpc_c.Common.{
  ℕ, Bool, true, false, ◌&&◌, not, Option, none, some, List, [], ◌∷◌, ◌++◌, if◌then◌else◌,
}
use grpc_c.Common.Int.{ℤ, pos}

pub data CompletionType : Type 0 where
  cq_next cq_pluck : CompletionType

-- grpc_event; a tag is an address.
pub record Event : Type 0 where
  pub kind : ℤ
  pub success : Bool
  pub tag : ℕ

pub record CompletionQueue : Type 0 where
  pub kind : CompletionType
  pub events : List Event
  pub shutdown : Bool

unfoldable pub create : Bool → CompletionType → Option CompletionQueue
create ok kind = if ok then some (record { kind = kind; events = []; shutdown = false }) else none

-- The event is lost if its node cannot be allocated.
unfoldable pub push_event : Bool → CompletionQueue → Event → CompletionQueue
push_event ok cq event = if ok then record cq { events = cq.events ++ event ∷ [] } else cq

unfoldable pub shut_down : CompletionQueue → CompletionQueue
shut_down cq = record cq { shutdown = true }

unfoldable pub is_empty : List Event → Bool
is_empty [] = true
is_empty (e ∷ es) = false

abbrev pub timeout_event : Event
timeout_event = record { kind = pos 0; success = false; tag = 0 }

abbrev pub shutdown_event : Event
shutdown_event = record { kind = pos 1; success = false; tag = 0 }

-- The end of grpc_completion_queue_next, once it need not wait.
unfoldable pub take_event : CompletionQueue → CompletionQueue × Event
take_event cq = elim cq.events [
  | [] ↦ (cq, shutdown_event)
  | e ∷ es ↦ (record cq { events = es }, e)
]

-- What another thread does: a push, a shutdown, or a next that finds an event.
pub data Action : Type 0 where
  pushes : Bool → Event → Action
  shuts : Action
  takes : Action

unfoldable pub perform : Action → CompletionQueue → CompletionQueue
unfolding push_event shut_down take_event
perform (pushes ok e) cq = push_event ok cq e
perform shuts cq = shut_down cq
perform takes cq = if is_empty cq.events then cq else (take_event cq).0

unfoldable pub perform_all : List Action → CompletionQueue → CompletionQueue
perform_all [] cq = cq
perform_all (a ∷ as') cq = perform_all as' (perform a cq)

-- A return of pthread_cond_timedwait: what happened before it, and whether its result is not 0.
pub record Wait : Type 0 where
  pub meanwhile : List Action
  pub timed_out : Bool

-- `none` while it still waits when the waits given are over.
unfoldable pub next : CompletionQueue → List Wait → Option (CompletionQueue × Event)
unfolding is_empty take_event
next cq [] = if is_empty cq.events && not cq.shutdown then none else some (take_event cq)
next cq (w ∷ ws) =
    let later = perform_all w.meanwhile cq in
    let again = next later ws in
    if is_empty cq.events && not cq.shutdown
    then (if w.timed_out then some (later, timeout_event) else again)
    else some (take_event cq)
