-- ===== src/CompletionQueue/Tests.antt =====
-- Runs of the completion queue (src/grpc_core.c), and its theorems at concrete inputs.
use grpc_c.Common.{ℕ, ◌≡◌, refl, true, false, some, List, [], ◌∷◌}
use grpc_c.Common.Int.{pos}
use grpc_c.CompletionQueue.{
  Event, CompletionQueue, cq_next, Action, pushes, shuts, takes, Wait, perform, perform_all, next,
  shutdown_event,
}
use grpc_c.CompletionQueue.Order.{Ends, next-Ends}

abbrev event : ℕ → Event
event t = record { kind = pos 2; success = true; tag = t }

abbrev queue : CompletionQueue
queue = record { kind = cq_next; events = event 1 ∷ []; shutdown = false }

abbrev actions : List Action
actions =
    pushes true (event 2) ∷ takes ∷ pushes false (event 3) ∷ shuts ∷ pushes true (event 4) ∷ []

abbrev empty_queue : CompletionQueue
empty_queue = record { kind = cq_next; events = []; shutdown = false }

-- A spurious wake-up, and then a shutdown.
abbrev waits : List Wait
waits =
    record { meanwhile = []; timed_out = false }
    ∷ record { meanwhile = shuts ∷ []; timed_out = false }
    ∷ []

next_shut_down :
    next empty_queue waits ≡ some (record empty_queue { shutdown = true }, shutdown_event)
unfolding next perform_all perform
next_shut_down = refl

next-Ends_example : Ends empty_queue waits (next empty_queue waits)
next-Ends_example = next-Ends empty_queue waits
