-- ===== src/CompletionQueue/Order.antt =====
-- The order of the events over sequences of operations, and the results of next (src/grpc_core.c).
use grpc_c.Common.{
  ◌≡◌, refl, sym, ap, ◌⊎◌, arith, true, false, ◌&&◌, not, Option, none, some, List, [], ◌∷◌, ◌++◌,
  append_assoc, append-nil, if◌then◌else◌, Bool-cases, List-cases, inl, inr,
}
use mathlib.Core.Path.{subst}
use grpc_c.CompletionQueue.{
  Event, CompletionQueue, Action, pushes, shuts, takes, perform, perform_all, Wait, next,
  take_event, is_empty, timeout_event, shutdown_event,
}

-- The events that the actions push, those lost for want of memory left out.
unfoldable pub pushed : List Action → List Event
pushed [] = []
pushed (pushes ok e ∷ as') = if ok then e ∷ pushed as' else pushed as'
pushed (shuts ∷ as') = pushed as'
pushed (takes ∷ as') = pushed as'

-- The events that the actions take, in order.
unfoldable pub taken : List Action → CompletionQueue → List Event
taken [] cq = []
taken (pushes ok e ∷ as') cq = taken as' (perform (pushes ok e) cq)
taken (shuts ∷ as') cq = taken as' (perform shuts cq)
taken (takes ∷ as') cq =
    let rest = taken as' (perform takes cq) in elim cq.events [ [] ↦ rest | e ∷ es ↦ e ∷ rest ]

-- Whatever the order of pushes, shutdowns and takes, the events taken and then those still in the
-- queue are the events at the start and then those pushed whose node was allocated, in that order:
-- none of them is lost, repeated or overtaken.
pub perform_all_fifo :
    (as' : List Action) (cq : CompletionQueue)
    → taken as' cq ++ (perform_all as' cq).events ≡ cq.events ++ pushed as'
unfolding perform_all perform taken pushed is_empty take_event
perform_all_fifo [] cq = sym (append-nil cq.events)
perform_all_fifo (pushes true e ∷ as') cq = ground (
  arith,
  perform_all_fifo as' (perform (pushes true e) cq),
  append_assoc cq.events (e ∷ []) (pushed as'),
)
perform_all_fifo (pushes false e ∷ as') cq = ground (arith, perform_all_fifo as' cq)
perform_all_fifo (shuts ∷ as') cq = ground (arith, perform_all_fifo as' (perform shuts cq))
perform_all_fifo (takes ∷ as') cq = elim (List-cases cq.events) [
  | inl nothing ↦ ground (arith, nothing, perform_all_fifo as' cq)
  | inr (e, es, eq) ↦ ground (arith, eq, perform_all_fifo as' (record cq { events = es }))
]

-- All that happens during the waits, in order.
unfoldable pub during : List Wait → List Action
during [] = []
during (w ∷ ws) = w.meanwhile ++ during ws

perform_all-append :
    (xs ys : List Action) (cq : CompletionQueue)
    → perform_all (xs ++ ys) cq ≡ perform_all ys (perform_all xs cq)
unfolding perform_all
perform_all-append [] ys cq = refl
perform_all-append (x ∷ xs) ys cq = perform_all-append xs ys (perform x cq)

-- What next gives when it looks at the queue `at`.
abbrev pub Found : CompletionQueue → CompletionQueue × Event → Type 0
Found at r =
    (at.events ≡ r.1 ∷ r.0.events)
    ⊎ ((at.events ≡ []) × (at.shutdown ≡ true) × (r ≡ (at, shutdown_event)))

take_event-Found :
    (at : CompletionQueue)
    → (is_empty at.events && not at.shutdown) ≡ false
    → Found at (take_event at)
unfolding take_event is_empty
take_event-Found at ready = elim (List-cases at.events) [
  | inl nothing ↦ inr (nothing, ground (arith, nothing, ready), ground (arith, nothing))
  | inr (e, es, eq) ↦ inl (ground (arith, eq))
]

-- A queue with nothing to give yet.
abbrev pub Idle : CompletionQueue → Type 0
Idle at = (at.events ≡ []) × (at.shutdown ≡ false)

-- The queue is idle before each of the waits, and none of them times out.
unfoldable pub Waited : CompletionQueue → List Wait → Type 0
Waited cq [] = Unit
Waited cq (w ∷ ws) = Idle cq × (w.timed_out ≡ false) × Waited (perform_all w.meanwhile cq) ws

-- What the others have made of the queue after some waits.
abbrev pub after : List Wait → CompletionQueue → CompletionQueue
after ws cq = perform_all (during ws) cq

-- The result of next, given the waits that it may make: it found something after the waits `seen`,
-- or the wait after them timed out.
abbrev pub Ends : CompletionQueue → List Wait → Option (CompletionQueue × Event) → Type 0
Ends cq ws none = Waited cq ws × Idle (after ws cq)
Ends cq ws (some r) =
    ((seen left : List Wait) × (ws ≡ seen ++ left) × Waited cq seen × Found (after seen cq) r)
    ⊎ ((seen : List Wait) × (w : Wait) × (left : List Wait) × (ws ≡ seen ++ w ∷ left)
        × Waited cq seen
        × Idle (after seen cq)
        × (w.timed_out ≡ true)
        × (r ≡ (perform_all w.meanwhile (after seen cq), timeout_event)))

is_empty-Idle : (cq : CompletionQueue) → (is_empty cq.events && not cq.shutdown) ≡ true → Idle cq
unfolding is_empty
is_empty-Idle cq waits = (ground (arith, waits, List-cases cq.events), ground (arith, waits))

Ends-again :
    (cq : CompletionQueue) (w : Wait) (ws : List Wait) (r : Option (CompletionQueue × Event))
    → Idle cq
    → w.timed_out ≡ false
    → Ends (perform_all w.meanwhile cq) ws r
    → Ends cq (w ∷ ws) r
unfolding during Waited
Ends-again cq w ws none idle on (waited, last) =
    ((idle, on, waited), rw (perform_all-append w.meanwhile (during ws) cq) last)
Ends-again cq w ws (some r) idle on (inl (seen, left, split, waited, found)) = inl (
  w ∷ seen,
  left,
  ap (◌∷◌ w) split,
  (idle, on, waited),
  rw (perform_all-append w.meanwhile (during seen) cq) found,
)
Ends-again cq w ws (some r) idle on (inr (seen, v, left, split, waited, last, late, result)) = inr (
  w ∷ seen,
  v,
  left,
  ap (◌∷◌ w) split,
  (idle, on, waited),
  rw (perform_all-append w.meanwhile (during seen) cq) last,
  late,
  rw (perform_all-append w.meanwhile (during seen) cq) result,
)

-- next returns as soon as it sees an event, a shutdown or a timeout. Before each wait that it makes
-- the queue is empty and not shut down, and none of its waits but the last has timed out; it goes
-- on waiting only if no wait timed out and the queue is still so after them all. When it returns
-- after a wait that timed out, the result is the timeout event, whatever the queue is by then.
-- Otherwise the result is the first event of the queue at that time, which it takes, or, for an
-- empty queue that is shut down, the shutdown event. Timeout and shutdown change nothing.
pub next-Ends : (cq : CompletionQueue) (ws : List Wait) → Ends cq ws (next cq ws)
unfolding next during perform_all Waited
next-Ends cq [] = elim (Bool-cases (is_empty cq.events && not cq.shutdown)) [
  | inl waits ↦ rw (next, waits) (tt, is_empty-Idle cq waits)
  | inr ready ↦ rw (next, ready) (inl ([], [], refl, tt, take_event-Found cq ready))
]
next-Ends cq (w ∷ ws) = elim (Bool-cases (is_empty cq.events && not cq.shutdown)) [
  | inr ready ↦ rw (next, ready) (inl ([], w ∷ ws, refl, tt, take_event-Found cq ready))
  | inl waits ↦ elim (Bool-cases w.timed_out) [
    | inl late ↦
        let timed : next cq (w ∷ ws) ≡ some (perform_all w.meanwhile cq, timeout_event) =
          ground (arith, waits, late) in
        subst (Ends cq (w ∷ ws)) (sym timed)
          (inr ([], w, ws, refl, tt, is_empty-Idle cq waits, late, refl))
    | inr on ↦
        let later : CompletionQueue = perform_all w.meanwhile cq in
        let again : next cq (w ∷ ws) ≡ next later ws = ground (arith, waits, on) in
        subst (Ends cq (w ∷ ws)) (sym again)
          (Ends-again cq w ws (next later ws) (is_empty-Idle cq waits) on (next-Ends later ws))
  ]
]
