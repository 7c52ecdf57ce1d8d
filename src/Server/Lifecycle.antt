-- ===== src/Server/Lifecycle.antt =====
-- The life of a server (src/grpc_server.c): what its calls do to it, one after the other, from
-- grpc_server_create on.
use grpc_c.Common.{
  ℕ, zero, suc, ◌+◌, ◌<◌, ◌≡◌, refl, sym, ap, ◌∙◌, arith, Bool, true, false, Option, none, some,
  List, [], ◌∷◌, ◌++◌, Option-cases, ◌⊎◌, inl, inr, append-nil, All,
}
use mathlib.Core.Path.{subst}
use grpc_c.Common.Int.{ℤ, pos}
use grpc_c.Common.Memory.{Alloc}
use grpc_c.Transport.{returns, fault, ◌>>=◌}
use grpc_c.CompletionQueue.{Event, CompletionQueue, Wait, push_event, next, is_empty, take_event}
use grpc_c.Server.{
  Server, ServerPort, PortCalls, server_create, add_port, register_completion_queue, start,
  create_threads, join_all, join_workers, notify, shutdown_and_notify, server_destroy,
  default_worker_threads, shutdown_done,
}
use grpc_c.Server.Ports.{is_open, Fresh, Held, descriptors, add_port-Held, Held-server_destroy}

-- The server and the sockets that are open.
pub record World : Type 0 where
  pub server : Server
  pub sockets : List ℕ

infix 40 ◌⟶◌ ◌⟶*◌
-- A call that returns.
pub data ◌⟶◌ : World → World → Type 0 where
  adds :
      {w w' : World} {port : ℤ} (calls : PortCalls) (alloc : Alloc) (k : ℕ) (addr : Option (List ℕ))
      → Fresh calls w.sockets
      → add_port calls alloc k w.server w.sockets addr ≡ returns (w'.server, w'.sockets, port)
      → w ⟶ w'
  registers :
      {w : World} (ok : Bool) (cq : Option ℕ)
      → w ⟶ record w { server = register_completion_queue ok w.server cq }
  starts :
      {w : World} {s : Server} (ok : Bool) (created : ℕ → Bool)
      → start ok created w.server ≡ returns s
      → w ⟶ record w { server = s }
  shuts :
      {w : World} {s : Server} {cq' : Option CompletionQueue} (ok : Bool)
      (cq : Option CompletionQueue) (tag : Option ℕ)
      → shutdown_and_notify ok w.server cq tag ≡ returns (s, cq')
      → w ⟶ record w { server = s }

pub data ◌⟶*◌ : World → World → Type 0 where
  here : {w : World} → w ⟶* w
  later : {u v w : World} → u ⟶* v → v ⟶ w → u ⟶* w

register_ports :
    (ok : Bool) (s : Server) (cq : Option ℕ)
    → ((register_completion_queue ok s cq).ports ≡ s.ports)
      × ((register_completion_queue ok s cq).ports_capacity ≡ s.ports_capacity)
      × ((register_completion_queue ok s cq).started ≡ s.started)
unfolding register_completion_queue
register_ports ok s none = (refl, refl, refl)
register_ports ok s (some cq) = ground arith

start_ports :
    (ok : Bool) (created : ℕ → Bool) (s s' : Server)
    → start ok created s ≡ returns s'
    → (s'.ports ≡ s.ports) × (s'.ports_capacity ≡ s.ports_capacity) × (s'.started ≡ true)
unfolding start
start_ports ok created s s' e = ground arith

join_all-cases :
    (threads : List Bool) → (join_all true threads ≡ returns tt) ⊎ (join_all true threads ≡ fault)
unfolding join_all
join_all-cases [] = inl refl
join_all-cases (true ∷ rest) = join_all-cases rest
join_all-cases (false ∷ rest) = inr refl

join_workers-cases :
    (s : Server)
    → s.shutdown_called ≡ true
    → (join_workers s ≡ returns (record s { worker_threads = none })) ⊎ (join_workers s ≡ fault)
unfolding join_workers
join_workers-cases s set = elim (Option-cases s.worker_threads) [
  | inl nobody ↦ inl (rw nobody refl)
  | inr (threads, some_of) ↦ elim (join_all-cases threads) [
    | inl joined ↦ inl (rw (some_of, set, joined) refl)
    | inr lost ↦ inr (rw (some_of, set, lost) refl)
  ]
]

-- What a shutdown that returns has done.
shutdown_result :
    {s' : Server} {cq' : Option CompletionQueue} (ok : Bool) (s : Server)
    (cq : Option CompletionQueue) (tag : Option ℕ)
    → shutdown_and_notify ok s cq tag ≡ returns (s', cq')
    → (s' ≡ record s { shutdown_called = true; worker_threads = none }) × (cq' ≡ notify ok cq tag)
unfolding shutdown_and_notify
shutdown_result {s'} {cq'} ok s cq tag e =
    elim (join_workers-cases (record s { shutdown_called = true }) refl) [
      | inl joined ↦ ground (arith, joined)
      | inr lost ↦ ground (arith, lost)
    ]

start_refused :
    (calls : PortCalls) (alloc : Alloc) (k : ℕ) (s : Server) (sockets : List ℕ)
    (addr : Option (List ℕ))
    → s.started ≡ true
    → add_port calls alloc k s sockets addr ≡ returns (s, sockets, pos 0)
unfolding add_port
start_refused calls alloc k s sockets none h = refl
start_refused calls alloc k s sockets (some addr) h = ground arith

-- A server that cannot grow any more.
step_started :
    {w w' : World}
    → w ⟶ w'
    → w.server.started ≡ true
    → (w'.server.ports ≡ w.server.ports) × (w'.server.started ≡ true) × (w'.sockets ≡ w.sockets)
step_started {w} {w'} (adds calls alloc k addr fresh e) h =
    ground (arith, start_refused calls alloc k w.server w.sockets addr h)
step_started {w} (registers ok cq) h = ground (arith, register_ports ok w.server cq)
step_started {w} (starts {s} ok created e) h = ground (arith, start_ports ok created w.server s e)
step_started {w} (shuts ok cq tag e) h = ground (arith, shutdown_result ok w.server cq tag e)

-- Once a server is started, no sequence of calls changes its ports or the sockets that are open;
-- it stays started.
pub ⟶*-started :
    {w w' : World}
    → w ⟶* w'
    → w.server.started ≡ true
    → (w'.server.ports ≡ w.server.ports) × (w'.server.started ≡ true) × (w'.sockets ≡ w.sockets)
⟶*-started here h = (refl, h, refl)
⟶*-started (later {v} r st) h =
    let before = ⟶*-started r h in
    let now = step_started st before.1 in (now.0 ∙ before.0, now.1, now.2 ∙ before.2)

same_Held :
    {others sockets : List ℕ} {s s' : Server}
    → Held others s sockets
    → s'.ports ≡ s.ports
    → s'.ports_capacity ≡ s.ports_capacity
    → Held others s' sockets
same_Held {others} held same cap = record {
  exactly = held.exactly ∙ ap (λ (ps : List ServerPort). others ++ descriptors ps) (sym same);
  apart =
      subst (λ (ps : List ServerPort). All (λ fd. is_open fd others ≡ false) (descriptors ps))
        (sym same) held.apart;
  fit = rw (same, cap) held.fit;
  room = rw cap held.room;
}

step-Held :
    {others : List ℕ} {w w' : World}
    → w ⟶ w'
    → Held others w.server w.sockets
    → Held others w'.server w'.sockets
step-Held {others} {w} {w'} (adds calls alloc k addr fresh e) held =
    add_port-Held calls alloc k w.server w'.server addr held fresh e
step-Held {others} {w} (registers ok cq) held =
    let kept = register_ports ok w.server cq in same_Held held kept.0 kept.1
step-Held {others} {w} (starts {s} ok created e) held =
    let kept = start_ports ok created w.server s e in same_Held held kept.0 kept.1
step-Held {others} {w} (shuts {s} ok cq tag e) held =
    let done = (shutdown_result ok w.server cq tag e).0 in
    same_Held held (ap (λ (t : Server). t.ports) done) (ap (λ (t : Server). t.ports_capacity) done)

⟶*-Held :
    {others : List ℕ} {w w' : World}
    → w ⟶* w'
    → Held others w.server w.sockets
    → Held others w'.server w'.sockets
⟶*-Held here held = held
⟶*-Held (later r st) held = step-Held st (⟶*-Held r held)

server_create-Held :
    (alloc : Alloc) (k : ℕ) (args : Option ℕ) (s : Server) (others : List ℕ)
    → server_create alloc k args ≡ some s
    → Held others s others
unfolding server_create descriptors
server_create-Held alloc k args s others e =
    let nothing : s.ports ≡ [] = ground arith in
    let four : s.ports_capacity ≡ 4 = ground arith in
    record {
      exactly = rw (nothing, append-nil others) refl;
      apart = rw nothing tt;
      fit = rw (nothing, four) (omega arith);
      room = rw four (omega arith);
    }

-- From the creation of a server, through any sequence of calls that return, in which socket gives
-- descriptors that are not open, to its destruction: then the sockets that are open are those that
-- were open at first, with no socket of a port left and none of others closed.
pub ⟶*-server_destroy :
    {w w' : World} (alloc : Alloc) (k : ℕ) (args : Option ℕ)
    → server_create alloc k args ≡ some w.server
    → w ⟶* w'
    → server_destroy w'.server w'.sockets ≡ w.sockets
⟶*-server_destroy {w} {w'} alloc k args made r =
    Held-server_destroy w'.server
      (⟶*-Held r (server_create-Held alloc k args w.server w.sockets made))

join_all-create_threads :
    (created : ℕ → Bool) (i n : ℕ)
    → ((j : ℕ) → j < i + n → created j ≡ true)
    → join_all true (create_threads created i n) ≡ returns tt
unfolding join_all create_threads
join_all-create_threads created i zero all = refl
join_all-create_threads created i (suc n) all =
    rw (all i (omega arith))
      (join_all-create_threads created (i + 1) n (λ j h. all j (omega arith)))

next-found :
    (cq : CompletionQueue) (ws : List Wait) (e : Event)
    → next (record cq { events = e ∷ [] }) ws ≡ some (record cq { events = [] }, e)
unfolding next is_empty take_event
next-found cq [] e = refl
next-found cq (w ∷ ws) e = refl

-- Where a server that was not started is started with memory for its threads and all of them
-- created, the shutdown with an empty queue and memory for the event returns: the flag is set, the
-- threads are joined and forgotten, the one event in the queue is that of the shutdown with its
-- tag, and next then gives it, whatever happens while it waits.
pub start-shutdown_and_notify :
    (s : Server) (created : ℕ → Bool) (cq : CompletionQueue) (tag : ℕ) (ws : List Wait)
    → s.started ≡ false
    → ((j : ℕ) → j < default_worker_threads → created j ≡ true)
    → cq.events ≡ []
    → ((start true created s >>= λ u. shutdown_and_notify true u (some cq) (some tag))
        ≡ returns (
          record s {
            started = true;
            shutdown_called = true;
            worker_threads = none;
            worker_count = default_worker_threads;
          },
          some (record cq { events = shutdown_done tag ∷ [] }),
        ))
      × (next (record cq { events = shutdown_done tag ∷ [] }) ws
          ≡ some (record cq { events = [] }, shutdown_done tag))
unfolding start shutdown_and_notify join_workers notify push_event
start-shutdown_and_notify s created cq tag ws idle all empty = (
  ground (arith, join_all-create_threads created 0 default_worker_threads all, empty),
  next-found cq ws (shutdown_done tag),
)
