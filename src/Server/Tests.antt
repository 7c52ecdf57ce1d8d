-- ===== src/Server/Tests.antt =====
-- A server with one port and its four threads (src/grpc_server.c).
use grpc_c.Common.{
  ◌++◌, All, ◌≢◌, ℕ, ◌≡◌, refl, arith, true, false, none, some, List, [], ◌∷◌, leb, ◌==◌,
  if◌then◌else◌,
}
use grpc_c.Common.Int.{pos}
use grpc_c.Common.Memory.{same_string}
use grpc_c.Transport.{returns, ◌>>=◌}
use grpc_c.CompletionQueue.{CompletionQueue, cq_next, next}
use grpc_c.Server.{
  host_addr, Server, ServerPort, PortCalls, server_create, add_port, start, shutdown_and_notify,
  shutdown_done, server_destroy,
}
use grpc_c.Targets.{colon}
use grpc_c.Targets.Decimal.{decimal}
use grpc_c.Server.Success.{add_port-decimal}
use grpc_c.Server.Ports.{Fresh, Held, is_open, descriptors}
use grpc_c.Server.Lifecycle.{
  World, ◌⟶*◌, adds, starts, here, later, ⟶*-server_destroy, start-shutdown_and_notify,
}
use grpc_c.Server.Worker.{Network, NewClients, worker_loop, worker_loop-ends}

abbrev empty_server : Server
empty_server = record {
  args = none;
  ports = [];
  ports_capacity = 4;
  cqs = [];
  cqs_capacity = 4;
  started = false;
  shutdown_called = false;
  worker_threads = none;
  worker_count = 0;
}

-- "0.0.0.0:80"
abbrev address : List ℕ
address = 48 ∷ 46 ∷ 48 ∷ 46 ∷ 48 ∷ 46 ∷ 48 ∷ 58 ∷ 56 ∷ 48 ∷ []

abbrev calls : PortCalls
calls = record { socket = some 7; bind_ok = true; listen_ok = true; inet_pton = λ h. none }

abbrev web_port : ServerPort
web_port = record { socket_fd = 7; addr = record { sin_addr = 0; sin_port = 80 } }

abbrev one_port : Server
one_port = record empty_server { ports = web_port ∷ [] }

abbrev started_server : Server
started_server = record one_port {
  started = true;
  worker_count = 4;
  worker_threads = some (true ∷ true ∷ true ∷ true ∷ []);
}

port_added :
    add_port calls (λ k. true) 0 empty_server (3 ∷ []) (some address)
    ≡ returns (one_port, 3 ∷ 7 ∷ [], pos 80)
unfolding add_port same_string
port_added = refl

fresh : Fresh calls (3 ∷ [])
unfolding is_open
fresh fd got = ground arith

empty_Held : Held (3 ∷ []) empty_server (3 ∷ [])
unfolding descriptors
empty_Held = record { exactly = refl; apart = tt; fit = omega arith; room = omega arith }

created : server_create (λ k. true) 0 none ≡ some empty_server
unfolding server_create
created = refl

all_started : start true (λ i. true) one_port ≡ returns started_server
unfolding start
all_started = refl

abbrev world : Server → List ℕ → World
world s sockets = record { server = s; sockets = sockets }

life : world empty_server (3 ∷ []) ⟶* world started_server (3 ∷ 7 ∷ [])
life =
    later (later here (adds calls (λ k. true) 0 (some address) fresh port_added))
      (starts true (λ i. true) all_started)

⟶*-server_destroy_example : server_destroy started_server (3 ∷ 7 ∷ []) ≡ 3 ∷ []
⟶*-server_destroy_example = ⟶*-server_destroy (λ k. true) 0 none created life

again : start true (λ i. true) started_server ≡ returns started_server
unfolding start
again = refl

abbrev queue : CompletionQueue
queue = record { kind = cq_next; events = []; shutdown = false }

start-shutdown_and_notify_example :
    ((start true (λ i. true) one_port >>= λ u. shutdown_and_notify true u (some queue) (some 9))
      ≡ returns (
        record one_port {
          started = true;
          shutdown_called = true;
          worker_threads = none;
          worker_count = 4;
        },
        some (record queue { events = shutdown_done 9 ∷ [] }),
      ))
    × (next (record queue { events = shutdown_done 9 ∷ [] }) [] ≡ some (queue, shutdown_done 9))
start-shutdown_and_notify_example =
    start-shutdown_and_notify one_port (λ i. true) queue 9 [] refl (λ j h. refl) refl

abbrev clients : Network
clients n = if n == 0 then some 9 else none

new : NewClients clients (3 ∷ 7 ∷ [])
unfolding is_open
new n client came = ground arith

worker_loop-ends_example :
    worker_loop 5 (leb 2) 0 clients 0 one_port (3 ∷ 7 ∷ []) ≡ some (3 ∷ 7 ∷ [], 2)
worker_loop-ends_example =
    worker_loop-ends 2 5 (leb 2) 0 clients 0 one_port (3 ∷ 7 ∷ []) new (λ j h. ground arith) refl
      (omega arith)

-- "0.0.0.0"
abbrev host : List ℕ
host = 48 ∷ 46 ∷ 48 ∷ 46 ∷ 48 ∷ 46 ∷ 48 ∷ []

plain : All (λ c. c ≢ colon) host
plain = ground arith

add_port-decimal_example :
    (s' : Server) × (add_port calls
        (λ i. true)
        0
        empty_server
        (3 ∷ [])
        (some (host ++ colon ∷ decimal 80))
      ≡ returns (s', 3 ∷ 7 ∷ [], pos 80))
    × (s'.ports
        ≡ (record {
          socket_fd = 7;
          addr = record { sin_addr = host_addr calls.inet_pton host; sin_port = 80 };
        })
          ∷ [])
add_port-decimal_example =
    add_port-decimal calls (λ i. true) 0 empty_server (3 ∷ []) host 80 7 refl (λ i. refl) refl refl
      refl (omega arith) plain
