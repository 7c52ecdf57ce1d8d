-- ===== src/Server.antt =====
-- The server (src/grpc_server.c): its ports, its completion queues and its worker threads. The
-- sockets that are open are a list of their descriptors, passed on by the operations that open and
-- close them.
pub mod Ports
pub mod Success
pub mod Lifecycle
pub mod Worker
mod Tests
use grpc_c.Common.{
  ℕ, zero, suc, ◌+◌, ◌*◌, ◌%◌, ◌^◌, ◌||◌, Bool, true, false, Option, none, some, List, [], ◌∷◌,
  ◌++◌, length, leb, ◌==◌, if◌then◌else◌,
}
use grpc_c.Common.Int.{ℤ, pos}
use grpc_c.Common.Words.{u32_of}
use grpc_c.Common.Memory.{Alloc, same_string}
use grpc_c.Common.Fallible.{Status, success, failure}
use grpc_c.Transport.{Run, returns, deadlock, fault, ◌>>=◌}
use grpc_c.Targets.{split_colon, atoi, default_port}
use grpc_c.CompletionQueue.{Event, CompletionQueue, push_event}

-- The address a socket is bound to, with its port in the order of the host.
pub record SockAddr : Type 0 where
  pub sin_addr : ℕ
  pub sin_port : ℕ

-- The credentials of a port are always NULL.
pub record ServerPort : Type 0 where
  pub socket_fd : ℕ
  pub addr : SockAddr

-- A queue is known by its address. `worker_threads` is NULL or says of each thread whether it was
-- created.
pub record Server : Type 0 where
  pub args : Option ℕ
  pub ports : List ServerPort
  pub ports_capacity : ℕ
  pub cqs : List ℕ
  pub cqs_capacity : ℕ
  pub started : Bool
  pub shutdown_called : Bool
  pub worker_threads : Option (List Bool)
  pub worker_count : ℕ

-- The heap requests are for the server and its two arrays.
unfoldable pub server_create : Alloc → ℕ → Option ℕ → Option Server
server_create alloc k args =
    let made : Server = record {
      args = args;
      ports = [];
      ports_capacity = 4;
      cqs = [];
      cqs_capacity = 4;
      started = false;
      shutdown_called = false;
      worker_threads = none;
      worker_count = 0;
    } in
    if alloc k
    then (if alloc (k + 1) then (if alloc (k + 2) then some made else none) else none)
    else none

-- What the system answers while a port is added: the descriptor of socket or -1, and whether bind
-- and listen succeed. inet_pton gives an address or fails.
pub record PortCalls : Type 0 where
  pub socket : Option ℕ
  pub bind_ok : Bool
  pub listen_ok : Bool
  pub inet_pton : List ℕ → Option ℕ

-- "0.0.0.0" and "[::]"
abbrev any_hosts : List ℕ → Bool
any_hosts host =
    same_string host (48 ∷ 46 ∷ 48 ∷ 46 ∷ 48 ∷ 46 ∷ 48 ∷ [])
    || same_string host (91 ∷ 58 ∷ 58 ∷ 93 ∷ [])

-- INADDR_ANY is 0, and so is the address that memset leaves where inet_pton fails.
unfoldable pub host_addr : (List ℕ → Option ℕ) → List ℕ → ℕ
host_addr inet_pton host =
    if any_hosts host then 0 else (elim (inet_pton host) [ none ↦ 0 | some a ↦ a ])

-- htons takes a uint16_t.
unfoldable pub port_number : ℤ → ℕ
unfolding u32_of
port_number port = u32_of port % 2 ^ 16

unfoldable pub host_and_port : List ℕ → List ℕ × ℤ
unfolding split_colon atoi
host_and_port addr = elim (split_colon addr) [
  | none ↦ (addr, pos default_port)
  | some (host, rest) ↦ (host, atoi rest)
]

-- close: the descriptor leaves the list.
unfoldable pub close_socket : ℕ → List ℕ → List ℕ
close_socket fd [] = []
close_socket fd (x ∷ xs) = if x == fd then xs else x ∷ close_socket fd xs

-- The growth of the array of ports where it is full, and the new port behind the others.
unfoldable pub append_port : Bool → Server → ServerPort → Option Server
append_port ok s p =
    let grown : Server = record s { ports_capacity = s.ports_capacity * 2 } in
    let linked : Server = record s { ports = s.ports ++ p ∷ [] } in
    if leb s.ports_capacity (length s.ports)
    then (if ok then some (record grown { ports = s.ports ++ p ∷ [] }) else none)
    else some linked

-- From the socket on. `ok` is the heap request for the array.
unfoldable pub open_port : PortCalls → Bool → Server → List ℕ → List ℕ × ℤ → Server × List ℕ × ℤ
unfolding append_port close_socket host_addr port_number
open_port calls ok s sockets (host, port) = elim calls.socket [
  | none ↦ (s, sockets, pos 0)
  | some fd ↦
      let held : List ℕ = sockets ++ fd ∷ [] in
      let p : ServerPort = record {
        socket_fd = fd;
        addr = record { sin_addr = host_addr calls.inet_pton host; sin_port = port_number port };
      } in
      let added : Server × List ℕ × ℤ = elim (append_port ok s p) [
        | none ↦ (s, close_socket fd held, pos 0)
        | some s' ↦ (s', held, port)
      ] in
      if calls.bind_ok
      then (if calls.listen_ok then added else (s, close_socket fd held, pos 0))
      else (s, close_socket fd held, pos 0)
]

-- grpc_server_add_insecure_http2_port. strchr is called on the copy of the address even where that
-- is NULL; the requests are for the copy and for the array.
unfoldable pub add_port :
    PortCalls → Alloc → ℕ → Server → List ℕ → Option (List ℕ) → Run (Server × List ℕ × ℤ)
unfolding open_port host_and_port
add_port calls alloc k s sockets none = returns (s, sockets, pos 0)
add_port calls alloc k s sockets (some addr) =
    if s.started
    then returns (s, sockets, pos 0)
    else if alloc k
    then returns (open_port calls (alloc (k + 1)) s sockets (host_and_port addr))
    else fault

-- The credentials are not looked at.
unfoldable pub add_secure_port :
    PortCalls → Alloc → ℕ → Server → List ℕ → Option (List ℕ) → Option ℕ → Run (Server × List ℕ × ℤ)
unfolding add_port
add_secure_port calls alloc k s sockets addr creds = add_port calls alloc k s sockets addr

-- `ok` is the heap request for the array. The queue is dropped if it fails.
unfoldable pub register_completion_queue : Bool → Server → Option ℕ → Server
register_completion_queue ok s none = s
register_completion_queue ok s (some cq) =
    if leb s.cqs_capacity (length s.cqs)
    then (if ok then record s { cqs = s.cqs ++ cq ∷ []; cqs_capacity = s.cqs_capacity * 2 } else s)
    else record s { cqs = s.cqs ++ cq ∷ [] }

abbrev pub default_worker_threads : ℕ
default_worker_threads = 4

-- The i-th call of pthread_create, from `i` on.
unfoldable pub create_threads : (ℕ → Bool) → ℕ → ℕ → List Bool
create_threads created i zero = []
create_threads created i (suc n) = created i ∷ create_threads created (i + 1) n

-- `ok` is the heap request for the array of threads, which is used without a test.
unfoldable pub start : Bool → (ℕ → Bool) → Server → Run Server
unfolding create_threads
start ok created s =
    if s.started
    then returns s
    else if ok
    then returns (record s {
      started = true;
      worker_count = default_worker_threads;
      worker_threads = some (create_threads created 0 default_worker_threads);
    })
    else fault

-- pthread_join on each thread; one that was never created is no thread to join. A worker ends only
-- once `stop`, the flag shutdown_called, is set: until then the join waits for it for ever.
unfoldable pub join_all : Bool → List Bool → Run (Unit {0})
join_all stop [] = returns tt
join_all true (true ∷ rest) = join_all true rest
join_all false (true ∷ rest) = deadlock
join_all stop (false ∷ rest) = fault

unfoldable pub join_workers : Server → Run Server
unfolding join_all
join_workers s = elim s.worker_threads [
  | none ↦ returns s
  | some threads ↦
      (join_all s.shutdown_called threads >>= λ u. returns (record s { worker_threads = none }))
]

-- grpc_server_request_call, which only looks at the two pointers.
unfoldable pub request_call : Option ℕ → Option ℕ → Status
request_call none cq = failure
request_call (some call) none = failure
request_call (some call) (some cq) = success

-- The event of a shutdown.
abbrev pub shutdown_done : ℕ → Event
shutdown_done tag = record { kind = pos 1; success = true; tag = tag }

-- The queue and the tag may be NULL; `ok` is the heap request for the event.
unfoldable pub notify : Bool → Option CompletionQueue → Option ℕ → Option CompletionQueue
unfolding push_event
notify ok none tag = none
notify ok (some cq) none = some cq
notify ok (some cq) (some tag) = some (push_event ok cq (shutdown_done tag))

unfoldable pub shutdown_and_notify :
    Bool → Server → Option CompletionQueue → Option ℕ → Run (Server × Option CompletionQueue)
unfolding join_workers notify
shutdown_and_notify ok s cq tag =
    join_workers (record s { shutdown_called = true }) >>= λ s'. returns (s', notify ok cq tag)

-- The sockets of the ports are closed; a descriptor is not below 0.
unfoldable pub close_ports : List ServerPort → List ℕ → List ℕ
unfolding close_socket
close_ports [] sockets = sockets
close_ports (p ∷ ps) sockets = close_ports ps (close_socket p.socket_fd sockets)

-- grpc_server_destroy; the rest of it frees the server.
unfoldable pub server_destroy : Server → List ℕ → List ℕ
unfolding close_ports
server_destroy s sockets = close_ports s.ports sockets
