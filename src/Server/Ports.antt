-- ===== src/Server/Ports.antt =====
-- Which sockets are open while ports are added, and after grpc_server_destroy (src/grpc_server.c).
use grpc_c.Common.{
  All-snoc, ℕ, ◌+◌, ◌≤◌, ◌≡◌, refl, sym, ap, ◌∙◌, arith, inl, inr, Bool, false, ◌||◌, Option, none,
  some, List, [], ◌∷◌, ◌++◌, length, ◌==◌, Bool-cases, Option-cases, length-append, append_assoc,
  append-nil, All,
}
use grpc_c.Common.Int.{ℤ}
use grpc_c.Common.Memory.{Alloc}
use mathlib.Core.Path.{subst}
use grpc_c.Transport.{returns}
use grpc_c.Server.{
  Server, ServerPort, PortCalls, host_addr, port_number, append_port, open_port, add_port,
  close_socket, close_ports, server_destroy, host_and_port,
}

unfoldable pub is_open : ℕ → List ℕ → Bool
is_open fd [] = false
is_open fd (x ∷ xs) = (x == fd) || is_open fd xs

unfoldable pub descriptors : List ServerPort → List ℕ
descriptors [] = []
descriptors (p ∷ ps) = p.socket_fd ∷ descriptors ps

-- socket answers a descriptor that is not open.
abbrev pub Fresh : PortCalls → List ℕ → Type 0
Fresh calls sockets = (fd : ℕ) → calls.socket ≡ some fd → is_open fd sockets ≡ false

-- The open sockets are those of others and, behind them, one for each port; the ports fit in their
-- array.
pub record Held (others : List ℕ) (s : Server) (sockets : List ℕ) : Type 0 where
  pub exactly : sockets ≡ others ++ descriptors s.ports
  pub apart : All (λ fd. is_open fd others ≡ false) (descriptors s.ports)
  pub fit : length s.ports ≤ s.ports_capacity
  pub room : 1 ≤ s.ports_capacity

-- A descriptor behind others is the one that close removes.
pub close_socket-append :
    (fd : ℕ) (xs ys : List ℕ) → is_open fd xs ≡ false → close_socket fd (xs ++ fd ∷ ys) ≡ xs ++ ys
unfolding close_socket is_open
close_socket-append fd [] ys h = ground arith
close_socket-append fd (x ∷ xs) ys h = ground (arith, close_socket-append fd xs ys)

is_open-append : (fd : ℕ) (xs ys : List ℕ) → is_open fd (xs ++ ys) ≡ false → is_open fd xs ≡ false
unfolding is_open
is_open-append fd [] ys h = refl
is_open-append fd (x ∷ xs) ys h = ground (arith, is_open-append fd xs ys)

descriptors-append :
    (ps qs : List ServerPort) → descriptors (ps ++ qs) ≡ descriptors ps ++ descriptors qs
unfolding descriptors
descriptors-append [] qs = refl
descriptors-append (p ∷ ps) qs = ap (◌∷◌ p.socket_fd) (descriptors-append ps qs)

append_port-ports :
    (ok : Bool) (s s' : Server) (p : ServerPort)
    → append_port ok s p ≡ some s'
    → s'.ports ≡ s.ports ++ p ∷ []
unfolding append_port
append_port-ports ok s s' p e = ground arith

-- A port put behind the others keeps the books, whether the array grew or not.
append_port-Held :
    {others sockets : List ℕ} (ok : Bool) (s s' : Server) (p : ServerPort)
    → Held others s sockets
    → is_open p.socket_fd sockets ≡ false
    → append_port ok s p ≡ some s'
    → Held others s' (sockets ++ p.socket_fd ∷ [])
unfolding append_port descriptors
append_port-Held {others} {sockets} ok s s' p held free e =
    let listed : descriptors s'.ports ≡ descriptors s.ports ++ p.socket_fd ∷ [] =
      ap descriptors (append_port-ports ok s s' p e) ∙ descriptors-append s.ports (p ∷ []) in
    record {
      exactly =
          ap (λ (l : List ℕ). l ++ p.socket_fd ∷ []) held.exactly
          ∙ (append_assoc others (descriptors s.ports) (p.socket_fd ∷ [])
              ∙ ap (λ (l : List ℕ). others ++ l) (sym listed));
      apart = subst (All (λ fd. is_open fd others ≡ false)) (sym listed) (
          All-snoc (λ fd. is_open fd others ≡ false) (descriptors s.ports) held.apart
            (is_open-append p.socket_fd others (descriptors s.ports)
              (subst (λ (l : List ℕ). is_open p.socket_fd l ≡ false) held.exactly free)));
      fit = ground (arith, length-append s.ports (p ∷ []), held.fit, held.room);
      room = ground (arith, held.room);
    }

-- The socket of a port that is not added is closed again.
closed_again :
    (fd : ℕ) (sockets : List ℕ)
    → is_open fd sockets ≡ false
    → close_socket fd (sockets ++ fd ∷ []) ≡ sockets
closed_again fd sockets free = close_socket-append fd sockets [] free ∙ append-nil sockets

-- What open_port may do to the server and the sockets.
data Opened (s : Server) (sockets : List ℕ) : Server → List ℕ → Type 0 where
  refused : Opened s sockets s sockets
  listening :
      {s' : Server} (ok : Bool) (p : ServerPort)
      → is_open p.socket_fd sockets ≡ false
      → append_port ok s p ≡ some s'
      → Opened s sockets s' (sockets ++ p.socket_fd ∷ [])

open_port-Opened :
    (calls : PortCalls) (ok : Bool) (s : Server) (sockets : List ℕ) (at' : List ℕ × ℤ)
    → Fresh calls sockets
    → Opened s sockets (open_port calls ok s sockets at').0 (open_port calls ok s sockets at').1
unfolding open_port
open_port-Opened calls ok s sockets (host, port) fresh = elim (Option-cases calls.socket) [
  | inl none_left ↦ rw none_left refused
  | inr (fd, got) ↦
      let shut = closed_again fd sockets (fresh fd got) in
      elim (Bool-cases calls.bind_ok) [
        | inl bound ↦ elim (Bool-cases calls.listen_ok) [
          | inl heard ↦
              let p : ServerPort = record {
                socket_fd = fd;
                addr = record {
                  sin_addr = host_addr calls.inet_pton host;
                  sin_port = port_number port;
                };
              } in
              elim (Option-cases (append_port ok s p)) [
                | inl full ↦ rw (got, bound, heard, full, shut) refused
                | inr (s', added) ↦
                    rw (got, bound, heard, added) (listening ok p (fresh fd got) added)
              ]
          | inr deaf ↦ rw (got, bound, deaf, shut) refused
        ]
        | inr unbound ↦ rw (got, unbound, shut) refused
      ]
]

Opened-Held :
    {others sockets sockets' : List ℕ} {s s' : Server}
    → Held others s sockets
    → Opened s sockets s' sockets'
    → Held others s' sockets'
Opened-Held held refused = held
Opened-Held {s} {s'} held (listening ok p free added) = append_port-Held ok s s' p held free added

-- A call of grpc_server_add_insecure_http2_port that returns, on whichever branch, with a new
-- descriptor from socket, leaves open the sockets of others and one for each port of the server,
-- no other.
pub add_port-Held :
    {others sockets sockets' : List ℕ} (calls : PortCalls) (alloc : Alloc) (k : ℕ) (s s' : Server)
    (addr : Option (List ℕ)) {port : ℤ}
    → Held others s sockets
    → Fresh calls sockets
    → add_port calls alloc k s sockets addr ≡ returns (s', sockets', port)
    → Held others s' sockets'
unfolding add_port
add_port-Held calls alloc k s s' none held fresh e = ground arith
add_port-Held {others} {sockets} {sockets'} calls alloc k s s' (some addr) held fresh e =
    let opened =
      Opened-Held held
        (open_port-Opened calls (alloc (k + 1)) s sockets (host_and_port addr) fresh) in
    ground (arith, opened)

-- Closing the sockets of the ports leaves those of others.
close_ports-descriptors :
    (others : List ℕ) (ps : List ServerPort)
    → All (λ fd. is_open fd others ≡ false) (descriptors ps)
    → close_ports ps (others ++ descriptors ps) ≡ others
unfolding close_ports descriptors
close_ports-descriptors others [] h = append-nil others
close_ports-descriptors others (p ∷ ps) h =
    rw (close_socket-append p.socket_fd others (descriptors ps) h.0)
      (close_ports-descriptors others ps h.1)

pub Held-server_destroy :
    {others sockets : List ℕ} (s : Server)
    → Held others s sockets
    → server_destroy s sockets ≡ others
unfolding server_destroy
Held-server_destroy {others} s held =
    ap (close_ports s.ports) held.exactly ∙ close_ports-descriptors others s.ports held.apart
