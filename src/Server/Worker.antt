-- ===== src/Server/Worker.antt =====
-- server_worker_thread (src/grpc_server.c). Each read of the flag and each answer of select and
-- accept is an argument, since other threads and the network decide them.
use grpc_c.Common.{
  ℕ, zero, suc, ◌+◌, ◌*◌, ◌<◌, ◌≡◌, refl, arith, Bool, true, false, Option, none, some, List, [],
  ◌∷◌, ◌++◌, length, if◌then◌else◌, Option-cases, inl, inr, append-nil,
}
use mathlib.Core.Path.{subst}
use native.Mathlib.Nat.{add-zero}
use grpc_c.Server.{Server, ServerPort, close_socket}
use grpc_c.Server.Ports.{is_open, close_socket-append}

-- What the n-th select on a port and the accept behind it answer: none if no client waits or
-- accept fails.
abbrev pub Network : Type 0
Network = ℕ → Option ℕ

-- One port; the client is closed again, and the call is counted.
unfoldable pub serve_port : Network → ℕ → List ℕ → List ℕ
unfolding close_socket
serve_port net n sockets = elim (net n) [
  | none ↦ sockets
  | some client ↦ close_socket client (sockets ++ client ∷ [])
]

-- The for loop over the ports, with the number of calls of select.
unfoldable pub serve_ports : Network → ℕ → List ℕ → List ServerPort → List ℕ × ℕ
unfolding serve_port
serve_ports net n sockets [] = (sockets, n)
serve_ports net n sockets (p ∷ ps) = serve_ports net (n + 1) (serve_port net n sockets) ps

-- The while loop, where the i-th read of the flag gives `flag i`, from `i` on; `none` when the
-- fuel is over.
unfoldable pub worker_loop :
    ℕ → (ℕ → Bool) → ℕ → Network → ℕ → Server → List ℕ → Option (List ℕ × ℕ)
unfolding serve_ports
worker_loop zero flag i net n s sockets = none
worker_loop (suc fuel) flag i net n s sockets =
    let served = serve_ports net n sockets s.ports in
    let rest = worker_loop fuel flag (i + 1) net served.1 s served.0 in
    if flag i then some (sockets, n) else rest

-- Each client that accept gives has a descriptor that is not open.
abbrev pub NewClients : Network → List ℕ → Type 0
NewClients net sockets = (n client : ℕ) → net n ≡ some client → is_open client sockets ≡ false

serve_port-closed :
    (net : Network) (n : ℕ) (sockets : List ℕ)
    → NewClients net sockets
    → serve_port net n sockets ≡ sockets
unfolding serve_port
serve_port-closed net n sockets new = elim (Option-cases (net n)) [
  | inl nobody ↦ rw (serve_port, nobody) refl
  | inr (client, came) ↦
      rw
        (
          serve_port,
          came,
          close_socket-append client sockets [] (new n client came),
          append-nil sockets,
        )
        refl
]

serve_ports-closed :
    (net : Network) (n : ℕ) (sockets : List ℕ) (ps : List ServerPort)
    → NewClients net sockets
    → serve_ports net n sockets ps ≡ (sockets, n + length ps)
unfolding serve_ports
serve_ports-closed net n sockets [] new = ground arith
serve_ports-closed net n sockets (p ∷ ps) new =
    let one : serve_port net n sockets ≡ sockets = serve_port-closed net n sockets new in
    ground (arith, one, serve_ports-closed net (n + 1) sockets ps new)

-- A worker stops, where accept gives descriptors that are not open: once the k-th read of the flag
-- from now on finds it set, and none before it does, more than k rounds of fuel are enough. It
-- returns at that read, having asked each port once in each of the k rounds before it, and every
-- client accepted is closed again, so the open sockets are as before.
pub worker_loop-ends :
    (k fuel : ℕ) (flag : ℕ → Bool) (i : ℕ) (net : Network) (n : ℕ) (s : Server) (sockets : List ℕ)
    → NewClients net sockets
    → ((j : ℕ) → j < k → flag (i + j) ≡ false)
    → flag (i + k) ≡ true
    → k < fuel
    → worker_loop fuel flag i net n s sockets ≡ some (sockets, n + k * length s.ports)
unfolding worker_loop
worker_loop-ends k zero flag i net n s sockets new before now enough = absurd (omega arith)
worker_loop-ends zero (suc fuel) flag i net n s sockets new before now enough = ground (arith)
worker_loop-ends (suc k) (suc fuel) flag i net n s sockets new before now enough =
    let up : (j : ℕ) → i + suc j ≡ i + 1 + j = λ j. omega arith in
    let first : flag i ≡ false =
      subst (λ (a : ℕ). flag a ≡ false) (add-zero i) (before 0 (omega arith)) in
    let later =
      worker_loop-ends k fuel flag (i + 1) net (n + length s.ports) s sockets new
        (λ j h. subst (λ (a : ℕ). flag a ≡ false) (up j) (before (suc j) (omega arith)))
        (subst (λ (a : ℕ). flag a ≡ true) (up k) now) (omega arith) in
    let count : n + length s.ports + k * length s.ports ≡ n + suc k * length s.ports =
      omega arith in
    let closed = serve_ports-closed net n sockets s.ports new in
    ground (arith, first, closed, later, count)
