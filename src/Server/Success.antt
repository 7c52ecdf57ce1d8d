-- ===== src/Server/Success.antt =====
-- A port that is added (src/grpc_server.c).
use grpc_c.Common.{
  ℕ, ◌+◌, ◌*◌, ◌%◌, ◌^◌, ◌<◌, ◌≡◌, ◌≢◌, refl, ap, ◌∙◌, arith, true, false, some, List, [], ◌∷◌,
  ◌++◌, All, length, leb, Bool-cases, inl, inr,
}
use grpc_c.Common.Int.{pos}
use grpc_c.Common.Words.{u32_of}
use grpc_c.Common.Memory.{Alloc}
use grpc_c.Transport.{returns}
use grpc_c.Targets.{colon}
use grpc_c.Targets.Decimal.{decimal, atoi-decimal, split_colon-append}
use grpc_c.Server.{
  Server, ServerPort, PortCalls, host_addr, port_number, host_and_port, append_port, open_port,
  add_port,
}

-- The address of a host and a port in decimal digits is taken apart again.
host_and_port-decimal :
    (host : List ℕ) (n : ℕ)
    → n < 2 ^ 31
    → All (λ c. c ≢ colon) host
    → host_and_port (host ++ colon ∷ decimal n) ≡ (host, pos n)
unfolding host_and_port
host_and_port-decimal host n small h =
    ground (arith, split_colon-append host (decimal n) h, atoi-decimal n small)

port_number-pos : (n : ℕ) → port_number (pos n) ≡ n % 2 ^ 16
unfolding port_number u32_of
port_number-pos n = omega arith

append_port-some :
    (s : Server) (p : ServerPort)
    → (s' : Server) × (append_port true s p ≡ some s') × (s'.ports ≡ s.ports ++ p ∷ [])
unfolding append_port
append_port-some s p = elim (Bool-cases (leb s.ports_capacity (length s.ports))) [
  | inl full ↦ (
    record s { ports_capacity = s.ports_capacity * 2; ports = s.ports ++ p ∷ [] },
    ground (arith, full),
    refl,
  )
  | inr room ↦ (record s { ports = s.ports ++ p ∷ [] }, ground (arith, room), refl)
]

added_at :
    (calls : PortCalls) (alloc : Alloc) (k : ℕ) (s : Server) (sockets text host : List ℕ) (n fd : ℕ)
    (s' : Server)
    → s.started ≡ false
    → ((i : ℕ) → alloc i ≡ true)
    → calls.socket ≡ some fd
    → calls.bind_ok ≡ true
    → calls.listen_ok ≡ true
    → host_and_port text ≡ (host, pos n)
    → append_port true s (record {
      socket_fd = fd;
      addr = record { sin_addr = host_addr calls.inet_pton host; sin_port = port_number (pos n) };
    })
      ≡ some s'
    → add_port calls alloc k s sockets (some text) ≡ returns (s', sockets ++ fd ∷ [], pos n)
unfolding add_port open_port
added_at calls alloc k s sockets text host n fd s' idle granted opened bound heard at added =
    ground (arith, idle, granted k, granted (k + 1), opened, bound, heard, at, added)

-- On a server that was not started, where memory is granted and the system opens, binds and
-- listens, a port given as a host without a colon, a colon and a number below 2^31 in decimal digits is
-- added behind the others with the new socket, the address of that host and that number modulo 2^16, and
-- the number is returned.
pub add_port-decimal :
    (calls : PortCalls) (alloc : Alloc) (k : ℕ) (s : Server) (sockets host : List ℕ) (n fd : ℕ)
    → s.started ≡ false
    → ((i : ℕ) → alloc i ≡ true)
    → calls.socket ≡ some fd
    → calls.bind_ok ≡ true
    → calls.listen_ok ≡ true
    → n < 2 ^ 31
    → All (λ c. c ≢ colon) host
    → (s' : Server) × (add_port calls alloc k s sockets (some (host ++ colon ∷ decimal n))
        ≡ returns (s', sockets ++ fd ∷ [], pos n))
      × (s'.ports
          ≡ s.ports
            ++ (record {
              socket_fd = fd;
              addr = record { sin_addr = host_addr calls.inet_pton host; sin_port = n % 2 ^ 16 };
            })
              ∷ [])
unfolding add_port open_port
add_port-decimal calls alloc k s sockets host n fd idle granted opened bound heard small h =
    let p : ServerPort = record {
      socket_fd = fd;
      addr = record { sin_addr = host_addr calls.inet_pton host; sin_port = port_number (pos n) };
    } in
    let (s', added, listed) = append_port-some s p in
    let at = host_and_port-decimal host n small h in
    let ports : s.ports ++ p ∷ []
        ≡ s.ports
          ++ (record {
            socket_fd = fd;
            addr = record { sin_addr = host_addr calls.inet_pton host; sin_port = n % 2 ^ 16 };
          })
            ∷ [] =
      ap
        (λ (m : ℕ).
          s.ports
          ++ (record {
            socket_fd = fd;
            addr = record { sin_addr = host_addr calls.inet_pton host; sin_port = m };
          })
            ∷ [])
        (port_number-pos n) in
    let eq =
      added_at calls alloc k s sockets (host ++ colon ∷ decimal n) host n fd s' idle granted opened
        bound heard at added in
    (s', eq, listed ∙ ports)
