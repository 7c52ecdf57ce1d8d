-- ===== src/Tls/Alpn.antt =====
-- grpc_ssl_alpn_select_cb_internal (src/grpc_tls.c).
pub mod Selection
pub mod Safety
use grpc_c.Common.{
  ℕ, zero, suc, ◌+◌, ◌%◌, ◌^◌, Bool, true, false, ◌&&◌, Option, none, some, List, [], ◌∷◌, length,
  get_elem?, ltb, ◌==◌, if◌then◌else◌,
}
use grpc_c.Transport.{Run, returns, deadlock, fault, ◌>>=◌}

-- SSL_TLSEXT_ERR_OK with the place and the length of the protocol chosen, or SSL_TLSEXT_ERR_NOACK.
pub data Selected : Type 0 where
  chosen : ℕ → ℕ → Selected
  noack : Selected

-- A byte of the buffer; outside it there is none to read.
unfoldable pub byte_at : List ℕ → ℕ → Run ℕ
byte_at bytes i = elim (get_elem? bytes i) [ none ↦ fault | some b ↦ returns b ]

-- memcmp(&in[i], "h2", 2) == 0, where both bytes are looked at.
unfoldable pub is_h2 : List ℕ → ℕ → Run Bool
unfolding byte_at
is_h2 bytes i =
    byte_at bytes i >>= λ a. byte_at bytes (i + 1) >>= λ b. returns (a == 104 && b == 50)

-- The loop; `i` is an unsigned int. `none` when the fuel is over.
unfoldable pub alpn_loop : ℕ → List ℕ → ℕ → Option (Run Selected)
unfolding is_h2 byte_at
alpn_loop zero bytes i = none
alpn_loop (suc fuel) bytes i = elim (ltb i (length bytes)) [
  | false ↦ some (returns noack)
  | true ↦ elim (byte_at bytes i) [
    | deadlock ↦ some deadlock
    | fault ↦ some fault
    | returns len ↦ elim (ltb (length bytes) ((i + 1 + len) % 2 ^ 32)) [
      | true ↦ some (returns noack)
      | false ↦ elim (len == 2) [
        | false ↦ alpn_loop fuel bytes ((i + 1 + len) % 2 ^ 32)
        | true ↦ elim (is_h2 bytes (i + 1)) [
          | deadlock ↦ some deadlock
          | fault ↦ some fault
          | returns same ↦ elim same [
            | true ↦ some (returns (chosen (i + 1) len))
            | false ↦ alpn_loop fuel bytes ((i + 1 + len) % 2 ^ 32)
          ]
        ]
      ]
    ]
  ]
]

-- One more round than there are bytes.
unfoldable pub alpn_select : List ℕ → Option (Run Selected)
unfolding alpn_loop
alpn_select bytes = alpn_loop (length bytes + 1) bytes 0
