-- ===== src/Tls/Connection.antt =====
-- What is done on a TLS connection: the handshakes, reads, writes and the shutdown
-- (src/grpc_tls.c), and the flag of grpc_ssl_init. SSL objects are known by their addresses; those
-- that are live are counted.
use grpc_c.Common.{
  zero, suc, ◌≢◌, refl, ℕ, ◌+◌, ◌-◌, ◌≡◌, ap, arith, Bool, true, false, ◌||◌, not, Option, none,
  some, List, [], ◌∷◌, length, ◌==◌, if◌then◌else◌, Bool-cases, Option-cases, ◌⊎◌, inl, inr,
}
use mathlib.Core.Path.{subst}
use grpc_c.Common.Int.{ℤ, pos, negsuc}
use grpc_c.Common.Fallible.{Status, success, failure}
use grpc_c.Common.Memory.{same_string, same_string-eq}

-- ssl_initialized, and how often OpenSSL was set up and cleaned up.
pub record Library : Type 0 where
  pub ssl_initialized : Bool
  pub setups : ℕ
  pub cleanups : ℕ

unfoldable pub ssl_init : Library → Library
ssl_init l =
    if l.ssl_initialized then l else record l { ssl_initialized = true; setups = l.setups + 1 }

unfoldable pub ssl_cleanup : Library → Library
ssl_cleanup l =
    if l.ssl_initialized then record l { ssl_initialized = false; cleanups = l.cleanups + 1 } else l

-- The fields of http2_connection that TLS uses.
pub record Secured : Type 0 where
  pub ssl_ctx : Option ℕ
  pub ssl : Option ℕ

-- What OpenSSL answers in a handshake: the object that SSL_new makes, whether SSL_connect or
-- SSL_accept returns 1, whether the certificate was verified, and the protocol that was
-- negotiated, empty if none was.
pub record Handshake : Type 0 where
  pub ssl_new : Option ℕ
  pub completes : Bool
  pub verified : Bool
  pub alpn : List ℕ

-- `live` counts the SSL objects.
unfoldable pub client_handshake : Handshake → Secured → ℕ → Secured × ℕ × Status
client_handshake h conn live = elim conn.ssl_ctx [
  | none ↦ (conn, live, failure)
  | some ctx ↦ elim h.ssl_new [
    | none ↦ (conn, live, failure)
    | some ssl ↦
        let freed : ℕ = live + 1 - 1 in
        if not h.completes
        then (conn, freed, failure)
        else if not h.verified
        then (conn, freed, failure)
        else if not (length h.alpn == 2) || not (same_string h.alpn (104 ∷ 50 ∷ []))
        then (conn, freed, failure)
        else (record conn { ssl = some ssl }, live + 1, success)
  ]
]

unfoldable pub server_handshake : Handshake → Secured → ℕ → Secured × ℕ × Status
server_handshake h conn live = elim conn.ssl_ctx [
  | none ↦ (conn, live, failure)
  | some ctx ↦ elim h.ssl_new [
    | none ↦ (conn, live, failure)
    | some ssl ↦
        if not h.completes
        then (conn, live + 1 - 1, failure)
        else (record conn { ssl = some ssl }, live + 1, success)
  ]
]

-- SSL_get_error
pub data SslError : Type 0 where
  want_read want_write other : SslError

unfoldable pub would_block : SslError → Bool
would_block want_read = true
would_block want_write = true
would_block other = false

-- `ret` is what SSL_read or SSL_write returns.
unfoldable pub transfer : Secured → ℤ → SslError → ℤ
unfolding would_block
transfer conn ret err = elim conn.ssl [
  | none ↦ negsuc 0
  | some ssl ↦ elim ret [
    | negsuc n ↦ if would_block err then pos 0 else negsuc 0
    | pos n ↦ if n == 0 then (if would_block err then pos 0 else negsuc 0) else pos n
  ]
]

unfoldable pub ssl_read : Secured → ℤ → SslError → ℤ
unfolding transfer
ssl_read conn ret err = transfer conn ret err

unfoldable pub ssl_write : Secured → ℤ → SslError → ℤ
unfolding transfer
ssl_write conn ret err = transfer conn ret err

unfoldable pub ssl_shutdown : Secured → ℕ → Secured × ℕ
ssl_shutdown conn live = elim conn.ssl [
  | none ↦ (conn, live)
  | some ssl ↦ (record conn { ssl = none }, live - 1)
]

-- What a client's handshake may fail for.
pub data Refusal (h : Handshake) (conn : Secured) : Type 0 where
  no_context : conn.ssl_ctx ≡ none → Refusal h conn
  no_object : h.ssl_new ≡ none → Refusal h conn
  incomplete : h.completes ≡ false → Refusal h conn
  unverified : h.verified ≡ false → Refusal h conn
  not_h2 : h.alpn ≢ 104 ∷ 50 ∷ [] → Refusal h conn

-- A client's handshake returns 0 where there is a context, SSL_new gives an object, the handshake
-- completes, the certificate is verified and "h2" is negotiated; then the connection holds the one
-- new object, which a shutdown frees. Otherwise one of these is not so, it returns -1, the
-- connection is as it was, and no object is left over.
pub client_handshake-success :
    (h : Handshake) (conn : Secured) (live : ℕ)
    → ((ctx ssl : ℕ) × (conn.ssl_ctx ≡ some ctx)
        × (h.ssl_new ≡ some ssl)
        × (h.completes ≡ true)
        × (h.verified ≡ true)
        × (h.alpn ≡ 104 ∷ 50 ∷ [])
        × (client_handshake h conn live ≡ (record conn { ssl = some ssl }, live + 1, success))
        × (ssl_shutdown (client_handshake h conn live).0 (live + 1)
            ≡ (record conn { ssl = none }, live)))
      ⊎ (Refusal h conn × (client_handshake h conn live ≡ (conn, live, failure)))
unfolding client_handshake ssl_shutdown same_string
client_handshake-success h conn live = elim (Option-cases conn.ssl_ctx) [
  | inl plain ↦ inr (no_context plain, ground (arith, plain))
  | inr (ctx, secured) ↦ elim (Option-cases h.ssl_new) [
    | inl nothing ↦ inr (no_object nothing, ground (arith, secured, nothing))
    | inr (ssl, new) ↦ elim (Bool-cases h.completes) [
      | inr broken ↦ inr (incomplete broken, ground (arith, secured, new, broken))
      | inl complete ↦ elim (Bool-cases h.verified) [
        | inr unsure ↦ inr (unverified unsure, ground (arith, secured, new, complete, unsure))
        | inl sure ↦ elim (Bool-cases (same_string h.alpn (104 ∷ 50 ∷ []))) [
          | inr differs ↦ inr (
            not_h2 (λ same.
                (let wrong : true ≡ false =
                    subst (λ l. same_string l (104 ∷ 50 ∷ []) ≡ false) same differs in
                  absurd cc)),
            ground (arith, secured, new, complete, sure, differs),
          )
          | inl same ↦
              let h2 : h.alpn ≡ 104 ∷ 50 ∷ [] = same_string-eq h.alpn (104 ∷ 50 ∷ []) same in
              let two : length h.alpn ≡ 2 = ap length h2 in
              inl (
                ctx,
                ssl,
                secured,
                new,
                complete,
                sure,
                h2,
                ground (arith, secured, new, complete, sure, same, two),
                ground (arith, secured, new, complete, sure, same, two),
              )
        ]
      ]
    ]
  ]
]

-- Over any number of calls of grpc_ssl_init and grpc_ssl_cleanup, in any order, OpenSSL is set up
-- and cleaned up in turn.
unfoldable pub toggle : List Bool → Library → Library
unfolding ssl_init ssl_cleanup
toggle [] l = l
toggle (true ∷ calls) l = toggle calls (ssl_init l)
toggle (false ∷ calls) l = toggle calls (ssl_cleanup l)

pub toggle-balanced :
    (calls : List Bool) (l : Library)
    → l.setups ≡ (if l.ssl_initialized then l.cleanups + 1 else l.cleanups)
    → (toggle calls l).setups ≡ (
        if (toggle calls l).ssl_initialized
        then (toggle calls l).cleanups + 1
        else (toggle calls l).cleanups)
unfolding toggle ssl_init ssl_cleanup
toggle-balanced [] l h = h
toggle-balanced (true ∷ calls) l h = toggle-balanced calls (ssl_init l) (ground (arith, h))
toggle-balanced (false ∷ calls) l h = toggle-balanced calls (ssl_cleanup l) (ground (arith, h))

-- What a read or a write returns: the bytes that were transferred, at least one; 0 just where the
-- connection would block; or -1, for another error. The connection has TLS.
pub ssl_read-ssl_write :
    (conn : Secured) (ret : ℤ) (err : SslError) {ssl : ℕ}
    → conn.ssl ≡ some ssl
    → (ssl_read conn ret err ≡ ssl_write conn ret err)
      × (((n : ℕ) × (ret ≡ pos (suc n)) × (ssl_read conn ret err ≡ pos (suc n)))
          ⊎ (((would_block err ≡ true) × (ssl_read conn ret err ≡ pos 0))
              ⊎ ((would_block err ≡ false) × (ssl_read conn ret err ≡ negsuc 0))))
unfolding ssl_read ssl_write transfer
ssl_read-ssl_write conn (pos zero) err secured = elim (Bool-cases (would_block err)) [
  | inl blocked ↦ (refl, inr (inl (blocked, ground (arith, secured, blocked))))
  | inr failed ↦ (refl, inr (inr (failed, ground (arith, secured, failed))))
]
ssl_read-ssl_write conn (pos (suc n)) err secured = (refl, inl (n, refl, ground (arith, secured)))
ssl_read-ssl_write conn (negsuc n) err secured = elim (Bool-cases (would_block err)) [
  | inl blocked ↦ (refl, inr (inl (blocked, ground (arith, secured, blocked))))
  | inr failed ↦ (refl, inr (inr (failed, ground (arith, secured, failed))))
]
