-- ===== src/Tls/Context/Leaks.antt =====
-- What is left over when a server's context was created, or was not (src/grpc_tls.c).
use grpc_c.Common.{
  Bool, ℕ, ◌≡◌, refl, sym, ap, ◌∙◌, append_assoc, append-nil, arith, inl, inr, true, Option, none,
  some, List, [], ◌∷◌, ◌++◌, if◌then◌else◌, Bool-cases, Option-cases,
}
use grpc_c.Common.Fallible.{◌>>=◌}
use grpc_c.Tls.Context.{
  Objects, OpenSsl, SslContext, KeyCertPair, blank, new_context, free_context, new_bio,
  first_certificate, add_roots, server_certificate, server_key, server_roots, server_rest,
  create_server_context,
}

pub add_roots_lem :
    (cs : List ℕ) (ctx : SslContext) (o : Objects)
    → add_roots cs ctx o ≡ (record ctx { roots = ctx.roots ++ cs }, o)
unfolding add_roots
add_roots_lem [] ctx o = ap (λ l. (record ctx { roots = l }, o)) (sym (append-nil ctx.roots))
add_roots_lem (c ∷ cs) ctx o =
    add_roots_lem cs (record ctx { roots = ctx.roots ++ c ∷ [] }) o
    ∙ ap (λ l. (record ctx { roots = l }, o)) (append_assoc ctx.roots (c ∷ []) cs)

-- What is asked of the clients: their certificates are verified where the server was given
-- authorities and a BIO for them, with these as the roots.
abbrev pub asked : OpenSsl → Option (List ℕ) → SslContext → SslContext
asked ssl none ctx = ctx
asked ssl (some text) ctx =
    if ssl.bio_new text
    then record ctx {
      roots = ctx.roots ++ ssl.certificates_of text;
      verify_peer = true;
      require_peer = true;
    }
    else ctx

server_roots-asked :
    (ssl : OpenSsl) (text : Option (List ℕ)) (ctx : SslContext) (o : Objects)
    → server_roots ssl text ctx o ≡ (asked ssl text ctx, o)
unfolding server_roots
server_roots-asked ssl none ctx o = refl
server_roots-asked ssl (some text) ctx o =
    let added = add_roots_lem (ssl.certificates_of text) ctx (new_bio o) in
    elim (Bool-cases (ssl.bio_new text)) [
      | inl granted ↦ rw (granted, added) refl
      | inr refused ↦ rw refused refl
    ]

-- A server context with its certificate and its key.
abbrev pub server_context : OpenSsl → Option (List ℕ) → ℕ → ℕ → SslContext
server_context ssl roots c k =
    record (asked ssl roots (record blank { certificate = some c; private_key = some k })) {
      alpn = true;
    }

-- A value where a test holds.
abbrev pub when : {A : Type 0} → Bool → Option A → Option A
when ok value = if ok then value else none

-- The certificate that is read from a text and can be used, if there is one; and the key.
abbrev pub usable_certificate : OpenSsl → List ℕ → Option ℕ
usable_certificate ssl text =
    when (ssl.bio_new text)
      (first_certificate ssl text >>= λ c. when (ssl.use_certificate c) (some c))

abbrev pub usable_key : OpenSsl → List ℕ → Option ℕ
usable_key ssl text =
    when (ssl.bio_new text) (ssl.key_of text >>= λ k. when (ssl.use_private_key k) (some k))

-- The certificate and the key of the first pair, if they can be used and belong together.
abbrev pub usable_pair : OpenSsl → List KeyCertPair → Option (ℕ × ℕ)
usable_pair ssl [] = none
usable_pair ssl (pair ∷ pairs) = when ssl.ctx_new (
    pair.cert_chain >>= λ text. usable_certificate ssl text >>= λ c. pair.private_key >>= λ text'.
    usable_key ssl text' >>= λ k. when ssl.check_private_key (some (c, k)))

server_certificate-usable :
    (ssl : OpenSsl) (text : List ℕ) (ctx : SslContext) (o : Objects)
    → server_certificate ssl (some text) ctx o ≡ (elim (usable_certificate ssl text) [
      | none ↦ (none, free_context o)
      | some c ↦ (some (record ctx { certificate = some c }), o)
    ])
unfolding server_certificate
server_certificate-usable ssl text ctx o = elim (Option-cases (first_certificate ssl text)) [
  | inl unread ↦ ground (arith, unread)
  | inr (c, found) ↦ ground (arith, found)
]

server_key-usable :
    (ssl : OpenSsl) (text : List ℕ) (ctx : SslContext) (o : Objects)
    → server_key ssl (some text) ctx o ≡ (elim (usable_key ssl text) [
      | none ↦ (none, free_context o)
      | some k ↦ (some (record ctx { private_key = some k }), o)
    ])
unfolding server_key
server_key-usable ssl text ctx o = elim (Option-cases (ssl.key_of text)) [
  | inl unread ↦ ground (arith, unread)
  | inr (k, found) ↦ ground (arith, found)
]

server_rest-asked :
    (ssl : OpenSsl) (roots : Option (List ℕ)) (ctx : SslContext) (o : Objects)
    → server_rest ssl roots ctx o ≡ (
        if ssl.check_private_key
        then (some (record (asked ssl roots ctx) { alpn = true }), o)
        else (none, free_context o))
unfolding server_rest
server_rest-asked ssl roots ctx o = ground (arith, server_roots-asked ssl roots ctx o)

-- grpc_ssl_create_server_context gives a context just where OpenSSL makes one and takes the
-- certificate and the key of the first pair, and they belong together: the context has these,
-- ALPN, and what is asked of the clients, and is the one object of OpenSSL that is left. In every
-- other case it gives NULL and leaves no object behind.
pub create_server_context-usable_pair :
    (ssl : OpenSsl) (roots : Option (List ℕ)) (pairs : List KeyCertPair) (o : Objects)
    → create_server_context ssl roots pairs o ≡ (elim (usable_pair ssl pairs) [
      | none ↦ (none, o)
      | some (c, k) ↦ (some (server_context ssl roots c k), new_context o)
    ])
unfolding create_server_context server_certificate server_key
create_server_context-usable_pair ssl roots [] o = refl
create_server_context-usable_pair ssl roots (pair ∷ pairs) o =
    let o' = new_context o in
    elim (Option-cases pair.cert_chain) [
      | inl bare ↦ ground (arith, bare)
      | inr (text, chain) ↦
          let certified = server_certificate-usable ssl text blank o' in
          elim (Option-cases (usable_certificate ssl text)) [
            | inl unfit ↦ ground (arith, chain, unfit, certified)
            | inr (c, fit) ↦
                let ctx : SslContext = record blank { certificate = some c } in
                elim (Option-cases pair.private_key) [
                  | inl keyless ↦ ground (arith, chain, fit, certified, keyless)
                  | inr (text', key) ↦
                      let keyed = server_key-usable ssl text' ctx o' in
                      elim (Option-cases (usable_key ssl text')) [
                        | inl unread ↦ ground (arith, chain, fit, certified, key, keyed, unread)
                        | inr (k, read) ↦
                            let rest =
                              server_rest-asked ssl roots (record ctx { private_key = some k })
                                o' in
                            ground (arith, chain, fit, certified, key, keyed, read, rest)
                      ]
                ]
          ]
    ]
