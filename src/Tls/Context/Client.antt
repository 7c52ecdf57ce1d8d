-- ===== src/Tls/Context/Client.antt =====
-- What is left over when a client's context was created, or was not (src/grpc_tls.c).
use grpc_c.Common.{
  Option-cases, none, ℕ, ◌≡◌, refl, ◌∙◌, arith, ◌⊎◌, inl, inr, true, Option, none, some, List,
  Bool-cases,
}
use grpc_c.Tls.Context.{
  first_certificate, Objects, OpenSsl, SslContext, KeyCertPair, blank, new_context, free_context,
  new_bio, client_roots, client_certificate, client_key, client_pair, create_client_context,
}
use grpc_c.Common.Fallible.{◌>>=◌}
use grpc_c.Tls.Context.Leaks.{add_roots_lem, when, usable_certificate, usable_key}

-- The two pieces of a client's pair, read or passed over, leave no object behind and the peer's
-- verification on.
client_certificate-kept :
    (ssl : OpenSsl) (text : Option (List ℕ)) (ctx : SslContext) (o : Objects)
    → ((client_certificate ssl text ctx o).1 ≡ o)
      × ((client_certificate ssl text ctx o).0.verify_peer ≡ ctx.verify_peer)
unfolding client_certificate
client_certificate-kept ssl none ctx o = (refl, refl)
client_certificate-kept ssl (some text) ctx o = ground arith

client_key-kept :
    (ssl : OpenSsl) (text : Option (List ℕ)) (ctx : SslContext) (o : Objects)
    → ((client_key ssl text ctx o).1 ≡ o)
      × ((client_key ssl text ctx o).0.verify_peer ≡ ctx.verify_peer)
unfolding client_key
client_key-kept ssl none ctx o = (refl, refl)
client_key-kept ssl (some text) ctx o = ground arith

client_pair-kept :
    (ssl : OpenSsl) (pair : Option KeyCertPair) (ctx : SslContext) (o : Objects)
    → ((client_pair ssl pair ctx o).1 ≡ o)
      × ((client_pair ssl pair ctx o).0.verify_peer ≡ ctx.verify_peer)
unfolding client_pair
client_pair-kept ssl none ctx o = (refl, refl)
client_pair-kept ssl (some pair) ctx o =
    let first = client_certificate ssl pair.cert_chain ctx o in
    let a = client_certificate-kept ssl pair.cert_chain ctx o in
    let b = client_key-kept ssl pair.private_key first.0 first.1 in (b.0 ∙ a.0, b.1 ∙ a.1)

client_roots-cases :
    (ssl : OpenSsl) (roots : Option (List ℕ)) (o : Objects)
    → (client_roots ssl roots blank o ≡ (none, free_context o))
      ⊎ ((ctx : SslContext) × (client_roots ssl roots blank o ≡ (some ctx, o)))
unfolding client_roots
client_roots-cases ssl none o = elim (Bool-cases ssl.default_verify_paths) [
  | inl known ↦ inr (record blank { system_roots = true }, ground (arith, known))
  | inr unknown ↦ inl (ground (arith, unknown))
]
client_roots-cases ssl (some text) o =
    let added = add_roots_lem (ssl.certificates_of text) blank (new_bio o) in
    elim (Bool-cases (ssl.bio_new text)) [
      | inl granted ↦
          inr (record blank { roots = ssl.certificates_of text }, ground (arith, granted, added))
      | inr refused ↦ inl (ground (arith, refused))
    ]

-- grpc_ssl_create_client_context either gives NULL and leaves no object of OpenSSL behind, or it
-- leaves just the one context, with ALPN and with the server's certificate verified, whatever
-- became of the client's own certificate and key.
pub create_client_context-verified :
    (ssl : OpenSsl) (roots : Option (List ℕ)) (pair : Option KeyCertPair) (o : Objects)
    → (create_client_context ssl roots pair o ≡ (none, o))
      ⊎ ((ctx : SslContext) × (create_client_context ssl roots pair o ≡ (some ctx, new_context o))
          × (ctx.verify_peer ≡ true)
          × (ctx.alpn ≡ true))
unfolding create_client_context
create_client_context-verified ssl roots pair o =
    let o' = new_context o in
    elim (Bool-cases ssl.ctx_new) [
      | inr refused ↦ inl (ground (arith, refused))
      | inl granted ↦ elim (client_roots-cases ssl roots o') [
        | inl rootless ↦ inl (ground (arith, granted, rootless))
        | inr (ctx, rooted) ↦
            let kept = client_pair-kept ssl pair (record ctx { verify_peer = true }) o' in
            let final : SslContext =
              record (client_pair ssl pair (record ctx { verify_peer = true }) o').0 {
                alpn = true;
              } in
            inr (final, ground (arith, granted, rooted, kept.0), kept.1, refl)
      ]
    ]

-- The trust that a client's context starts from: the certificates given, or those of the system.
abbrev pub trusted : OpenSsl → Option (List ℕ) → Option SslContext
trusted ssl none = when ssl.default_verify_paths (some (record blank { system_roots = true }))
trusted ssl (some text) =
    when (ssl.bio_new text) (some (record blank { roots = ssl.certificates_of text }))

abbrev pub certificate_of : OpenSsl → Option KeyCertPair → Option ℕ
certificate_of ssl none = none
certificate_of ssl (some pair) = pair.cert_chain >>= usable_certificate ssl

abbrev pub private_key_of : OpenSsl → Option KeyCertPair → Option ℕ
private_key_of ssl none = none
private_key_of ssl (some pair) = pair.private_key >>= usable_key ssl

client_certificate-usable :
    (ssl : OpenSsl) (text : Option (List ℕ)) (ctx : SslContext) (o : Objects)
    → ctx.certificate ≡ none
    → client_certificate ssl text ctx o
      ≡ (record ctx { certificate = text >>= usable_certificate ssl }, o)
unfolding client_certificate
client_certificate-usable ssl none ctx o bare = ground (arith, bare)
client_certificate-usable ssl (some text) ctx o bare =
    elim (Option-cases (first_certificate ssl text)) [
      | inl unread ↦ ground (arith, unread, bare)
      | inr (c, found) ↦ ground (arith, found, bare)
    ]

client_key-usable :
    (ssl : OpenSsl) (text : Option (List ℕ)) (ctx : SslContext) (o : Objects)
    → ctx.private_key ≡ none
    → client_key ssl text ctx o ≡ (record ctx { private_key = text >>= usable_key ssl }, o)
unfolding client_key
client_key-usable ssl none ctx o bare = ground (arith, bare)
client_key-usable ssl (some text) ctx o bare = elim (Option-cases (ssl.key_of text)) [
  | inl unread ↦ ground (arith, unread, bare)
  | inr (k, found) ↦ ground (arith, found, bare)
]

client_pair-usable :
    (ssl : OpenSsl) (pair : Option KeyCertPair) (ctx : SslContext) (o : Objects)
    → ctx.certificate ≡ none
    → ctx.private_key ≡ none
    → client_pair ssl pair ctx o ≡ (
      record ctx { certificate = certificate_of ssl pair; private_key = private_key_of ssl pair },
      o,
    )
unfolding client_pair
client_pair-usable ssl none ctx o bare keyless = ground (arith, bare, keyless)
client_pair-usable ssl (some pair) ctx o bare keyless =
    let ctx' : SslContext = record ctx { certificate = certificate_of ssl (some pair) } in
    ground (
      arith,
      client_certificate-usable ssl pair.cert_chain ctx o bare,
      client_key-usable ssl pair.private_key ctx' o keyless,
    )

-- What a client's context is to be: the trust that it starts from, the server's certificate
-- verified, ALPN, and the client's own certificate and key where they can be read and used.
abbrev pub client_context : OpenSsl → Option (List ℕ) → Option KeyCertPair → Option SslContext
client_context ssl roots pair = when ssl.ctx_new (
    trusted ssl roots >>= λ ctx. some (record ctx {
      verify_peer = true;
      alpn = true;
      certificate = certificate_of ssl pair;
      private_key = private_key_of ssl pair;
    }))

-- grpc_ssl_create_client_context gives a context just where OpenSSL makes one and the root
-- certificates given can be read into memory, or those of the system are found where none are
-- given: with that trust, with the server's certificate verified and with ALPN, and with the
-- client's own certificate and key where they can be read and used. Otherwise it gives NULL. No
-- object of OpenSSL is left over but the context.
pub create_client_context-client_context :
    (ssl : OpenSsl) (roots : Option (List ℕ)) (pair : Option KeyCertPair) (o : Objects)
    → create_client_context ssl roots pair o ≡ (elim (client_context ssl roots pair) [
      | none ↦ (none, o)
      | some ctx ↦ (some ctx, new_context o)
    ])
unfolding create_client_context client_roots
create_client_context-client_context ssl none pair o =
    let start : SslContext = record blank { system_roots = true; verify_peer = true } in
    ground (arith, client_pair-usable ssl pair start (new_context o) refl refl)
create_client_context-client_context ssl (some text) pair o =
    let start : SslContext = record blank {
      roots = ssl.certificates_of text;
      verify_peer = true;
    } in
    ground (
      arith,
      add_roots_lem (ssl.certificates_of text) blank (new_bio (new_context o)),
      client_pair-usable ssl pair start (new_context o) refl refl,
    )
