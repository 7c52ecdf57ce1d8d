-- ===== src/Tls/Context.antt =====
-- The creation of SSL contexts (src/grpc_tls.c). The objects of OpenSSL that are live are counted
-- by kind.
pub mod Leaks
pub mod Client
use grpc_c.Common.{
  ℕ, zero, suc, Bool, true, false, Option, none, some, List, [], ◌∷◌, ◌++◌, ◌==◌, if◌then◌else◌,
}

pub record Objects : Type 0 where
  pub contexts : ℕ
  pub bios : ℕ
  pub certificates : ℕ
  pub keys : ℕ

-- One object less.
abbrev pub one_less : ℕ → ℕ
one_less zero = zero
one_less (suc n) = n

abbrev pub new_context : Objects → Objects
new_context o = record o { contexts = suc o.contexts }

abbrev pub free_context : Objects → Objects
free_context o = record o { contexts = one_less o.contexts }

abbrev pub new_bio : Objects → Objects
new_bio o = record o { bios = suc o.bios }

abbrev pub free_bio : Objects → Objects
free_bio o = record o { bios = one_less o.bios }

abbrev pub new_certificate : Objects → Objects
new_certificate o = record o { certificates = suc o.certificates }

abbrev pub free_certificate : Objects → Objects
free_certificate o = record o { certificates = one_less o.certificates }

abbrev pub new_key : Objects → Objects
new_key o = record o { keys = suc o.keys }

abbrev pub free_key : Objects → Objects
free_key o = record o { keys = one_less o.keys }

-- What OpenSSL answers: whether a context is made, and a BIO for a text; the certificates and the
-- key in a text; whether they can be used, whether they belong together, and whether the paths of
-- the system can be set.
pub record OpenSsl : Type 0 where
  pub ctx_new : Bool
  pub bio_new : List ℕ → Bool
  pub certificates_of : List ℕ → List ℕ
  pub key_of : List ℕ → Option ℕ
  pub use_certificate : ℕ → Bool
  pub use_private_key : ℕ → Bool
  pub check_private_key : Bool
  pub default_verify_paths : Bool

-- What was set in a context; its least version is TLS 1.2 from the start.
pub record SslContext : Type 0 where
  pub roots : List ℕ
  pub system_roots : Bool
  pub verify_peer : Bool
  pub require_peer : Bool
  pub certificate : Option ℕ
  pub private_key : Option ℕ
  pub alpn : Bool

pub record KeyCertPair : Type 0 where
  pub private_key : Option (List ℕ)
  pub cert_chain : Option (List ℕ)

abbrev pub blank : SslContext
blank = record {
  roots = [];
  system_roots = false;
  verify_peer = false;
  require_peer = false;
  certificate = none;
  private_key = none;
  alpn = false;
}

-- PEM_read_bio_X509, where only the first certificate is wanted.
unfoldable pub first_certificate : OpenSsl → List ℕ → Option ℕ
first_certificate ssl text = elim (ssl.certificates_of text) [ [] ↦ none | c ∷ cs ↦ some c ]

-- The loop that adds each certificate of a text to the store and frees it.
unfoldable pub add_roots : List ℕ → SslContext → Objects → SslContext × Objects
add_roots [] ctx o = (ctx, o)
add_roots (c ∷ cs) ctx o =
    add_roots cs (record ctx { roots = ctx.roots ++ c ∷ [] }) (free_certificate (new_certificate o))

-- The client's root certificates, or NULL.
unfoldable pub client_roots :
    OpenSsl → Option (List ℕ) → SslContext → Objects → Option SslContext × Objects
unfolding add_roots
client_roots ssl none ctx o =
    if ssl.default_verify_paths
    then (some (record ctx { system_roots = true }), o)
    else (none, free_context o)
client_roots ssl (some text) ctx o =
    let (ctx', o') = add_roots (ssl.certificates_of text) ctx (new_bio o) in
    if ssl.bio_new text then (some ctx', free_bio o') else (none, free_context o)

-- The client's certificate and key: what cannot be read or used is passed over.
unfoldable pub client_certificate :
    OpenSsl → Option (List ℕ) → SslContext → Objects → SslContext × Objects
unfolding first_certificate
client_certificate ssl none ctx o = (ctx, o)
client_certificate ssl (some text) ctx o =
    let o' = new_bio o in
    if ssl.bio_new text
    then (elim (first_certificate ssl text) [
      | none ↦ (ctx, free_bio o')
      | some c ↦ (
        if ssl.use_certificate c then record ctx { certificate = some c } else ctx,
        free_bio (free_certificate (new_certificate o')),
      )
    ])
    else (ctx, o)

unfoldable pub client_key : OpenSsl → Option (List ℕ) → SslContext → Objects → SslContext × Objects
client_key ssl none ctx o = (ctx, o)
client_key ssl (some text) ctx o =
    let o' = new_bio o in
    if ssl.bio_new text
    then (elim (ssl.key_of text) [
      | none ↦ (ctx, free_bio o')
      | some k ↦ (
        if ssl.use_private_key k then record ctx { private_key = some k } else ctx,
        free_bio (free_key (new_key o')),
      )
    ])
    else (ctx, o)

unfoldable pub client_pair :
    OpenSsl → Option KeyCertPair → SslContext → Objects → SslContext × Objects
unfolding client_certificate client_key
client_pair ssl none ctx o = (ctx, o)
client_pair ssl (some pair) ctx o =
    let (ctx', o') = client_certificate ssl pair.cert_chain ctx o in
    client_key ssl pair.private_key ctx' o'

-- grpc_ssl_create_client_context for credentials that are not NULL.
unfoldable pub create_client_context :
    OpenSsl → Option (List ℕ) → Option KeyCertPair → Objects → Option SslContext × Objects
unfolding client_roots client_pair
create_client_context ssl pem_root_certs pair o =
    if ssl.ctx_new
    then (let (rooted, o') = client_roots ssl pem_root_certs blank (new_context o) in
        elim rooted [
          | none ↦ (none, o')
          | some ctx ↦
              let (ctx', o'') = client_pair ssl pair (record ctx { verify_peer = true }) o' in
              (some (record ctx' { alpn = true }), o'')
        ])
    else (none, o)

-- The server's certificate, which must be there.
unfoldable pub server_certificate :
    OpenSsl → Option (List ℕ) → SslContext → Objects → Option SslContext × Objects
unfolding first_certificate
server_certificate ssl none ctx o = (none, free_context o)
server_certificate ssl (some text) ctx o =
    let o' = new_bio o in
    if ssl.bio_new text
    then (elim (first_certificate ssl text) [
      | none ↦ (none, free_context (free_bio o'))
      | some c ↦
          let o'' = free_bio (free_certificate (new_certificate o')) in
          if ssl.use_certificate c
          then (some (record ctx { certificate = some c }), o'')
          else (none, free_context o'')
    ])
    else (none, free_context o)

unfoldable pub server_key :
    OpenSsl → Option (List ℕ) → SslContext → Objects → Option SslContext × Objects
server_key ssl none ctx o = (none, free_context o)
server_key ssl (some text) ctx o =
    let o' = new_bio o in
    if ssl.bio_new text
    then (elim (ssl.key_of text) [
      | none ↦ (none, free_context (free_bio o'))
      | some k ↦
          let o'' = free_bio (free_key (new_key o')) in
          if ssl.use_private_key k
          then (some (record ctx { private_key = some k }), o'')
          else (none, free_context o'')
    ])
    else (none, free_context o)

-- The certificates of the authorities of the clients; without a BIO for them nothing is required.
unfoldable pub server_roots :
    OpenSsl → Option (List ℕ) → SslContext → Objects → SslContext × Objects
unfolding add_roots
server_roots ssl none ctx o = (ctx, o)
server_roots ssl (some text) ctx o =
    let (ctx', o') = add_roots (ssl.certificates_of text) ctx (new_bio o) in
    if ssl.bio_new text
    then (record ctx' { verify_peer = true; require_peer = true }, free_bio o')
    else (ctx, o)

-- The part of grpc_ssl_create_server_context that follows the key.
unfoldable pub server_rest :
    OpenSsl → Option (List ℕ) → SslContext → Objects → Option SslContext × Objects
unfolding server_roots
server_rest ssl pem_root_certs ctx o =
    if ssl.check_private_key
    then (let (ctx', o') = server_roots ssl pem_root_certs ctx o in
        (some (record ctx' { alpn = true }), o'))
    else (none, free_context o)

-- grpc_ssl_create_server_context for credentials that are not NULL. Only the first pair is used.
unfoldable pub create_server_context :
    OpenSsl → Option (List ℕ) → List KeyCertPair → Objects → Option SslContext × Objects
unfolding server_certificate server_key server_rest
create_server_context ssl pem_root_certs [] o = (none, o)
create_server_context ssl pem_root_certs (pair ∷ pairs) o =
    if ssl.ctx_new
    then (let (certified, o1) = server_certificate ssl pair.cert_chain blank (new_context o) in
        elim certified [
          | none ↦ (none, o1)
          | some ctx1 ↦
              let (keyed, o2) = server_key ssl pair.private_key ctx1 o1 in
              elim keyed [ none ↦ (none, o2) | some ctx2 ↦ server_rest ssl pem_root_certs ctx2 o2 ]
        ])
    else (none, o)
