-- ===== src/Tls/Tests.antt =====
-- Protocols and a server context on concrete inputs (src/grpc_tls.c).
use grpc_c.Common.{
  false, true, none, some, ℕ, ◌^◌, ◌<◌, ◌≡◌, ◌⊎◌, arith, true, none, some, List, [], ◌∷◌, length,
}
use grpc_c.Common.Fallible.{success, failure}
use grpc_c.Transport.{returns}
use grpc_c.Tls.Alpn.{Selected, alpn_select}
use grpc_c.Tls.Alpn.Selection.{encode, place, alpn_select-encode}
use grpc_c.Tls.Alpn.Safety.{IsSound, alpn_select-IsSound}
use grpc_c.Tls.Connection.{
  Refusal, Handshake, Secured, client_handshake, ssl_shutdown, client_handshake-success,
}
use grpc_c.Tls.Context.{
  Objects, OpenSsl, KeyCertPair, create_server_context, first_certificate, new_context,
}
use grpc_c.Tls.Context.{create_client_context}
use grpc_c.Tls.Context.Client.{create_client_context-client_context}
use grpc_c.Tls.Context.Leaks.{server_context, create_server_context-usable_pair}

-- "http/1.1" and "h2"
abbrev protocols : List (List ℕ)
protocols = (104 ∷ 116 ∷ 116 ∷ 112 ∷ 47 ∷ 49 ∷ 46 ∷ 49 ∷ []) ∷ (104 ∷ 50 ∷ []) ∷ []

short : length (encode protocols) < 2 ^ 32
unfolding encode
short = omega arith

alpn_select-encode_example : alpn_select (encode protocols) ≡ some (returns (place protocols 0))
alpn_select-encode_example = alpn_select-encode protocols short

-- A length of 9 with only two bytes behind it.
abbrev cut : List ℕ
cut = 9 ∷ 104 ∷ 50 ∷ []

alpn_select-IsSound_example : (r : Selected) × (alpn_select cut ≡ some (returns r)) × IsSound cut r
alpn_select-IsSound_example =
    alpn_select-IsSound cut (omega arith, (omega arith, (omega arith, tt))) (omega arith)

abbrev answers : Handshake
answers = record { ssl_new = some 77; completes = true; verified = true; alpn = 104 ∷ 50 ∷ [] }

abbrev conn : Secured
conn = record { ssl_ctx = some 5; ssl = none }

client_handshake-success_example :
    ((ctx ssl : ℕ) × (conn.ssl_ctx ≡ some ctx)
      × (answers.ssl_new ≡ some ssl)
      × (answers.completes ≡ true)
      × (answers.verified ≡ true)
      × (answers.alpn ≡ 104 ∷ 50 ∷ [])
      × (client_handshake answers conn 0 ≡ (record conn { ssl = some ssl }, 1, success))
      × (ssl_shutdown (client_handshake answers conn 0).0 1 ≡ (record conn { ssl = none }, 0)))
    ⊎ (Refusal answers conn × (client_handshake answers conn 0 ≡ (conn, 0, failure)))
client_handshake-success_example = client_handshake-success answers conn 0

abbrev openssl : OpenSsl
openssl = record {
  ctx_new = true;
  bio_new = λ t. true;
  certificates_of = λ t. t;
  key_of = λ t. some 4;
  use_certificate = λ c. true;
  use_private_key = λ k. true;
  check_private_key = true;
  default_verify_paths = true;
}

abbrev nothing_live : Objects
nothing_live = record { contexts = 0; bios = 0; certificates = 0; keys = 0 }

abbrev pair : KeyCertPair
pair = record { private_key = some (4 ∷ []); cert_chain = some (3 ∷ []) }

create_client_context-client_context_example :
    create_client_context openssl (some (5 ∷ [])) (some pair) nothing_live ≡ (
      some (record {
        roots = 5 ∷ [];
        system_roots = false;
        verify_peer = true;
        require_peer = false;
        certificate = some 3;
        private_key = some 4;
        alpn = true;
      }),
      new_context nothing_live,
    )
unfolding first_certificate
create_client_context-client_context_example =
    create_client_context-client_context openssl (some (5 ∷ [])) (some pair) nothing_live

create_server_context-usable_pair_example :
    create_server_context openssl none (pair ∷ []) nothing_live
    ≡ (some (server_context openssl none 3 4), new_context nothing_live)
unfolding first_certificate
create_server_context-usable_pair_example =
    create_server_context-usable_pair openssl none (pair ∷ []) nothing_live
