-- ===== src/Tls.antt =====
-- TLS (src/grpc_tls.c). OpenSSL is a parameter: what its functions answer is an argument. Alpn has
-- the callback that chooses the protocol, Context the creation of contexts, Connection what is
-- done on a connection.
pub mod Alpn
pub mod Context
pub mod Connection
mod Tests
