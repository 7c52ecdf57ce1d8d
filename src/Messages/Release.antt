-- ===== src/Messages/Release.antt =====
-- What the releases of credentials (src/grpc_credentials.c) and the destruction of byte buffers
-- (src/grpc_core.c) free. Here an object is its block and that of its bytes.
use mathlib.Core.List.{Perm}
use grpc_c.Common.{ℕ, ◌≡◌, Option, [], ◌∷◌, ◌++◌}
use grpc_c.Transport.{Run, returns, ◌>>=◌}
use grpc_c.Blocks.{
  Live, free_block, free_pointer, pointer, free_block-Frees, free_pointer-Frees, then_Frees,
  Frees-returns,
}

-- The pair of a client's credentials and the pairs of a server's are not theirs to free.
pub record CredentialsBlocks : Type 0 where
  pub creds : ℕ
  pub pem_root_certs : Option ℕ

pub record BufferBlocks : Type 0 where
  pub buffer : ℕ
  pub data_bytes : Option ℕ

unfoldable pub channel_credentials_release : CredentialsBlocks → Live → Run Live
channel_credentials_release c live = free_pointer c.pem_root_certs live >>= free_block c.creds

unfoldable pub server_credentials_release : CredentialsBlocks → Live → Run Live
server_credentials_release c live = free_pointer c.pem_root_certs live >>= free_block c.creds

unfoldable pub byte_buffer_destroy : BufferBlocks → Live → Run Live
byte_buffer_destroy b live = free_pointer b.data_bytes live >>= free_block b.buffer

-- The credentials of clients and servers are released alike: where their block and that of their
-- root certificates are live, each is freed once, and no other.
credentials_release_frees :
    (c : CredentialsBlocks) (live rest : Live)
    → Perm live ((pointer c.pem_root_certs ++ c.creds ∷ []) ++ rest)
    → (live' : Live) × (channel_credentials_release c live ≡ returns live')
      × (server_credentials_release c live ≡ returns live')
      × Perm live' rest
unfolding channel_credentials_release server_credentials_release
credentials_release_frees c live rest h =
    let (live', done, left) =
      Frees-returns (channel_credentials_release c) (pointer c.pem_root_certs ++ c.creds ∷ []) live
        rest (then_Frees _ _ _ _ (free_pointer-Frees c.pem_root_certs) (free_block-Frees c.creds))
        h in
    (live', done, done, left)

-- The same of a byte buffer.
byte_buffer_destroy_frees :
    (b : BufferBlocks) (live rest : Live)
    → Perm live ((pointer b.data_bytes ++ b.buffer ∷ []) ++ rest)
    → (live' : Live) × (byte_buffer_destroy b live ≡ returns live') × Perm live' rest
unfolding byte_buffer_destroy
byte_buffer_destroy_frees b live rest =
    Frees-returns (byte_buffer_destroy b) (pointer b.data_bytes ++ b.buffer ∷ []) live rest
      (then_Frees _ _ _ _ (free_pointer-Frees b.data_bytes) (free_block-Frees b.buffer))
