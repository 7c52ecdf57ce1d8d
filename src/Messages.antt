-- ===== src/Messages.antt =====
-- Byte buffers and the state of the library (src/grpc_core.c), messages of Protocol Buffers
-- (src/grpc_protobuf.c) and credentials (src/grpc_credentials.c). protobuf-c is a parameter.
pub mod Laws
pub mod Release
mod Tests
use grpc_c.Common.{
  ℕ, zero, suc, ◌+◌, Bool, true, false, Option, none, some, List, [], ◌∷◌, ◌++◌, length, take, leb,
  ltb, ◌==◌, if◌then◌else◌,
}
use grpc_c.Common.Fallible.{Status, success, failure}
use grpc_c.Common.Memory.{Alloc}

pub record ByteBuffer : Type 0 where
  pub data_bytes : List ℕ
  pub length_field : ℕ
  pub capacity : ℕ

-- The two heap requests are for the structure and for the copy.
unfoldable pub byte_buffer_create : Alloc → ℕ → List ℕ → Option ByteBuffer
byte_buffer_create alloc k bytes =
    if alloc k
    then (if alloc (k + 1)
        then some
            (record { data_bytes = bytes; length_field = length bytes; capacity = length bytes })
        else none)
    else none

-- What protobuf-c answers for messages M with descriptors D.
pub record Protobuf (M D : Type 0) : Type 0 where
  pub packed_size : M → ℕ
  pub pack : M → List ℕ
  pub unpack : D → List ℕ → Option M

module _ {M D : Type 0} (p : Protobuf M D) where
  -- The first heap request is for the bytes, the others for the buffer.
  unfoldable pub serialize : Alloc → ℕ → Option M → Option ByteBuffer
  unfolding byte_buffer_create
  serialize alloc k none = none
  serialize alloc k (some msg) =
      if p.packed_size msg == 0
      then none
      else if alloc k
      then (if length (p.pack msg) == p.packed_size msg
          then byte_buffer_create alloc (k + 1) (p.pack msg)
          else none)
      else none

  unfoldable pub deserialize : Option ByteBuffer → Option D → Option M × Status
  deserialize none descriptor = (none, failure)
  deserialize (some buffer) none = (none, failure)
  deserialize (some buffer) (some descriptor) =
      elim (p.unpack descriptor (take buffer.length_field buffer.data_bytes)) [
        | none ↦ (none, failure)
        | some msg ↦ (some msg, success)
      ]

  unfoldable pub message_size : Option M → ℕ
  message_size none = 0
  message_size (some msg) = p.packed_size msg

  -- What is written to a buffer of the caller, and the result. The buffer may be NULL.
  unfoldable pub serialize_to_buffer : Option M → Option ℕ → List ℕ × ℕ
  serialize_to_buffer none buffer_size = ([], 0)
  serialize_to_buffer (some msg) none = ([], 0)
  serialize_to_buffer (some msg) (some buffer_size) =
      if ltb buffer_size (p.packed_size msg) then ([], 0) else (p.pack msg, length (p.pack msg))

unfoldable pub protobuf_buffer_create : Alloc → ℕ → List ℕ → Option ByteBuffer
unfolding byte_buffer_create
protobuf_buffer_create alloc k bytes = byte_buffer_create alloc k bytes

-- g_grpc_initialized
unfoldable pub init : Bool → Bool
init initialized = if initialized then initialized else true

unfoldable pub shutdown : Bool → Bool
shutdown initialized = if initialized then false else initialized

-- The pairs are known by their address.
pub record ChannelCredentials : Type 0 where
  pub pem_root_certs : Option (List ℕ)
  pub pem_key_cert_pair : Option ℕ

pub record ServerCredentials : Type 0 where
  pub pem_root_certs : Option (List ℕ)
  pub pem_key_cert_pairs : Option ℕ
  pub num_key_cert_pairs : ℕ

-- The copy of the certificates: NULL if there are none; `none` if it fails.
unfoldable pub copy_roots : Bool → Option (List ℕ) → Option (Option (List ℕ))
copy_roots ok none = some none
copy_roots ok (some text) = if ok then some (some text) else none

unfoldable pub ssl_credentials_create :
    Alloc → ℕ → Option (List ℕ) → Option ℕ → Option ChannelCredentials
unfolding copy_roots
ssl_credentials_create alloc k roots pair =
    if alloc k
    then (elim (copy_roots (alloc (k + 1)) roots) [
      | none ↦ none
      | some copy ↦ some (record { pem_root_certs = copy; pem_key_cert_pair = pair })
    ])
    else none

unfoldable pub ssl_server_credentials_create :
    Alloc → ℕ → Option (List ℕ) → Option ℕ → ℕ → Option ServerCredentials
unfolding copy_roots
ssl_server_credentials_create alloc k roots pairs n =
    if alloc k
    then (elim (copy_roots (alloc (k + 1)) roots) [
      | none ↦ none
      | some copy ↦
          some
            (record { pem_root_certs = copy; pem_key_cert_pairs = pairs; num_key_cert_pairs = n })
    ])
    else none
