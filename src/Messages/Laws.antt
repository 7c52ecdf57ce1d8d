-- ===== src/Messages/Laws.antt =====
-- Messages through buffers and back (src/grpc_protobuf.c, src/grpc_core.c).
use grpc_c.Common.{
  ℕ, ◌+◌, ◌≤◌, ◌≡◌, refl, arith, true, false, none, some, length, ltb, ◌==◌, if◌then◌else◌,
  Bool-cases, inl, inr, take-length,
}
use grpc_c.Common.Fallible.{success, failure}
use grpc_c.Common.Memory.{Alloc}
use grpc_c.Messages.{
  byte_buffer_create, Protobuf, serialize, deserialize, serialize_to_buffer, message_size,
}

-- What the documentation of protobuf-c says: the size is that of what is packed, and a message
-- unpacks to itself.
pub record ProtobufLaws {M D : Type 0} (p : Protobuf M D) (descriptor : D) : Type 0 where
  pub packed : (msg : M) → length (p.pack msg) ≡ p.packed_size msg
  pub unpacked : (msg : M) → p.unpack descriptor (p.pack msg) ≡ some msg

module _ {M D : Type 0} (p : Protobuf M D) (descriptor : D) (laws : ProtobufLaws p descriptor) where
  -- Under the laws of protobuf-c and with memory, a message whose size is not 0 is serialized and
  -- gives itself back, and one whose size is 0 is refused like an error. Into a buffer of the
  -- caller that is large enough the same bytes are written, with their number as the result.
  pub deserialize-serialize :
      (alloc : Alloc) (k : ℕ) (msg : M) (buffer_size : ℕ)
      → ((i : ℕ) → alloc i ≡ true)
      → p.packed_size msg ≤ buffer_size
      → (deserialize p (serialize p alloc k (some msg)) (some descriptor)
          ≡ (if message_size p (some msg) == 0 then (none, failure) else (some msg, success)))
        × (serialize_to_buffer p (some msg) (some buffer_size)
            ≡ (p.pack msg, message_size p (some msg)))
  unfolding serialize deserialize serialize_to_buffer message_size byte_buffer_create
  deserialize-serialize alloc k msg buffer_size granted fits =
      let room : ltb buffer_size (p.packed_size msg) ≡ false = ground arith in
      let size = laws.packed msg in
      (
        (elim (Bool-cases (p.packed_size msg == 0)) [
          | inl empty ↦ ground (arith, empty)
          | inr filled ↦
              let exact : (length (p.pack msg) == p.packed_size msg) ≡ true =
                ground (arith, size) in
              rw
                (
                  filled,
                  granted k,
                  exact,
                  byte_buffer_create,
                  granted (k + 1),
                  granted (k + 1 + 1),
                  take-length (p.pack msg),
                  laws.unpacked msg,
                )
                refl
        ]),
        rw (room, size) refl,
      )
