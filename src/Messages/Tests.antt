-- ===== src/Messages/Tests.antt =====
-- Messages that are their own bytes (src/grpc_protobuf.c).
use grpc_c.Common.{
  ℕ, ◌≡◌, refl, arith, true, none, some, List, [], ◌∷◌, length, ◌==◌, if◌then◌else◌,
}
use grpc_c.Common.Fallible.{success, failure}
use grpc_c.Messages.{Protobuf, serialize, deserialize, serialize_to_buffer, message_size}
use grpc_c.Messages.Laws.{ProtobufLaws, deserialize-serialize}

abbrev plain : Protobuf (List ℕ) ℕ
plain = record {
  packed_size = λ msg. length msg;
  pack = λ msg. msg;
  unpack = λ d bytes. some bytes;
}

plain-ProtobufLaws : ProtobufLaws plain 0
plain-ProtobufLaws = record { packed = λ msg. refl; unpacked = λ msg. refl }

deserialize-serialize_example :
    (deserialize plain (serialize plain (λ i. true) 0 (some (8 ∷ 1 ∷ []))) (some 0) ≡ (
      if message_size plain (some (8 ∷ 1 ∷ [])) == 0
      then (none, failure)
      else (some (8 ∷ 1 ∷ []), success)))
    × (serialize_to_buffer plain (some (8 ∷ 1 ∷ [])) (some 16)
        ≡ (8 ∷ 1 ∷ [], message_size plain (some (8 ∷ 1 ∷ []))))
deserialize-serialize_example =
    deserialize-serialize plain 0 plain-ProtobufLaws (λ i. true) 0 (8 ∷ 1 ∷ []) 16 (λ i. refl)
      (omega arith)
