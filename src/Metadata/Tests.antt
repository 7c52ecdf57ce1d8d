-- ===== src/Metadata/Tests.antt =====
-- An addition to a full metadata array (src/enhanced_features.c).
use grpc_c.Common.{◌≡◌, refl, arith, true, some, [], ◌∷◌, take}
use grpc_c.Common.Memory.{Alloc, c_string}
use grpc_c.Common.Fallible.{Status}
use grpc_c.Transport.{returns}
use grpc_c.Metadata.{MetadataArray, live, entry, add}
use grpc_c.Metadata.Laws.{IsValid, Effect, add-Effect}

abbrev full_array : MetadataArray
full_array = record { metadata = entry (97 ∷ []) (1 ∷ []) 1 ∷ []; capacity = 1; storage = live }

abbrev full_array-IsValid : IsValid full_array
full_array-IsValid = record { owned = refl; within = omega arith; positive = omega arith }

abbrev granted : Alloc
granted k = true

add-Effect_example :
    (r : MetadataArray × Status) × (add granted 0 full_array
        (some (98 ∷ 0 ∷ 99 ∷ []))
        (some (5 ∷ 6 ∷ 7 ∷ []))
        2
      ≡ returns r)
    × Effect granted 0 full_array
        (entry (c_string (98 ∷ 0 ∷ 99 ∷ [])) (take 2 (5 ∷ 6 ∷ 7 ∷ [])) 2)
        r
add-Effect_example =
    add-Effect granted 0 full_array (98 ∷ 0 ∷ 99 ∷ []) (5 ∷ 6 ∷ 7 ∷ []) 2 full_array-IsValid
      (omega arith)
