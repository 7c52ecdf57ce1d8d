-- ===== src/Reflection/Tests.antt =====
-- A registry with two services (src/reflection.c), and its theorems at concrete inputs.
use mathlib.Core.List.{Perm}
use mathlib.Core.List.Perm
use grpc_c.Common.{◌++◌, ℕ, ◌≡◌, refl, true, false, Option, none, some, List, [], ◌∷◌}
use grpc_c.Common.Memory.{Alloc, same_string}
use grpc_c.Transport.{returns, fault, ◌>>=◌}
use grpc_c.Reflection.{
  ServiceDescriptor, MethodDescriptor, Registry, add_method, get_full_method_name,
}
use grpc_c.Blocks.{Live, free_pointer, destroy_list, blocks_of_all}
use grpc_c.Reflection.Destroy.{
  RegistryBlocks, registry_destroy, registry_blocks, registry_destroy_frees,
}
use grpc_c.Reflection.Lookup.{IsValid}

abbrev service_of : ℕ → Option (List ℕ) → ServiceDescriptor
service_of name in_package = record {
  service_name = name ∷ [];
  package_name = in_package;
  methods = [];
  method_count = 0;
}

abbrev registry : Registry
registry = record {
  services = service_of 65 (some (112 ∷ [])) ∷ service_of 66 none ∷ [];
  service_count = 2;
}

abbrev registry-IsValid : IsValid registry
registry-IsValid = record { counted = refl; each = (refl, (refl, tt)) }

abbrev all_granted : Alloc
all_granted k = true

abbrev method : MethodDescriptor
method = record {
  method_name = 71 ∷ 101 ∷ 116 ∷ [];
  input_type = 73 ∷ [];
  output_type = 79 ∷ [];
  client_streaming = false;
  server_streaming = true;
}

-- "/p.A/Ge" for the method "Get" of the service "A" of the package "p".
full_name_cut :
    get_full_method_name true true (service_of 65 (some (112 ∷ []))) method
    ≡ some (47 ∷ 112 ∷ 46 ∷ 65 ∷ 47 ∷ 71 ∷ 101 ∷ [])
unfolding get_full_method_name
full_name_cut = refl

-- strdup of NULL, which nothing guards against.
null_type :
    add_method all_granted 0 registry (65 ∷ []) (71 ∷ []) none (some (79 ∷ [])) false false ≡ fault
unfolding add_method same_string
null_type = refl

-- The blocks of a registry with a service of one method.
abbrev blocks : RegistryBlocks
blocks = record {
  registry = 1;
  services =
      record {
        service = 2;
        service_name = some 3;
        package_name = none;
        methods =
            record { method = 4; method_name = some 5; input_type = some 6; output_type = some 7 }
            ∷ [];
      }
      ∷ [];
}

registry_destroyed :
    registry_destroy blocks (1 ∷ 2 ∷ 3 ∷ 4 ∷ 5 ∷ 90 ∷ 6 ∷ 7 ∷ []) ≡ returns (90 ∷ [])
unfolding registry_destroy free_pointer destroy_list
registry_destroyed = refl

-- To destroy it twice frees a block that is not live.
destroyed_twice :
    (registry_destroy blocks (registry_blocks blocks) >>= registry_destroy blocks) ≡ fault
unfolding registry_destroy free_pointer destroy_list blocks_of_all
destroyed_twice = refl

registry_destroy_frees_example :
    (live' : Live) × (registry_destroy blocks (registry_blocks blocks ++ 90 ∷ []) ≡ returns live')
    × Perm live' (90 ∷ [])
registry_destroy_frees_example =
    registry_destroy_frees blocks (registry_blocks blocks ++ 90 ∷ []) (90 ∷ []) (Perm.refl _)
