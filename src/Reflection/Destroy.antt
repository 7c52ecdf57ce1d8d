-- ===== src/Reflection/Destroy.antt =====
-- The end of the reflection registry (src/reflection.c): what its destruction frees. Here an object
-- is its block and those of its strings and lists.
use mathlib.Core.List.{Perm}
use grpc_c.Common.{ℕ, ◌≡◌, Option, List, [], ◌∷◌, ◌++◌}
use grpc_c.Transport.{Run, returns, ◌>>=◌}
use grpc_c.Blocks.{
  Live, free_block, free_pointer, pointer, destroy_list, blocks_of_all, Frees, free_block-Frees,
  free_pointer-Frees, then_Frees, destroy_list-Frees, Frees-returns,
}

pub record MethodBlocks : Type 0 where
  pub method : ℕ
  pub method_name : Option ℕ
  pub input_type : Option ℕ
  pub output_type : Option ℕ

pub record ServiceBlocks : Type 0 where
  pub service : ℕ
  pub service_name : Option ℕ
  pub package_name : Option ℕ
  pub methods : List MethodBlocks

pub record RegistryBlocks : Type 0 where
  pub registry : ℕ
  pub services : List ServiceBlocks

unfoldable pub method_destroy : MethodBlocks → Live → Run Live
method_destroy m live =
    free_pointer m.method_name live
    >>= free_pointer m.input_type
    >>= free_pointer m.output_type
    >>= free_block m.method

unfoldable pub service_destroy : ServiceBlocks → Live → Run Live
unfolding method_destroy
service_destroy s live =
    free_pointer s.service_name live
    >>= free_pointer s.package_name
    >>= destroy_list method_destroy s.methods
    >>= free_block s.service

unfoldable pub registry_destroy : RegistryBlocks → Live → Run Live
unfolding service_destroy
registry_destroy r live = destroy_list service_destroy r.services live >>= free_block r.registry

abbrev pub method_blocks : MethodBlocks → List ℕ
method_blocks m =
    ((pointer m.method_name ++ pointer m.input_type) ++ pointer m.output_type) ++ m.method ∷ []

abbrev pub service_blocks : ServiceBlocks → List ℕ
service_blocks s =
    ((pointer s.service_name ++ pointer s.package_name) ++ blocks_of_all method_blocks s.methods)
    ++ s.service ∷ []

abbrev pub registry_blocks : RegistryBlocks → List ℕ
registry_blocks r = blocks_of_all service_blocks r.services ++ r.registry ∷ []

method_destroy-Frees : (m : MethodBlocks) → Frees (method_destroy m) (method_blocks m)
unfolding method_destroy
method_destroy-Frees m =
    then_Frees _ _ _ _
      (then_Frees _ _ _ _
        (then_Frees _ _ _ _ (free_pointer-Frees m.method_name) (free_pointer-Frees m.input_type))
        (free_pointer-Frees m.output_type))
      (free_block-Frees m.method)

service_destroy-Frees : (s : ServiceBlocks) → Frees (service_destroy s) (service_blocks s)
unfolding service_destroy
service_destroy-Frees s =
    then_Frees _ _ _ _
      (then_Frees _ _ _ _
        (then_Frees _ _ _ _ (free_pointer-Frees s.service_name) (free_pointer-Frees s.package_name))
        (destroy_list-Frees method_destroy method_blocks method_destroy-Frees s.methods))
      (free_block-Frees s.service)

registry_destroy-Frees : (r : RegistryBlocks) → Frees (registry_destroy r) (registry_blocks r)
unfolding registry_destroy
registry_destroy-Frees r =
    then_Frees _ _ _ _
      (destroy_list-Frees service_destroy service_blocks service_destroy-Frees r.services)
      (free_block-Frees r.registry)

-- Where the blocks of a registry are live, those of its services, their methods and all their
-- strings that are not NULL among them, its destruction returns: it frees each of them once, and no
-- other block.
pub registry_destroy_frees :
    (r : RegistryBlocks) (live rest : Live)
    → Perm live (registry_blocks r ++ rest)
    → (live' : Live) × (registry_destroy r live ≡ returns live') × Perm live' rest
registry_destroy_frees r live rest =
    Frees-returns (registry_destroy r) (registry_blocks r) live rest (registry_destroy-Frees r)
