-- ===== src/NameResolver/Destroy.antt =====
-- The end of a resolver (src/name_resolver.c): what its destruction frees. Here an object is its
-- block and those of its strings and lists.
use mathlib.Core.List.{Perm}
use grpc_c.Common.{ℕ, ◌≡◌, Option, List, [], ◌∷◌, ◌++◌}
use grpc_c.Transport.{Run, returns, ◌>>=◌}
use grpc_c.Blocks.{
  Live, free_block, free_pointer, pointer, destroy_list, blocks_of_all, Frees, free_block-Frees,
  free_pointer-Frees, then_Frees, destroy_list-Frees, Frees-returns,
}

pub record ResolvedBlocks : Type 0 where
  pub node : ℕ
  pub address : Option ℕ

pub record ResolverBlocks : Type 0 where
  pub resolver : ℕ
  pub target : Option ℕ
  pub addresses : List ResolvedBlocks

unfoldable pub resolved_address_destroy : ResolvedBlocks → Live → Run Live
resolved_address_destroy a live = free_pointer a.address live >>= free_block a.node

unfoldable pub resolver_destroy : ResolverBlocks → Live → Run Live
unfolding resolved_address_destroy
resolver_destroy r live =
    destroy_list resolved_address_destroy r.addresses live
    >>= free_pointer r.target
    >>= free_block r.resolver

abbrev pub resolved_blocks : ResolvedBlocks → List ℕ
resolved_blocks a = pointer a.address ++ a.node ∷ []

abbrev pub resolver_blocks : ResolverBlocks → List ℕ
resolver_blocks r =
    (blocks_of_all resolved_blocks r.addresses ++ pointer r.target) ++ r.resolver ∷ []

resolved_address_destroy-Frees :
    (a : ResolvedBlocks) → Frees (resolved_address_destroy a) (resolved_blocks a)
unfolding resolved_address_destroy
resolved_address_destroy-Frees a =
    then_Frees _ _ _ _ (free_pointer-Frees a.address) (free_block-Frees a.node)

resolver_destroy-Frees : (r : ResolverBlocks) → Frees (resolver_destroy r) (resolver_blocks r)
unfolding resolver_destroy
resolver_destroy-Frees r =
    then_Frees _ _ _ _
      (then_Frees _ _ _ _
        (destroy_list-Frees resolved_address_destroy resolved_blocks resolved_address_destroy-Frees
          r.addresses)
        (free_pointer-Frees r.target))
      (free_block-Frees r.resolver)

-- The destruction of a resolver whose blocks are live frees each of them once, and no other.
pub resolver_destroy_frees :
    (r : ResolverBlocks) (live rest : Live)
    → Perm live (resolver_blocks r ++ rest)
    → (live' : Live) × (resolver_destroy r live ≡ returns live') × Perm live' rest
resolver_destroy_frees r live rest =
    Frees-returns (resolver_destroy r) (resolver_blocks r) live rest (resolver_destroy-Frees r)
