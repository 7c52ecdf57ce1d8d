-- ===== src/LoadBalancing/Destroy.antt =====
-- The end of a policy (src/load_balancing.c): what its destruction frees. Here an object is its
-- block and those of its strings and lists.
use mathlib.Core.List.{Perm}
use grpc_c.Common.{ℕ, ◌≡◌, Option, List, [], ◌∷◌, ◌++◌}
use grpc_c.Transport.{Run, returns, ◌>>=◌}
use grpc_c.Blocks.{
  Live, free_block, free_pointer, pointer, destroy_list, blocks_of_all, Frees, free_block-Frees,
  free_pointer-Frees, then_Frees, destroy_list-Frees, Frees-returns,
}

pub record AddressBlocks : Type 0 where
  pub node : ℕ
  pub address : Option ℕ

pub record PolicyBlocks : Type 0 where
  pub policy : ℕ
  pub addresses : List AddressBlocks

unfoldable pub address_destroy : AddressBlocks → Live → Run Live
address_destroy a live = free_pointer a.address live >>= free_block a.node

unfoldable pub policy_destroy : PolicyBlocks → Live → Run Live
unfolding address_destroy
policy_destroy p live = destroy_list address_destroy p.addresses live >>= free_block p.policy

abbrev pub address_blocks : AddressBlocks → List ℕ
address_blocks a = pointer a.address ++ a.node ∷ []

abbrev pub policy_blocks : PolicyBlocks → List ℕ
policy_blocks p = blocks_of_all address_blocks p.addresses ++ p.policy ∷ []

address_destroy-Frees : (a : AddressBlocks) → Frees (address_destroy a) (address_blocks a)
unfolding address_destroy
address_destroy-Frees a =
    then_Frees _ _ _ _ (free_pointer-Frees a.address) (free_block-Frees a.node)

policy_destroy-Frees : (p : PolicyBlocks) → Frees (policy_destroy p) (policy_blocks p)
unfolding policy_destroy
policy_destroy-Frees p =
    then_Frees _ _ _ _
      (destroy_list-Frees address_destroy address_blocks address_destroy-Frees p.addresses)
      (free_block-Frees p.policy)

-- The destruction of a policy whose blocks are live frees each of them once, and no other.
pub policy_destroy_frees :
    (p : PolicyBlocks) (live rest : Live)
    → Perm live (policy_blocks p ++ rest)
    → (live' : Live) × (policy_destroy p live ≡ returns live') × Perm live' rest
policy_destroy_frees p live rest =
    Frees-returns (policy_destroy p) (policy_blocks p) live rest (policy_destroy-Frees p)
