-- ===== src/Nodes/Above.antt =====
-- An allocator for the nodes of linked lists that never gives an address twice.
use grpc_c.Common.{ℕ, ◌+◌, ◌≤◌, ◌≡◌, refl, arith, none, [], ◌∷◌}
use grpc_c.Nodes.{Memory, look, IsFresh}

module _ {A : Type 0} where
  abbrev pub above : Memory A → ℕ
  above [] = 1
  above ((a, n) ∷ m) = a + 1 + above m

  above_unused : (m : Memory A) (p : ℕ) → above m ≤ p → look p m ≡ none
  unfolding look
  above_unused [] p h = refl
  above_unused ((a, n) ∷ m) p h = ground (arith, h, above_unused m p (omega (arith, h)))

  pub above-IsFresh : IsFresh above
  above-IsFresh m = above_unused m (above m) (omega arith)
