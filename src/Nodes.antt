-- ===== src/Nodes.antt =====
-- Nodes of linked lists in memory: those of the completion queue (src/grpc_core.c) and of the
-- chains of interceptors (src/interceptors.c). A pointer is `none` for NULL; an access to a node
-- that is not there, or was freed, is a fault.
pub mod Chain
pub mod Owned
pub mod Above
use grpc_c.Common.{
  Bool, ℕ, zero, suc, ◌≡◌, ◌≢◌, Option, none, some, List, [], ◌∷◌, ◌==◌, if◌then◌else◌, All,
}
use grpc_c.Transport.{Run, returns, deadlock, fault, ◌>>=◌}

module _ (A : Type 0) where
  pub record Node : Type 0 where
    pub item : A
    pub next : Option ℕ

  -- What was last stored at each address, the latest first; `none` where a node was freed.
  abbrev pub Memory : Type 0
  Memory = List (ℕ × Option Node)

module _ {A : Type 0} where
  unfoldable pub look : ℕ → Memory A → Option (Node A)
  look p [] = none
  look p ((a, n) ∷ rest) = if a == p then n else look p rest

  abbrev pub store : ℕ → Option (Node A) → Memory A → Memory A
  store p n m = (p, n) ∷ m

  unfoldable pub load : ℕ → Memory A → Run (Node A)
  unfolding look
  load p m = elim (look p m) [ none ↦ fault | some n ↦ returns n ]

  unfoldable pub free : ℕ → Memory A → Run (Memory A)
  unfolding load
  free p m = load p m >>= λ n. returns (store p none m)

  -- p->next = q
  unfoldable pub set_next : ℕ → ℕ → Memory A → Run (Memory A)
  unfolding load
  set_next p q m = load p m >>= λ n. returns (store p (some (record n { next = some q })) m)

  -- while (node): the node after it is read before it is freed. A loop that goes on after its
  -- rounds is a deadlock here.
  unfoldable pub free_from : ℕ → Option ℕ → Memory A → Run (Memory A)
  unfolding load free
  free_from rounds none m = returns m
  free_from zero (some p) m = deadlock
  free_from (suc rounds) (some p) m =
      (load p m >>= λ n. free p m >>= λ m'. free_from rounds n.next m')

  -- Where malloc puts a node holds none.
  abbrev pub IsFresh : (Memory A → ℕ) → Type 0
  IsFresh malloc = (m : Memory A) → look (malloc m) m ≡ none

-- The result of malloc, which gives the address `p` if it succeeds.
unfoldable pub malloc_if : Bool → ℕ → Option ℕ
malloc_if ok p = if ok then some p else none
