-- ===== src/Interceptors/Linked.antt =====
-- The interceptor chains as linked lists in memory (src/interceptors.c): the head and the tail
-- pointer, and what an addition, a run and the destruction do with the nodes.
pub mod Refines
use grpc_c.Common.{ℕ, zero, suc, ◌+◌, Bool, Option, none, some, List, [], ◌∷◌}
use grpc_c.Common.Int.{ℤ, pos, negsuc}
use grpc_c.Common.Fallible.{Status, success, failure}
use grpc_c.Transport.{Run, returns, deadlock, fault, ◌>>=◌}
use grpc_c.Nodes.{Node, Memory, store, load, set_next, free_from, malloc_if}
use grpc_c.Interceptors.{Interceptor, InterceptorNode}
use grpc_c.Interceptors.Contexts.{ServerContext}

pub record LinkedChain : Type 0 where
  pub head : Option ℕ
  pub tail : Option ℕ
  pub count : ℕ

module _ (S D : Type 0) where
  abbrev pub ChainState : Type 0
  ChainState = Memory (InterceptorNode S D) × LinkedChain

  -- The arguments of an addition, and whether its node is allocated.
  pub record Addition : Type 0 where
    pub interceptor : Option (Interceptor S D)
    pub user_data : D
    pub allocated : Bool

-- As the creation of a chain leaves it.
abbrev pub linked_chain : LinkedChain
linked_chain = record { head = none; tail = none; count = 0 }

module _ {S D : Type 0} where
  -- As the head and the tail if there is no head, and else behind the tail.
  unfoldable pub link_interceptor : ℕ → ChainState S D → Run (ChainState S D)
  unfolding set_next
  link_interceptor p (m, c) = elim c.head [
    | none ↦ returns (m, record c { head = some p; tail = some p; count = c.count + 1 })
    | some first ↦ elim c.tail [
      | none ↦ fault
      | some t ↦
          (set_next t p m >>= λ m'. returns (m', record c { tail = some p; count = c.count + 1 }))
    ]
  ]

  -- `at` is where the node is put, if it is allocated.
  unfoldable pub add_linked :
      Option ℕ → Option (Interceptor S D) → D → ChainState S D → Run (ChainState S D × Status)
  unfolding link_interceptor
  add_linked at none user_data st = returns (st, failure)
  add_linked none (some func) user_data st = returns (st, failure)
  add_linked (some p) (some func) user_data (m, c) =
      let item : InterceptorNode S D = record { interceptor_func = func; user_data = user_data } in
      (link_interceptor p (store p (some (record { item = item; next = none })) m, c) >>= λ st.
      returns (st, success))

  unfoldable pub add_linked_all :
      (Memory (InterceptorNode S D) → ℕ)
      → List (Addition S D)
      → ChainState S D
      → Run (ChainState S D × List Status)
  unfolding add_linked malloc_if
  add_linked_all malloc [] st = returns (st, [])
  add_linked_all malloc (a ∷ rest) st =
      (add_linked (malloc_if a.allocated (malloc st.0)) a.interceptor a.user_data st
        >>= λ (st', status). add_linked_all malloc rest st' >>= λ (last, statuses).
            returns (last, status ∷ statuses))

  -- while (node && result == 0). A loop that goes on after its rounds is a deadlock here.
  unfoldable pub walk : ℕ → Memory (InterceptorNode S D) → Option ℕ → S → ℤ → Run (S × ℤ)
  unfolding load
  walk rounds m none s result = returns (s, result)
  walk rounds m (some p) s (pos (suc n)) = returns (s, pos (suc n))
  walk rounds m (some p) s (negsuc n) = returns (s, negsuc n)
  walk zero m (some p) s (pos zero) = deadlock
  walk (suc rounds) m (some p) s (pos zero) =
      (load p m >>= λ node.
      walk rounds m node.next (node.item.interceptor_func node.item.user_data s).0
        (node.item.interceptor_func node.item.user_data s).1)

  unfoldable pub execute_linked : ℕ → ChainState S D → S → Run (S × ℤ)
  unfolding walk
  execute_linked rounds (m, c) s = walk rounds m c.head s (pos 0)

  unfoldable pub chain_destroy : ℕ → ChainState S D → Run (Memory (InterceptorNode S D))
  unfolding free_from
  chain_destroy rounds (m, c) = free_from rounds c.head m

-- The destruction of a server's chain has the same body.
unfoldable pub server_chain_destroy :
    {S D : Type 0}
    → ℕ
    → ChainState (ServerContext × S) D
    → Run (Memory (InterceptorNode (ServerContext × S) D))
unfolding chain_destroy
server_chain_destroy rounds st = chain_destroy rounds st
