-- ===== src/Interceptors.antt =====
-- The interceptor chains (src/interceptors.c). The chains of clients and servers have the same
-- code over their own contexts: S is what an interceptor may read and change, the context and what
-- it points at, without user_data; D is the type of user_data. An interceptor gives its int
-- result.
pub mod Laws
pub mod Linked
pub mod Contexts
mod Tests
use grpc_c.Common.{
  ℕ, zero, suc, ◌+◌, Bool, true, false, Option, none, some, List, [], ◌∷◌, ◌++◌, if◌then◌else◌,
}
use grpc_c.Common.Int.{ℤ, pos, negsuc}
use grpc_c.Common.Fallible.{Status, success, failure}

module _ (S D : Type 0) where
  abbrev pub Interceptor : Type 0
  Interceptor = D → S → S × ℤ

  pub record InterceptorNode : Type 0 where
    pub interceptor_func : Interceptor
    pub user_data : D

  -- The list from head to tail; `count` is kept beside it.
  pub record InterceptorChain : Type 0 where
    pub nodes : List InterceptorNode
    pub count : ℕ

module _ {S D : Type 0} where
  unfoldable pub chain_create : Bool → Option (InterceptorChain S D)
  chain_create ok = if ok then some (record { nodes = []; count = 0 }) else none

  -- `ok` is the heap request for the node; an interceptor that is NULL is `none`.
  unfoldable pub chain_add :
      Bool → InterceptorChain S D → Option (Interceptor S D) → D → InterceptorChain S D × Status
  chain_add ok chain none user_data = (chain, failure)
  chain_add ok chain (some func) user_data =
      if ok
      then (
        record chain {
          nodes = chain.nodes ++ record { interceptor_func = func; user_data = user_data } ∷ [];
          count = chain.count + 1;
        },
        success,
      )
      else (chain, failure)

  -- while (node && result == 0); a result that is not 0 ends the loop.
  unfoldable pub execute_from : List (InterceptorNode S D) → S → ℤ → S × ℤ
  execute_from [] s result = (s, result)
  execute_from (node ∷ rest) s result =
      let step = node.interceptor_func node.user_data s in
      let next = execute_from rest step.0 step.1 in
      elim result [
        | pos n ↦ (elim n [ zero ↦ next | suc m ↦ (s, pos (suc m)) ])
        | negsuc n ↦ (s, negsuc n)
      ]

  unfoldable pub chain_execute : InterceptorChain S D → S → S × ℤ
  unfolding execute_from
  chain_execute chain s = execute_from chain.nodes s (pos 0)
