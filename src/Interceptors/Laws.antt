-- ===== src/Interceptors/Laws.antt =====
-- The order of the interceptors, and where a chain stops (src/interceptors.c).
use mathlib.Core.Path.{subst}
use grpc_c.Common.{
  zero, suc, ◌≡◌, ◌≢◌, refl, sym, ap, ◌∙◌, ◌⊎◌, arith, true, some, List, [], ◌∷◌, ◌++◌, inl, inr,
}
use grpc_c.Common.Int.{ℤ, pos, negsuc}
use grpc_c.Interceptors.{
  Interceptor, InterceptorNode, InterceptorChain, chain_add, execute_from, chain_execute,
}

zero_or_not : (z : ℤ) → (z ≡ pos 0) ⊎ (z ≢ pos 0)
zero_or_not (pos zero) = inl refl
zero_or_not (pos (suc n)) = inr (λ e. ground (arith, e))
zero_or_not (negsuc n) = inr (λ e. ground (arith, e))

-- To go on only after a result of 0.
abbrev pub and_then : {S : Type 0} → S × ℤ → (S → S × ℤ) → S × ℤ
and_then (s, pos zero) f = f s
and_then (s, pos (suc n)) f = (s, pos (suc n))
and_then (s, negsuc n) f = (s, negsuc n)

module _ {S D : Type 0} where
  -- Every interceptor of the list succeeds, each in the state that those before it leave; `t` is
  -- the last state.
  unfoldable pub AllSucceed : List (InterceptorNode S D) → S → S → Type 0
  AllSucceed [] s t = s ≡ t
  AllSucceed (node ∷ rest) s t =
      ((node.interceptor_func node.user_data s).1 ≡ pos 0)
      × AllSucceed rest (node.interceptor_func node.user_data s).0 t

  -- What is known of a run of a list of interceptors.
  abbrev pub Ran : List (InterceptorNode S D) → S → S × ℤ → Type 0
  Ran nodes s r =
      ((r.1 ≡ pos 0) × AllSucceed nodes s r.0)
      ⊎ ((before : List (InterceptorNode S D)) × (node : InterceptorNode S D) × (after : List
            (InterceptorNode S D))
          × (t : S) × (nodes ≡ before ++ node ∷ after)
          × AllSucceed before s t
          × (r ≡ node.interceptor_func node.user_data t)
          × (r.1 ≢ pos 0))

  -- Nothing runs after a result that is not 0.
  execute_from_stops :
      (nodes : List (InterceptorNode S D)) (s : S) (z : ℤ)
      → z ≢ pos 0
      → execute_from nodes s z ≡ (s, z)
  unfolding execute_from
  execute_from_stops [] s z h = refl
  execute_from_stops (node ∷ rest) s (pos zero) h = absurd (h refl)
  execute_from_stops (node ∷ rest) s (pos (suc n)) h = refl
  execute_from_stops (node ∷ rest) s (negsuc n) h = refl

  execute_from-Ran :
      (nodes : List (InterceptorNode S D)) (s : S) → Ran nodes s (execute_from nodes s (pos 0))
  unfolding execute_from AllSucceed
  execute_from-Ran [] s = inl (refl, refl)
  execute_from-Ran (node ∷ rest) s =
      let step : S × ℤ = node.interceptor_func node.user_data s in
      elim (zero_or_not step.1) [
        | inr stop ↦
            let ended : execute_from rest step.0 step.1 ≡ step =
              execute_from_stops rest step.0 step.1 stop in
            inr (
              [],
              node,
              rest,
              s,
              refl,
              refl,
              ended,
              λ e. stop (sym (ap (λ (r : S × ℤ). r.1) ended) ∙ e),
            )
        | inl go ↦
            let on : execute_from rest step.0 (pos 0) ≡ execute_from rest step.0 step.1 =
              ap (execute_from rest step.0) (sym go) in
            elim (execute_from-Ran rest step.0) [
              | inl (good, succeed) ↦ inl (
                sym (ap (λ (r : S × ℤ). r.1) on) ∙ good,
                (go, subst (AllSucceed rest step.0) (ap (λ (r : S × ℤ). r.0) on) succeed),
              )
              | inr (before, n, after, t, split, succeed, same, bad) ↦ inr (
                node ∷ before,
                n,
                after,
                t,
                ap (◌∷◌ node) split,
                (go, succeed),
                sym on ∙ same,
                λ e. bad (ap (λ (r : S × ℤ). r.1) on ∙ e),
              )
            ]
      ]

  -- A chain runs its interceptors in order, each in the state that the one before left. Either all
  -- succeed and the result is 0, or the result and the state are those of the first that does not
  -- succeed, and none after it is run.
  pub chain_execute-Ran :
      (chain : InterceptorChain S D) (s : S) → Ran chain.nodes s (chain_execute chain s)
  unfolding chain_execute
  chain_execute-Ran chain s = execute_from-Ran chain.nodes s

  execute_from-append :
      (xs : List (InterceptorNode S D)) (node : InterceptorNode S D) (s : S) (z : ℤ)
      → execute_from (xs ++ node ∷ []) s z
        ≡ and_then (execute_from xs s z) (node.interceptor_func node.user_data)
  unfolding execute_from
  execute_from-append [] node s (pos zero) = refl
  execute_from-append [] node s (pos (suc n)) = refl
  execute_from-append [] node s (negsuc n) = refl
  execute_from-append (x ∷ xs) node s (pos zero) =
      execute_from-append xs node (x.interceptor_func x.user_data s).0
        (x.interceptor_func x.user_data s).1
  execute_from-append (x ∷ xs) node s (pos (suc n)) = refl
  execute_from-append (x ∷ xs) node s (negsuc n) = refl

  -- An interceptor that is added to a chain runs after the others: a run of the chain ends as
  -- before if its result was not 0, and otherwise goes on with the new interceptor in the state
  -- that the others left.
  chain_execute-chain_add :
      (chain : InterceptorChain S D) (func : Interceptor S D) (user_data : D) (s : S)
      → chain_execute (chain_add true chain (some func) user_data).0 s
        ≡ and_then (chain_execute chain s) (func user_data)
  unfolding chain_execute chain_add
  chain_execute-chain_add chain func user_data s =
      execute_from-append chain.nodes (record { interceptor_func = func; user_data = user_data }) s
        (pos 0)
