-- ===== src/Interceptors/Linked/Refines.antt =====
-- The chains in memory behave as the lists of their interceptors (src/interceptors.c).

use mathlib.Core.List.{map-append}
use grpc_c.Common.{
  Option-cases, Bool-cases, inl, inr, ℕ, zero, suc, ◌+◌, ◌≡◌, refl, sym, ap, ◌∙◌, arith, true,
  Option, none, some, List, [], ◌∷◌, ◌++◌, map, length, length-map,
}
use grpc_c.Common.Int.{ℤ, pos, negsuc}
use grpc_c.Common.Fallible.{Status}
use grpc_c.Transport.{returns}
use grpc_c.Nodes.{Memory, look, store, malloc_if, IsFresh}
use grpc_c.Nodes.Chain.{Chain, Chain-nil, Chain-cons, last_of, last_of_snoc}
use grpc_c.Nodes.Owned.{
  Owns, Owns-nil, Owns-empty, Owns-first, Owns-push_back, Owns-pop_front, free_from_lem,
}
use grpc_c.Interceptors.{
  InterceptorNode, InterceptorChain, chain_create, chain_add, execute_from, chain_execute,
}
use grpc_c.Interceptors.Linked.{
  LinkedChain, ChainState, Addition, linked_chain, link_interceptor, add_linked, add_linked_all,
  walk, execute_linked, chain_destroy,
}

module _ {S D : Type 0} where
  -- The additions on the list of interceptors, with their results.
  unfoldable pub add_all :
      List (Addition S D) → InterceptorChain S D → InterceptorChain S D × List Status
  add_all [] chain = (chain, [])
  add_all (a ∷ rest) chain =
      let (after, status) = chain_add a.allocated chain a.interceptor a.user_data in
      let (last, statuses) = add_all rest after in (last, status ∷ statuses)

  module _ (m₀ : Memory (InterceptorNode S D)) where
    -- The nodes that were not in memory m₀ are those of the chain, in order.
    pub record Stands (st : ChainState S D) (chain : InterceptorChain S D) : Type 0 where
      pub cells : List (ℕ × InterceptorNode S D)
      pub owns : Owns m₀ st.0 st.1.head cells
      pub tail : st.1.tail ≡ last_of cells
      pub nodes : map (λ c. c.1) cells ≡ chain.nodes
      pub count : st.1.count ≡ chain.count

    link_stands :
        (p : ℕ) (item : InterceptorNode S D) (m : Memory (InterceptorNode S D)) (c : LinkedChain)
        (cells : List (ℕ × InterceptorNode S D))
        → Owns m₀ m c.head cells
        → c.tail ≡ last_of cells
        → look p m ≡ none
        → (st : ChainState S D) × (link_interceptor p
              (store p (some (record { item = item; next = none })) m, c)
            ≡ returns st)
          × Owns m₀ st.0 st.1.head (cells ++ (p, item) ∷ [])
          × (st.1.tail ≡ last_of (cells ++ (p, item) ∷ []))
          × (st.1.count ≡ c.count + 1)
    unfolding link_interceptor last_of
    link_stands p item m c [] owns tail unused = (
      (store p _ m, record c { head = some p; tail = some p; count = c.count + 1 }),
      ground (arith, Owns-nil m₀ m c.head owns),
      Owns-first m₀ m p item c.head owns unused,
      refl,
      refl,
    )
    link_stands p item m c ((a, x) ∷ cells) owns tail unused =
        let (t, m', is_last, linked, owned) =
          Owns-push_back m₀ m p item c.head (a, x) cells owns unused in
        let first : c.head ≡ some a = (Owns-pop_front m₀ m c.head a x cells owns).1 in
        (
          (m', record c { tail = some p; count = c.count + 1 }),
          ground (arith, first, tail, is_last, linked),
          owned,
          sym (last_of_snoc ((a, x) ∷ cells) (p, item)),
          refl,
        )

    module _ (malloc : Memory (InterceptorNode S D) → ℕ) (fresh : IsFresh malloc) where
      add_linked-Stands :
          (a : Addition S D) (st : ChainState S D) (chain : InterceptorChain S D)
          → Stands st chain
          → (st' : ChainState S D) × (add_linked
                (malloc_if a.allocated (malloc st.0))
                a.interceptor
                a.user_data
                st
              ≡ returns (st', (chain_add a.allocated chain a.interceptor a.user_data).1))
            × Stands st' (chain_add a.allocated chain a.interceptor a.user_data).0
      unfolding add_linked malloc_if chain_add
      add_linked-Stands a st chain r = elim (Option-cases a.interceptor) [
        | inl nothing ↦ (st, rw nothing refl, rw nothing r)
        | inr (func, given) ↦ elim (Bool-cases a.allocated) [
          | inr refused ↦ (st, rw (given, refused) refl, rw (given, refused) r)
          | inl granted ↦
              let item : InterceptorNode S D = record {
                interceptor_func = func;
                user_data = a.user_data;
              } in
              let (st', linked, owns, tail, count) =
                link_stands (malloc st.0) item st.0 st.1 r.cells r.owns r.tail (fresh st.0) in
              let stands : Stands st'
                  (record { nodes = chain.nodes ++ item ∷ []; count = chain.count + 1 }) =
                record {
                  cells = r.cells ++ (malloc st.0, item) ∷ [];
                  owns = owns;
                  tail = tail;
                  nodes =
                      map-append (λ c. c.1) r.cells ((malloc st.0, item) ∷ [])
                      ∙ ap (λ ns. ns ++ item ∷ []) r.nodes;
                  count = count ∙ ap (λ n. n + 1) r.count;
                } in
              (st', rw (given, granted, linked) refl, rw (given, granted) stands)
        ]
      ]

      add_all-Stands :
          (as' : List (Addition S D)) (st : ChainState S D) (chain : InterceptorChain S D)
          → Stands st chain
          → (st' : ChainState S D) × (add_linked_all malloc as' st
              ≡ returns (st', (add_all as' chain).1))
            × Stands st' (add_all as' chain).0
      unfolding add_linked_all add_all
      add_all-Stands [] st chain r = (st, refl, r)
      add_all-Stands (a ∷ rest) st chain r =
          let (st', added, r') = add_linked-Stands a st chain r in
          let (last, ran, r'') = add_all-Stands rest st' _ r' in (last, rw (added, ran) refl, r'')

  walk-execute_from :
      (m : Memory (InterceptorNode S D)) (head : Option ℕ) (cells : List (ℕ × InterceptorNode S D))
      (s : S) (z : ℤ)
      → Chain m head cells
      → walk (length cells) m head s z ≡ returns (execute_from (map (λ c. c.1) cells) s z)
  unfolding walk execute_from
  walk-execute_from m head [] s z h = ground (arith, Chain-nil m head h)
  walk-execute_from m head ((a, x) ∷ cells) s (pos zero) h =
      let (next, at, loaded, rest) = Chain-cons m head a x cells h in
      let (s', result) = x.interceptor_func x.user_data s in
      rw (at, loaded) (walk-execute_from m next cells s' result rest)
  walk-execute_from m head ((a, x) ∷ cells) s (pos (suc n)) h =
      rw ((Chain-cons m head a x cells h).1) refl
  walk-execute_from m head ((a, x) ∷ cells) s (negsuc n) h =
      rw ((Chain-cons m head a x cells h).1) refl

-- The life of a chain in memory, where the allocation never gives a node that is in use: from its
-- creation any sequence of additions returns, each with the result that it has on the list of
-- interceptors; a run of the chain then returns what the list in order gives, within as many
-- rounds as it has interceptors; and its destruction returns and leaves the memory as it was at
-- every address. No step uses a node that is not there.
pub execute_linked-chain_execute :
    {S D : Type 0} (malloc : Memory (InterceptorNode S D) → ℕ) (as' : List (Addition S D))
    (m₀ : Memory (InterceptorNode S D)) (s : S)
    → IsFresh malloc
    → (chain : InterceptorChain S D) × (st : ChainState S D) × (m : Memory (InterceptorNode S D))
      × (chain_create true ≡ some chain)
      × (add_linked_all malloc as' (m₀, linked_chain) ≡ returns (st, (add_all as' chain).1))
      × (execute_linked (length (add_all as' chain).0.nodes) st s
          ≡ returns (chain_execute (add_all as' chain).0 s))
      × (chain_destroy (length (add_all as' chain).0.nodes) st ≡ returns m)
      × ((a : ℕ) → look a m ≡ look a m₀)
unfolding chain_create execute_linked chain_execute chain_destroy last_of
execute_linked-chain_execute malloc as' m₀ s fresh =
    let chain : InterceptorChain _ _ = record { nodes = []; count = 0 } in
    let (st, ran, r) =
      add_all-Stands m₀ malloc fresh as' (m₀, linked_chain) chain
        (record { cells = []; owns = Owns-empty m₀; tail = refl; nodes = refl; count = refl }) in
    let last : InterceptorChain _ _ = (add_all as' chain).0 in
    let many : length r.cells ≡ length last.nodes =
      sym (length-map (λ c. c.1) r.cells) ∙ ap length r.nodes in
    let (m, done, same) = free_from_lem m₀ st.0 st.1.head r.cells r.owns in
    let walked = walk-execute_from st.0 st.1.head r.cells s (pos 0) r.owns.chain in
    (chain, st, m, refl, ran, rw (sym many, sym r.nodes) walked, rw (sym many) done, same)
