-- ===== src/Interceptors/Tests.antt =====
-- A chain of two interceptors (src/interceptors.c), and its theorems at concrete inputs.
use grpc_c.Common.{
  true, false, none, some, List, length, ℕ, ◌+◌, ◌≡◌, refl, [], ◌∷◌, if◌then◌else◌, ltb,
}
use grpc_c.Common.Int.{pos, negsuc}
use grpc_c.Interceptors.{Interceptor, InterceptorNode, InterceptorChain, chain_execute}
use grpc_c.Interceptors.{chain_create}
use grpc_c.Transport.{returns}
use grpc_c.Nodes.{Memory, look}
use grpc_c.Nodes.Above.{above, above-IsFresh}
use grpc_c.Interceptors.Linked.{
  Addition, ChainState, linked_chain, add_linked_all, execute_linked, chain_destroy,
}
use grpc_c.Interceptors.Linked.Refines.{add_all, execute_linked-chain_execute}
use grpc_c.Interceptors.Laws.{Ran, chain_execute-Ran}

-- Adds its user_data to a number, and fails once that passes 10.
abbrev adds : Interceptor ℕ ℕ
adds d s = if ltb 10 (s + d) then (s + d, negsuc 0) else (s + d, pos 0)

abbrev adds_of : ℕ → InterceptorNode ℕ ℕ
adds_of d = record { interceptor_func = adds; user_data = d }

abbrev chain : InterceptorChain ℕ ℕ
chain = record { nodes = adds_of 4 ∷ adds_of 8 ∷ adds_of 1 ∷ []; count = 3 }

-- The last of the three is not run.
chain_stops : chain_execute chain 2 ≡ (14, negsuc 0)
unfolding chain_execute
chain_stops = refl

chain_execute-Ran_example : Ran chain.nodes 2 (chain_execute chain 2)
chain_execute-Ran_example = chain_execute-Ran chain 2

-- The three interceptors, and two additions that fail.
abbrev additions : List (Addition ℕ ℕ)
additions =
    record { interceptor = some adds; user_data = 4; allocated = true }
    ∷ record { interceptor = none; user_data = 7; allocated = true }
    ∷ record { interceptor = some adds; user_data = 8; allocated = true }
    ∷ record { interceptor = some adds; user_data = 9; allocated = false }
    ∷ record { interceptor = some adds; user_data = 1; allocated = true }
    ∷ []

execute_linked-chain_execute_example :
    (c : InterceptorChain ℕ ℕ) × (st : ChainState ℕ ℕ) × (m : Memory (InterceptorNode ℕ ℕ))
    × (chain_create true ≡ some c)
    × (add_linked_all above additions ([], linked_chain) ≡ returns (st, (add_all additions c).1))
    × (execute_linked (length (add_all additions c).0.nodes) st 2
        ≡ returns (chain_execute (add_all additions c).0 2))
    × (chain_destroy (length (add_all additions c).0.nodes) st ≡ returns m)
    × ((a : ℕ) → look a m ≡ look a [])
execute_linked-chain_execute_example =
    execute_linked-chain_execute above additions [] 2 above-IsFresh
