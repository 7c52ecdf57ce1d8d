-- ===== src/Interceptors/Contexts.antt =====
-- The chains of clients and servers over their contexts, and the interceptors that the library
-- brings (src/interceptors.c). Calls, metadata and messages are known by their addresses.
use grpc_c.Common.{Bool, ℕ, ◌≡◌, refl, ap, Option, none, some, List, [], ◌∷◌, All}
use grpc_c.Common.Int.{ℤ, pos, negsuc}
use grpc_c.Common.Fallible.{Status}
use grpc_c.Interceptors.{
  Interceptor, chain_create, chain_add, InterceptorNode, InterceptorChain, execute_from,
  chain_execute,
}

pub record ClientContext : Type 0 where
  pub call : ℕ
  pub method : Option (List ℕ)
  pub host : Option (List ℕ)
  pub initial_metadata : Option ℕ
  pub send_message : Option ℕ

pub record ServerContext : Type 0 where
  pub call : ℕ
  pub method : Option (List ℕ)
  pub initial_metadata : Option ℕ
  pub recv_message : Option ℕ

-- The chains of servers are created and added to like those of clients, whose functions
-- Interceptors has.
unfoldable pub server_chain_create :
    {S D : Type 0} → Bool → Option (InterceptorChain (ServerContext × S) D)
unfolding chain_create
server_chain_create ok = chain_create ok

unfoldable pub server_chain_add :
    {S D : Type 0}
    → Bool
    → InterceptorChain (ServerContext × S) D
    → Option (Interceptor (ServerContext × S) D)
    → D
    → InterceptorChain (ServerContext × S) D × Status
unfolding chain_add
server_chain_add ok chain interceptor user_data = chain_add ok chain interceptor user_data

-- What the context points at, of type S, is changed by the interceptors; a chain or a call that is
-- NULL gives 0.
unfoldable pub client_execute :
    {S D : Type 0}
    → Option (InterceptorChain (ClientContext × S) D)
    → Option ℕ
    → Option (List ℕ)
    → Option (List ℕ)
    → Option ℕ
    → Option ℕ
    → S
    → S × ℤ
unfolding chain_execute
client_execute none call method host metadata message s = (s, pos 0)
client_execute (some chain) none method host metadata message s = (s, pos 0)
client_execute (some chain) (some call) method host metadata message s =
    let ctx : ClientContext = record {
      call = call;
      method = method;
      host = host;
      initial_metadata = metadata;
      send_message = message;
    } in
    let done = chain_execute chain (ctx, s) in (done.0.1, done.1)

unfoldable pub server_execute :
    {S D : Type 0}
    → Option (InterceptorChain (ServerContext × S) D)
    → Option ℕ
    → Option (List ℕ)
    → Option ℕ
    → Option ℕ
    → S
    → S × ℤ
unfolding chain_execute
server_execute none call method metadata message s = (s, pos 0)
server_execute (some chain) none method metadata message s = (s, pos 0)
server_execute (some chain) (some call) method metadata message s =
    let ctx : ServerContext = record {
      call = call;
      method = method;
      initial_metadata = metadata;
      recv_message = message;
    } in
    let done = chain_execute chain (ctx, s) in (done.0.1, done.1)

-- The four example interceptors, which only look whether there is a context.
unfoldable pub example_interceptor : {C : Type 0} → Option C → ℤ
example_interceptor none = negsuc 0
example_interceptor (some ctx) = pos 0

-- Chains of the interceptors that the library brings change nothing and never stop a call.
pub client_execute-example_interceptor :
    {S D : Type 0} (chain : InterceptorChain (ClientContext × S) D) (call : ℕ)
    (method host : Option (List ℕ)) (metadata message : Option ℕ) (s : S)
    → All
        (λ node.
          (d : D) (c : ClientContext × S)
          → node.interceptor_func d c ≡ (c, example_interceptor (some c.0)))
        chain.nodes
    → client_execute (some chain) (some call) method host metadata message s ≡ (s, pos 0)
unfolding client_execute chain_execute execute_from example_interceptor
client_execute-example_interceptor chain call method host metadata message s h =
    ap (λ r. (r.0.1, r.1)) (passes chain.nodes _ h)
  where
    passes :
        {C D : Type 0} (nodes : List (InterceptorNode C D)) (c : C)
        → All (λ node. (d : D) (x : C) → node.interceptor_func d x ≡ (x, pos 0)) nodes
        → execute_from nodes c (pos 0) ≡ (c, pos 0)
    passes [] c h = refl
    passes (node ∷ rest) c h = rw (h.0 node.user_data c) (passes rest c h.1)
