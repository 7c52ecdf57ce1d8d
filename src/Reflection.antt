-- ===== src/Reflection.antt =====
-- The reflection registry (src/reflection.c): lists of services and of their methods, the last added
-- first. A string is the list of its bytes before the NUL; `none` is NULL.
pub mod Lookup
pub mod Names
pub mod Destroy
mod Tests
use grpc_c.Common.{
  ℕ, ◌+◌, ◌-◌, Bool, true, false, Option, none, some, List, [], ◌∷◌, ◌++◌, length, take,
  if◌then◌else◌,
}
use grpc_c.Common.Memory.{Alloc, same_string}
use grpc_c.Common.Fallible.{Status, success, failure}
use grpc_c.Transport.{Run, returns, fault, ◌>>=◌}

pub record MethodDescriptor : Type 0 where
  pub method_name : List ℕ
  pub input_type : List ℕ
  pub output_type : List ℕ
  pub client_streaming : Bool
  pub server_streaming : Bool

pub record ServiceDescriptor : Type 0 where
  pub service_name : List ℕ
  pub package_name : Option (List ℕ)
  pub methods : List MethodDescriptor
  pub method_count : ℕ

pub record Registry : Type 0 where
  pub services : List ServiceDescriptor
  pub service_count : ℕ

-- strdup of an argument that may be NULL, which strdup may not be given.
unfoldable pub duplicate : Bool → Option (List ℕ) → Run (Option (List ℕ))
duplicate ok none = fault
duplicate ok (some string) = returns (if ok then some string else none)

-- The heap requests, numbered from `k` on, are for the node and for its three strings.
unfoldable pub method_create :
    Alloc
    → ℕ
    → List ℕ
    → Option (List ℕ)
    → Option (List ℕ)
    → Bool
    → Bool
    → Run (Option MethodDescriptor)
unfolding duplicate
method_create alloc k method_name input_type output_type client_streaming server_streaming =
    if alloc k
    then (if alloc (k + 1)
        then (duplicate (alloc (k + 2)) input_type >>= λ input. elim input [
          | none ↦ returns none
          | some i ↦
              (duplicate (alloc (k + 3)) output_type >>= λ output. elim output [
                | none ↦ returns none
                | some o ↦ returns (
                    some (record {
                      method_name = method_name;
                      input_type = i;
                      output_type = o;
                      client_streaming = client_streaming;
                      server_streaming = server_streaming;
                    }))
              ])
        ])
        else returns none)
    else returns none

-- The third request is made for a package only.
unfoldable pub service_create : Alloc → ℕ → List ℕ → Option (List ℕ) → Option ServiceDescriptor
service_create alloc k service_name package_name =
    let service : ServiceDescriptor = record {
      service_name = service_name;
      package_name = package_name;
      methods = [];
      method_count = 0;
    } in
    let packed : Option ServiceDescriptor = elim package_name [
      | none ↦ some service
      | some p ↦ if alloc (k + 2) then some service else none
    ] in
    if alloc k then (if alloc (k + 1) then packed else none) else none

unfoldable pub registry_create : Bool → Option Registry
registry_create ok = if ok then some (record { services = []; service_count = 0 }) else none

unfoldable pub add_service :
    Alloc → ℕ → Registry → Option (List ℕ) → Option (List ℕ) → Registry × Status
unfolding service_create
add_service alloc k registry none package_name = (registry, failure)
add_service alloc k registry (some service_name) package_name =
    elim (service_create alloc k service_name package_name) [
      | none ↦ (registry, failure)
      | some service ↦ (
        record registry {
          services = service ∷ registry.services;
          service_count = registry.service_count + 1;
        },
        success,
      )
    ]

-- The first service with the name.
unfoldable pub find_service : List ℕ → List ServiceDescriptor → Option ServiceDescriptor
find_service name [] = none
find_service name (s ∷ ss) =
    if same_string s.service_name name then some s else find_service name ss

unfoldable pub get_service : Registry → Option (List ℕ) → Option ServiceDescriptor
unfolding find_service
get_service registry none = none
get_service registry (some name) = find_service name registry.services

-- The first service of the list, from which a caller walks it.
unfoldable pub list_services : Registry → List ServiceDescriptor
list_services registry = registry.services

unfoldable pub get_service_count : Registry → ℕ
get_service_count registry = registry.service_count

unfoldable pub link_method : MethodDescriptor → ServiceDescriptor → ServiceDescriptor
link_method method s = record s { methods = method ∷ s.methods; method_count = s.method_count + 1 }

-- A write to the first service with the name.
unfoldable pub link_at : List ℕ → MethodDescriptor → List ServiceDescriptor → List ServiceDescriptor
unfolding link_method
link_at name method [] = []
link_at name method (s ∷ ss) =
    if same_string s.service_name name
    then link_method method s ∷ ss
    else s ∷ link_at name method ss

-- grpc_reflection_registry_add_method for names that are not NULL.
unfoldable pub add_method :
    Alloc
    → ℕ
    → Registry
    → List ℕ
    → List ℕ
    → Option (List ℕ)
    → Option (List ℕ)
    → Bool
    → Bool
    → Run (Registry × Status)
unfolding find_service method_create link_at
add_method alloc k registry service_name method_name input_type output_type client_streaming
      server_streaming =
    elim (find_service service_name registry.services) [
      | none ↦ returns (registry, failure)
      | some s ↦
          (method_create alloc k method_name input_type output_type client_streaming
              server_streaming
            >>= λ made. elim made [
              | none ↦ returns (registry, failure)
              | some method ↦ returns (
                record registry { services = link_at service_name method registry.services },
                success,
              )
            ])
    ]

-- snprintf to a buffer of `len` bytes: what stands before the NUL that it writes.
abbrev pub printed : ℕ → List ℕ → List ℕ
printed len text = take (len - 1) text

abbrev pub dot : ℕ
dot = 46

abbrev pub slash : ℕ
slash = 47

-- The length that grpc_reflection_get_full_service_name computes, and the name; `ok` is its malloc.
unfoldable pub get_full_service_name : Bool → ServiceDescriptor → Option (List ℕ)
get_full_service_name ok s = elim s.package_name [
  | none ↦ if ok then some (printed (length s.service_name + 1) s.service_name) else none
  | some p ↦
      if ok
      then some (printed (length s.service_name + 1 + (length p + 1)) (p ++ dot ∷ s.service_name))
      else none
]

unfoldable pub get_full_method_name :
    Bool → Bool → ServiceDescriptor → MethodDescriptor → Option (List ℕ)
unfolding get_full_service_name
get_full_method_name ok ok' s m = elim (get_full_service_name ok s) [
  | none ↦ none
  | some service_name ↦
      let len = length service_name + length m.method_name + 2 in
      if ok' then some (printed len (slash ∷ (service_name ++ slash ∷ m.method_name))) else none
]
