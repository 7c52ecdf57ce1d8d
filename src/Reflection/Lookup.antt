-- ===== src/Reflection/Lookup.antt =====
-- What the registry answers after it was changed (src/reflection.c).
use grpc_c.Common.{
  ℕ, ◌+◌, ◌≡◌, ap, ◌⊎◌, arith, false, Option, none, some, List, ◌∷◌, length, All, Option-cases,
  if◌then◌else◌, inl, inr,
}
use grpc_c.Common.Memory.{Alloc, same_string}
use grpc_c.Common.Fallible.{success, failure}
use grpc_c.Reflection.{
  ServiceDescriptor, MethodDescriptor, Registry, service_create, add_service, get_service,
  link_method,
}

-- The counts are those of the lists.
pub record IsValid (r : Registry) : Type 0 where
  pub counted : r.service_count ≡ length r.services
  pub each : All (λ s. s.method_count ≡ length s.methods) r.services

-- A service found under `other`, once the method was added to the one under `name`.
abbrev pub relinked :
    List ℕ → List ℕ → MethodDescriptor → Option ServiceDescriptor → Option ServiceDescriptor
relinked name other method none = none
relinked name other method (some s) =
    some (if same_string name other then link_method method s else s)

service_create_fields :
    (alloc : Alloc) (k : ℕ) (name : List ℕ) (in_package : Option (List ℕ)) (s : ServiceDescriptor)
    → service_create alloc k name in_package ≡ some s
    → (s.service_name ≡ name) × (s.package_name ≡ in_package) × (s.method_count ≡ length s.methods)
unfolding service_create
service_create_fields alloc k name none s h = ground (arith, h)
service_create_fields alloc k name (some p) s h = ground (arith, h)

-- One of the heap requests for a method and its three strings is refused.
abbrev pub Refused : Alloc → ℕ → Type 0
Refused alloc k =
    (alloc k ≡ false) ⊎ (alloc (k + 1) ≡ false) ⊎ (alloc (k + 2) ≡ false) ⊎ (alloc (k + 3) ≡ false)

-- A service that is added to a valid registry is the one found under its name, and the others are
-- found as before; a failed addition changes nothing. The registry stays valid.
pub add_service-get_service :
    (alloc : Alloc) (k : ℕ) (r : Registry) (name : List ℕ) (in_package : Option (List ℕ))
    → IsValid r
    → IsValid (add_service alloc k r (some name) in_package).0
      × ((add_service alloc k r (some name) in_package ≡ (r, failure))
          ⊎ ((service : ServiceDescriptor) × (r' : Registry) × (add_service alloc k r
                  (some name)
                  in_package
                ≡ (r', success))
              × (service.service_name ≡ name)
              × (service.package_name ≡ in_package)
              × ((other : List ℕ)
                  → get_service r' (some other) ≡ (
                      if same_string name other
                      then some service
                      else get_service r (some other)))))
unfolding add_service get_service
add_service-get_service alloc k r name in_package v =
    elim (Option-cases (service_create alloc k name in_package)) [
      | inl refused ↦ (rw (add_service, refused) v, inl (ground (arith, refused)))
      | inr (service, made) ↦
          let r' : Registry = record r {
            services = service ∷ r.services;
            service_count = r.service_count + 1;
          } in
          let (named, packed, counted) =
            service_create_fields alloc k name in_package service made in
          let v' : IsValid r' = record {
            counted = omega (arith, v.counted);
            each = (counted, v.each);
          } in
          (
            rw (add_service, made) v',
            inr (
              service,
              r',
              ground (arith, made),
              named,
              packed,
              λ other. ground (arith, ap (λ (n : List ℕ). same_string n other) named),
            ),
          )
    ]
