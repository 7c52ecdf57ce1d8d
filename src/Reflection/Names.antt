-- ===== src/Reflection/Names.antt =====
-- Full names of services and methods (src/reflection.c).
use grpc_c.Common.{
  ℕ, ◌+◌, ◌-◌, ◌≡◌, refl, ap, sym, ◌∙◌, arith, true, none, some, List, [], ◌∷◌, ◌++◌, length,
  length-append, take, take-length, take-length-append, append_assoc, Option-cases, inl, inr,
}
use grpc_c.Reflection.{
  ServiceDescriptor, MethodDescriptor, dot, slash, printed, get_full_service_name,
  get_full_method_name,
}

-- The package, a dot and the service, or the service alone.
unfoldable pub full_name : ServiceDescriptor → List ℕ
full_name s = elim s.package_name [ none ↦ s.service_name | some p ↦ p ++ dot ∷ s.service_name ]

printed_whole : (len : ℕ) (text : List ℕ) → len ≡ length text + 1 → printed len text ≡ text
printed_whole len text h = ap (λ (n : ℕ). take n text) (omega (arith, h)) ∙ take-length text

-- The space for the full name of a service is enough: the name is the package, a dot and the
-- service, or the service alone, and it is whole.
get_full_service_name-full_name :
    (s : ServiceDescriptor) → get_full_service_name true s ≡ some (full_name s)
unfolding get_full_service_name full_name
get_full_service_name-full_name s = elim (Option-cases s.package_name) [
  | inl alone ↦
      let whole = printed_whole (length s.service_name + 1) s.service_name refl in
      ground (arith, alone, whole)
  | inr (p, packed) ↦
      let text : List ℕ = p ++ dot ∷ s.service_name in
      let whole : printed (length s.service_name + 1 + (length p + 1)) text ≡ text =
        printed_whole (length s.service_name + 1 + (length p + 1)) text
          (omega (arith, length-append p (dot ∷ s.service_name))) in
      ground (arith, packed, whole)
]

-- Where both heap requests succeed, the full name of a method whose name is not empty is a slash,
-- the full name of the service, another slash and the name of the method without its last
-- character: the space counts one slash only.
pub get_full_method_name_cut :
    (s : ServiceDescriptor) (m : MethodDescriptor) (name : List ℕ) (last : ℕ)
    → m.method_name ≡ name ++ last ∷ []
    → get_full_method_name true true s m ≡ some (slash ∷ (full_name s ++ slash ∷ name))
unfolding get_full_method_name
get_full_method_name_cut s m name last h =
    let n : ℕ = length (full_name s) + length m.method_name + 2 in
    let short : List ℕ = slash ∷ (full_name s ++ slash ∷ name) in
    let whole : slash ∷ (full_name s ++ slash ∷ m.method_name) ≡ short ++ last ∷ [] =
      ap (λ (l : List ℕ). slash ∷ (full_name s ++ slash ∷ l)) h
      ∙ ap (◌∷◌ slash) (sym (append_assoc (full_name s) (slash ∷ name) (last ∷ []))) in
    let size : n - 1 ≡ length short = omega (
      arith,
      ap length h,
      length-append name (last ∷ []),
      length-append (full_name s) (slash ∷ name),
    ) in
    let cut : printed n (slash ∷ (full_name s ++ slash ∷ m.method_name)) ≡ short =
      ap (λ (l : List ℕ). take (n - 1) l) whole
      ∙ ap (λ (k : ℕ). take k (short ++ last ∷ [])) size
      ∙ take-length-append short (last ∷ []) in
    ground (arith, get_full_service_name-full_name s, cut)
