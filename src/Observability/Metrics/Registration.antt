-- ===== src/Observability/Metrics/Registration.antt =====
-- grpc_metrics_register (src/observability.c).
use grpc_c.Common.{
  ℕ, ◌+◌, ◌≡◌, arith, true, Option, none, some, List, if◌then◌else◌, Bool-cases, inl, inr,
}
use grpc_c.Common.Fallible.{success}
use grpc_c.Common.Memory.{Alloc, same_string}
use grpc_c.Transport.{returns, fault}
use grpc_c.Observability.Metrics.{
  Double, MetricType, Registry, copied, register, find, get, is_named,
}

module _ {ℓ} {D : Type ℓ} ⦃d : Double D⦄ where
  -- What get finds once a metric was registered: the new one for its name, and what it found
  -- before for another. But where its name could not be copied, which register does not report,
  -- every get of a name is a fault.
  pub register-get :
      (alloc : Alloc) (k : ℕ) (registry : Registry D) (name other : List ℕ)
      (description : Option (List ℕ)) (kind : MetricType)
      → alloc k ≡ true
      → ((register alloc k registry (some name) description kind).1 ≡ success)
        × (get (register alloc k registry (some name) description kind).0 (some other) ≡ (
            if alloc (k + 1)
            then (if same_string name other
                then returns (
                    some (record {
                      name = some name;
                      description = elim description [
                        | none ↦ none
                        | some text ↦ copied (alloc (k + 2)) text
                      ];
                      kind = kind;
                      value = d.nought;
                      count = 0;
                      sum = d.nought;
                      min = d.nought;
                      max = d.nought;
                    }))
                else get registry (some other))
            else fault))
  unfolding register get find is_named copied
  register-get alloc k registry name other description kind granted =
      elim (Bool-cases (alloc (k + 1))) [
        | inl named ↦ elim (Bool-cases (same_string name other)) [
          | inl same ↦ ground (arith, granted, named, same)
          | inr differs ↦ ground (arith, granted, named, differs)
        ]
        | inr nameless ↦ ground (arith, granted, nameless)
      ]
