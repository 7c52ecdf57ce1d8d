-- ===== src/Observability/Metrics.antt =====
-- The metrics registry (src/observability.c). A double is an element of any type with the
-- operations that the code applies to it.
pub mod Registration
pub mod Lookup
pub mod History
pub mod Summary
use grpc_c.Common.{
  ℕ, zero, suc, ◌+◌, ◌≡◌, refl, sym, ap, ◌∙◌, arith, Bool, true, false, ◌||◌, not, Option, none,
  some, List, [], ◌∷◌, ◌==◌, if◌then◌else◌, Bool-cases,
}
use grpc_c.Common.Fallible.{Status, success, failure}
use grpc_c.Common.Memory.{Alloc, same_string}
use grpc_c.Transport.{Run, returns, fault, ◌>>=◌}

pub record Double {ℓ} (D : Type ℓ) : Type ℓ where
  pub nought : D
  pub add : D → D → D
  pub less : D → D → Bool

pub data MetricType : Type 0 where
  counter gauge histogram : MetricType

-- The name is NULL where strdup failed for it.
pub record Metric {ℓ} (D : Type ℓ) : Type ℓ where
  pub name : Option (List ℕ)
  pub description : Option (List ℕ)
  pub kind : MetricType
  pub value : D
  pub count : ℕ
  pub sum : D
  pub min : D
  pub max : D

pub record Registry {ℓ} (D : Type ℓ) : Type ℓ where
  pub metrics : List (Metric D)
  pub metric_count : ℕ

unfoldable pub registry_create {ℓ} : {D : Type ℓ} → Bool → Option (Registry D)
registry_create ok = if ok then some (record { metrics = []; metric_count = 0 }) else none

-- strdup.
unfoldable pub copied : Bool → List ℕ → Option (List ℕ)
copied ok text = if ok then some text else none

module _ {ℓ} {D : Type ℓ} ⦃d : Double D⦄ where
  -- The heap requests are for the metric, its name and its description; only the first is tested.
  unfoldable pub register :
      Alloc → ℕ → Registry D → Option (List ℕ) → Option (List ℕ) → MetricType → Registry D × Status
  unfolding copied
  register alloc k registry none description kind = (registry, failure)
  register alloc k registry (some name) description kind =
      let metric : Metric D = record {
        name = copied (alloc (k + 1)) name;
        description = elim description [ none ↦ none | some text ↦ copied (alloc (k + 2)) text ];
        kind = kind;
        value = d.nought;
        count = 0;
        sum = d.nought;
        min = d.nought;
        max = d.nought;
      } in
      if alloc k
      then (
        record { metrics = metric ∷ registry.metrics; metric_count = registry.metric_count + 1 },
        success,
      )
      else (registry, failure)

  -- The body of the loop of grpc_metrics_increment at the metric that it found.
  unfoldable pub observe : Metric D → D → Metric D
  observe m value =
      let first = m.count + 1 == 1 in
      record m {
        value = d.add m.value value;
        count = m.count + 1;
        sum = d.add m.sum value;
        min = if first || d.less value m.min then value else m.min;
        max = if first || d.less m.max value then value else m.max;
      }

  unfoldable pub set_value : Metric D → D → Metric D
  set_value m value = record m { value = value }

  -- strcmp(metric->name, name) == 0
  unfoldable pub is_named : Metric D → List ℕ → Run Bool
  is_named m name = elim m.name [ none ↦ fault | some own ↦ returns (same_string own name) ]

  -- The loops of the three functions: the first metric of that name is changed; `none` if there is
  -- none.
  unfoldable pub change :
      (Metric D → Metric D) → List ℕ → List (Metric D) → Run (Option (List (Metric D)))
  unfolding is_named
  change f name [] = returns none
  change f name (m ∷ ms) =
      let rest = change f name ms in
      is_named m name >>= λ same.
      if same
      then returns (some (f m ∷ ms))
      else (rest >>= λ changed. returns (elim changed [ none ↦ none | some ms' ↦ some (m ∷ ms') ]))

  unfoldable pub find : List ℕ → List (Metric D) → Run (Option (Metric D))
  unfolding is_named
  find name [] = returns none
  find name (m ∷ ms) =
      let rest = find name ms in is_named m name >>= λ same. if same then returns (some m) else rest

  unfoldable pub change_named :
      (Metric D → Metric D) → Registry D → Option (List ℕ) → Run (Registry D × Status)
  unfolding change
  change_named f registry none = returns (registry, failure)
  change_named f registry (some name) = change f name registry.metrics >>= λ changed.
      returns (elim changed [
        | none ↦ (registry, failure)
        | some ms ↦ (record registry { metrics = ms }, success)
      ])

  unfoldable pub increment : Registry D → Option (List ℕ) → D → Run (Registry D × Status)
  unfolding change_named observe
  increment registry name value = change_named (λ m. observe m value) registry name

  unfoldable pub set : Registry D → Option (List ℕ) → D → Run (Registry D × Status)
  unfolding change_named set_value
  set registry name value = change_named (λ m. set_value m value) registry name

  unfoldable pub get : Registry D → Option (List ℕ) → Run (Option (Metric D))
  unfolding find
  get registry none = returns none
  get registry (some name) = find name registry.metrics
