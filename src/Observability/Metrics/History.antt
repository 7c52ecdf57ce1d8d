-- ===== src/Observability/Metrics/History.antt =====
-- What calls of grpc_metrics_increment and _set for any names do to the metric of one
-- (src/observability.c). Histories have the latest call first.
use grpc_c.Common.{ℕ, ◌≡◌, refl, ap, ◌∙◌, inl, inr, some, List, [], ◌∷◌, if◌then◌else◌, Bool-cases}
use grpc_c.Common.Memory.{same_string}
use grpc_c.Transport.{Run, returns, ◌>>=◌}
use grpc_c.Observability.Metrics.{
  Double, Metric, Registry, observe, set_value, find, increment, set, get,
}
use grpc_c.Observability.Metrics.Lookup.{Named, changed, change_named-find}

-- A call of grpc_metrics_increment or of grpc_metrics_set.
pub data Call {ℓ} (D : Type ℓ) : Type ℓ where
  increments : List ℕ → D → Call D
  sets : List ℕ → D → Call D

module _ {ℓ} {D : Type ℓ} ⦃d : Double D⦄ where
  -- The function that a call applies to the metric of its name.
  abbrev effect : Call D → Metric D → Metric D
  effect (increments n v) m = observe m v
  effect (sets n v) m = set_value m v

  abbrev target : Call D → List ℕ
  target (increments n v) = n
  target (sets n v) = n

  unfoldable pub call : Call D → Registry D → Run (Registry D)
  unfolding increment set
  call (increments name v) registry = increment registry (some name) v >>= λ r. returns r.0
  call (sets name v) registry = set registry (some name) v >>= λ r. returns r.0

  unfoldable pub call_all : List (Call D) → Registry D → Run (Registry D)
  unfolding call
  call_all [] registry = returns registry
  call_all (c ∷ cs) registry = call_all cs registry >>= λ before. call c before

  -- What the calls do to the metric of a name.
  unfoldable pub follow : List ℕ → List (Call D) → Metric D → Metric D
  unfolding observe set_value
  follow name [] m = m
  follow name (c ∷ cs) m =
      let before = follow name cs m in
      if same_string (target c) name then effect c before else before

  changed-found :
      (f : Metric D → Metric D) (n name : List ℕ) (m : Metric D)
      → changed f n name (returns (some m)) ≡ returns (some (if same_string n name then f m else m))
  unfolding changed
  changed-found f n name m = elim (Bool-cases (same_string n name)) [
    | inl same ↦ rw same refl
    | inr differs ↦ rw differs refl
  ]

  call_lem :
      (c : Call D) (registry : Registry D)
      → Named registry.metrics
      → (r : Registry D) × (call c registry ≡ returns r)
        × Named r.metrics
        × ((name : List ℕ)
            → find name r.metrics ≡ changed (effect c) (target c) name (find name registry.metrics))
  unfolding call increment set
  call_lem (increments n v) registry named =
      let (r, e, kept, answers) =
        change_named-find (λ m. observe m v) n registry (λ m. refl) named in
      (r.0, rw e refl, kept, answers)
  call_lem (sets n v) registry named =
      let (r, e, kept, answers) =
        change_named-find (λ m. set_value m v) n registry (λ m. refl) named in
      (r.0, rw e refl, kept, answers)

  -- What get finds for every name.
  call_all_lem :
      (cs : List (Call D)) (registry : Registry D)
      → Named registry.metrics
      → (r : Registry D) × (call_all cs registry ≡ returns r)
        × Named r.metrics
        × ((name : List ℕ) (m : Metric D)
            → get registry (some name) ≡ returns (some m)
            → get r (some name) ≡ returns (some (follow name cs m)))
  unfolding call_all follow get
  call_all_lem [] registry named = (registry, refl, named, λ name m e. e)
  call_all_lem (c ∷ cs) registry named =
      let (r, e, kept, answers) = call_all_lem cs registry named in
      let (r', e', kept', answers') = call_lem c r kept in
      (
        r',
        rw e e',
        kept',
        λ name m found.
            answers' name
            ∙ (ap (changed (effect c) (target c) name) (answers name m found)
                ∙ changed-found (effect c) (target c) name (follow name cs m)),
      )

  -- In a registry in which each metric has its name, calls of grpc_metrics_increment and
  -- grpc_metrics_set for any names return, and then get finds for a name what the calls with that
  -- name, and no other, made of the metric that it found before.
  pub call_all-get :
      (cs : List (Call D)) (registry : Registry D) (name : List ℕ) (m : Metric D)
      → Named registry.metrics
      → get registry (some name) ≡ returns (some m)
      → (r : Registry D) × (call_all cs registry ≡ returns r)
        × (get r (some name) ≡ returns (some (follow name cs m)))
  call_all-get cs registry name m named found =
      let (r, e, _, answers) = call_all_lem cs registry named in (r, e, answers name m found)
