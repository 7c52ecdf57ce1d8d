-- ===== src/Observability/Metrics/Lookup.antt =====
-- What the loops over the metrics find and change (src/observability.c).
use grpc_c.Common.{
  ℕ, ◌≡◌, refl, sym, ◌∙◌, inl, inr, true, false, Option, none, some, List, [], ◌∷◌, if◌then◌else◌,
  Bool-cases, Option-cases,
}
use mathlib.Core.Logic.{◌≢◌}
use mathlib.Core.Path.{subst}
use grpc_c.Common.Fallible.{Status, success, failure}
use grpc_c.Common.Memory.{same_string, same_string-eq}
use grpc_c.Transport.{Run, returns, deadlock, fault, ◌>>=◌}
use grpc_c.Observability.Metrics.{Double, Metric, Registry, is_named, change, find, change_named}

module _ {ℓ} {D : Type ℓ} ⦃d : Double D⦄ where
  -- Each metric has its name.
  unfoldable pub Named : List (Metric D) → Type 0
  Named [] = Unit {0}
  Named (m ∷ ms) = (m.name ≢ none) × Named ms

  -- What find answers after a change of the metrics of that name.
  unfoldable pub changed :
      (Metric D → Metric D) → List ℕ → List ℕ → Run (Option (Metric D)) → Run (Option (Metric D))
  changed f name other found = found >>= λ o.
      returns (if same_string name other then (elim o [ none ↦ none | some m ↦ some (f m) ]) else o)

  -- What change does: nothing to a list without the name; else the metric of that name is the one
  -- changed.
  data Changed (f : Metric D → Metric D) (name : List ℕ) (ms : List (Metric D)) : Type ℓ where
    absent : change f name ms ≡ returns none → find name ms ≡ returns none → Changed f name ms
    present :
        (ms' : List (Metric D))
        → change f name ms ≡ returns (some ms')
        → Named ms'
        → ((other : List ℕ) → find other ms' ≡ changed f name other (find other ms))
        → Changed f name ms

  is_named-own :
      (m : Metric D) {own : List ℕ} (name : List ℕ)
      → m.name ≡ some own
      → is_named m name ≡ returns (same_string own name)
  unfolding is_named
  is_named-own m name owned = rw owned refl

  changed-other :
      (f : Metric D → Metric D) (name other : List ℕ) (found : Run (Option (Metric D)))
      → same_string name other ≡ false
      → changed f name other found ≡ found
  unfolding changed
  changed-other f name other (returns o) h = rw h refl
  changed-other f name other deadlock h = refl
  changed-other f name other fault h = refl

  -- The metric that is changed answers to the same names as before.
  change_head :
      (f : Metric D → Metric D) {own name : List ℕ} (m : Metric D) (ms : List (Metric D))
      (other : List ℕ)
      → m.name ≡ some own
      → (f m).name ≡ m.name
      → own ≡ name
      → find other (f m ∷ ms) ≡ changed f name other (find other (m ∷ ms))
  unfolding find changed
  change_head f {own} {name} m ms other owned keeps same =
      elim (Bool-cases (same_string own other)) [
        | inl it ↦
            rw (is_named-own (f m) other (keeps ∙ owned), is_named-own m other owned, it)
              (rw (subst (λ n. same_string n other ≡ true) same it) refl)
        | inr differs ↦
            rw (is_named-own (f m) other (keeps ∙ owned), is_named-own m other owned, differs)
              (sym (
                changed-other f name other (find other ms)
                  (subst (λ n. same_string n other ≡ false) same differs)))
      ]

  change_tail :
      (f : Metric D → Metric D) {own : List ℕ} (name : List ℕ) (m : Metric D)
      (ms ms' : List (Metric D)) (other : List ℕ)
      → m.name ≡ some own
      → same_string own name ≡ false
      → find other ms' ≡ changed f name other (find other ms)
      → find other (m ∷ ms') ≡ changed f name other (find other (m ∷ ms))
  unfolding find
  change_tail f {own} name m ms ms' other owned apart answers =
      elim (Bool-cases (same_string own other)) [
        | inl it ↦
            let free : same_string name other ≡ false = elim (Bool-cases (same_string name other)) [
              | inl hit ↦
                  (let as_name : same_string own name ≡ true =
                      subst (λ n. same_string own n ≡ true) (sym (same_string-eq name other hit))
                        it in
                    absurd cc)
              | inr miss ↦ miss
            ] in
            rw (is_named-own m other owned, it)
              (sym (changed-other f name other (returns (some m)) free))
        | inr differs ↦ rw (is_named-own m other owned, differs) answers
      ]

  change-Changed :
      (f : Metric D → Metric D) (name : List ℕ) (ms : List (Metric D))
      → ((m : Metric D) → (f m).name ≡ m.name)
      → Named ms
      → Changed f name ms
  unfolding Named change find
  change-Changed f name [] keeps named = absent refl refl
  change-Changed f name (m ∷ ms) keeps named = elim (Option-cases m.name) [
    | inl nameless ↦ absurd (named.0 nameless)
    | inr (own, owned) ↦
        let ask = is_named-own m name owned in
        elim (Bool-cases (same_string own name)) [
          | inl same ↦
              present (f m ∷ ms) (rw (ask, same) refl)
                (subst (λ o. o ≢ none) (sym (keeps m)) named.0, named.1)
                (λ other. change_head f m ms other owned (keeps m) (same_string-eq own name same))
          | inr differs ↦ elim (change-Changed f name ms keeps named.1) [
            | absent e g ↦ absent (rw (ask, differs, e) refl) (rw (ask, differs, g) refl)
            | present ms' e kept answers ↦
                present (m ∷ ms') (rw (ask, differs, e) refl) (named.0, kept)
                  (λ other. change_tail f name m ms ms' other owned differs (answers other))
          ]
        ]
  ]

  unchanged :
      (f : Metric D → Metric D) (n other : List ℕ) (ms : List (Metric D))
      → find n ms ≡ returns none
      → find other ms ≡ changed f n other (find other ms)
  unfolding changed
  unchanged f n other ms nothing = elim (Bool-cases (same_string n other)) [
    | inl it ↦
        let none_here : find other ms ≡ returns none =
          subst (λ o. find o ms ≡ returns none) (same_string-eq n other it) nothing in
        rw none_here (rw it refl)
    | inr differs ↦ sym (changed-other f n other (find other ms) differs)
  ]

  -- What a call does to the answers of find.
  pub change_named-find :
      (f : Metric D → Metric D) (n : List ℕ) (registry : Registry D)
      → ((m : Metric D) → (f m).name ≡ m.name)
      → Named registry.metrics
      → (r : Registry D × Status) × (change_named f registry (some n) ≡ returns r)
        × Named r.0.metrics
        × ((other : List ℕ)
            → find other r.0.metrics ≡ changed f n other (find other registry.metrics))
  unfolding change_named
  change_named-find f n registry keeps named =
      elim (change-Changed f n registry.metrics keeps named) [
        | absent e g ↦
            ((registry, failure), rw e refl, named, λ other. unchanged f n other registry.metrics g)
        | present ms' e kept answers ↦
            ((record registry { metrics = ms' }, success), rw e refl, kept, answers)
      ]
