-- ===== src/Observability/Metrics/Summary.antt =====
-- The count, the sum and the bounds of a metric (src/observability.c).
use grpc_c.Common.{
  suc, ◌+◌, ◌≤◌, ◌≡◌, refl, sym, ap, inl, inr, arith, true, false, List, [], ◌∷◌, ◌==◌,
  if◌then◌else◌, Bool-cases, All, length,
}
use mathlib.Core.Path.{subst}
use grpc_c.Observability.Metrics.{Double, Metric, observe}

-- `<` on the doubles that are numbers, with NaN left out.
pub record IsOrdered {ℓ} (D : Type ℓ) ⦃d : Double D⦄ (IsNumber : D → Type 0) : Type ℓ where
  pub less_irrefl : (a : D) → IsNumber a → d.less a a ≡ false
  pub below :
      (a b c : D)
      → IsNumber a
      → IsNumber b
      → IsNumber c
      → d.less a b ≡ true
      → d.less c b ≡ false
      → d.less c a ≡ false
  pub above :
      (a b c : D)
      → IsNumber a
      → IsNumber b
      → IsNumber c
      → d.less b a ≡ true
      → d.less b c ≡ false
      → d.less a c ≡ false

pub data Seen {ℓ} {D : Type ℓ} (a : D) : List D → Type ℓ where
  latest : {v : D} {vs : List D} → a ≡ v → Seen a (v ∷ vs)
  earlier : {v : D} {vs : List D} → Seen a vs → Seen a (v ∷ vs)

module _ {ℓ} {D : Type ℓ} ⦃d : Double D⦄ where
  -- The values that were given, the latest first.
  unfoldable pub observe_all : List D → Metric D → Metric D
  unfolding observe
  observe_all [] m = m
  observe_all (v ∷ vs) m = observe (observe_all vs m) v

  unfoldable pub total : List D → D → D
  total [] start = start
  total (v ∷ vs) start = d.add (total vs start) v

  Seen-All : (P : D → Type 0) (a : D) (vs : List D) → Seen a vs → All P vs → P a
  Seen-All P a [] seen _ = elim seen [ ]
  Seen-All P a (v ∷ vs) (latest e) (h, hs) = subst P (sym e) h
  Seen-All P a (v ∷ vs) (earlier seen) (h, hs) = Seen-All P a vs seen hs

  -- A value that was given, and that no other is below, or above.
  pub record IsLeast (a : D) (values : List D) : Type ℓ where
    pub seen : Seen a values
    pub bound : All (λ w. d.less w a ≡ false) values

  pub record IsGreatest (a : D) (values : List D) : Type ℓ where
    pub seen : Seen a values
    pub bound : All (λ w. d.less a w ≡ false) values

  count_observe_all : (vs : List D) (m : Metric D) → (observe_all vs m).count ≡ m.count + length vs
  unfolding observe_all
  count_observe_all [] m = omega arith
  count_observe_all (v ∷ vs) m = omega (arith, count_observe_all vs m)

  sum_observe_all :
      (vs : List D) (m : Metric D)
      → ((observe_all vs m).sum ≡ total vs m.sum) × ((observe_all vs m).value ≡ total vs m.value)
  unfolding observe_all total
  sum_observe_all [] m = (refl, refl)
  sum_observe_all (v ∷ vs) m =
      let before = sum_observe_all vs m in
      (ap (λ s. d.add s v) before.0, ap (λ s. d.add s v) before.1)

  All-map_of {κ} :
      {N P Q : D → Type κ} (vs : List D)
      → ((v : D) → N v → P v → Q v)
      → All N vs
      → All P vs
      → All Q vs
  All-map_of [] f ns h = tt
  All-map_of (v ∷ vs) f (n, ns) (h, hs) = (f v n h, All-map_of vs f ns hs)

  module _ {IsNumber : D → Type 0} (order : IsOrdered D IsNumber) where
    newer-IsLeast :
        (v a : D) (vs : List D)
        → IsNumber v
        → All IsNumber vs
        → IsLeast a vs
        → IsLeast (if d.less v a then v else a) (v ∷ vs)
    newer-IsLeast v a vs number numbers least = elim (Bool-cases (d.less v a)) [
      | inl lower ↦ rw lower (record {
        seen = latest refl;
        bound = (
          order.less_irrefl v number,
          All-map_of vs
              (λ w n h.
                order.below v a w number (Seen-All IsNumber a vs least.seen numbers) n lower h)
              numbers least.bound,
        );
      })
      | inr higher ↦ rw higher (record { seen = earlier least.seen; bound = (higher, least.bound) })
    ]

    newer-IsGreatest :
        (v a : D) (vs : List D)
        → IsNumber v
        → All IsNumber vs
        → IsGreatest a vs
        → IsGreatest (if d.less a v then v else a) (v ∷ vs)
    newer-IsGreatest v a vs number numbers greatest = elim (Bool-cases (d.less a v)) [
      | inl higher ↦ rw higher (record {
        seen = latest refl;
        bound = (
          order.less_irrefl v number,
          All-map_of vs
              (λ w n h.
                order.above v a w number (Seen-All IsNumber a vs greatest.seen numbers) n higher h)
              numbers greatest.bound,
        );
      })
      | inr lower ↦
          rw lower (record { seen = earlier greatest.seen; bound = (lower, greatest.bound) })
    ]

    observe_later :
        (v : D) (vs : List D) (m : Metric D)
        → 1 ≤ m.count
        → IsNumber v
        → All IsNumber vs
        → IsLeast m.min vs
        → IsGreatest m.max vs
        → IsLeast (observe m v).min (v ∷ vs) × IsGreatest (observe m v).max (v ∷ vs)
    unfolding observe
    observe_later v vs m later number numbers least greatest =
        let again : (m.count + 1 == 1) ≡ false = ground arith in
        rw again (
          newer-IsLeast v m.min vs number numbers least,
          newer-IsGreatest v m.max vs number numbers greatest,
        )

    bounds :
        (v : D) (vs : List D) (m : Metric D)
        → m.count ≡ 0
        → All IsNumber (v ∷ vs)
        → IsLeast (observe_all (v ∷ vs) m).min (v ∷ vs)
          × IsGreatest (observe_all (v ∷ vs) m).max (v ∷ vs)
    unfolding observe_all observe
    bounds v [] m fresh (number, _) = rw fresh (
      record { seen = latest refl; bound = (order.less_irrefl v number, tt) },
      record { seen = latest refl; bound = (order.less_irrefl v number, tt) },
    )
    bounds v (u ∷ us) m fresh (number, numbers) =
        let before = bounds u us m fresh numbers in
        observe_later v (u ∷ us) (observe_all (u ∷ us) m)
          (omega (arith, count_observe_all (u ∷ us) m)) number numbers before.0 before.1

  -- Under an order on the numbers among the doubles: after one or more values that are numbers, a
  -- metric that had none counts them, has them summed up in the order in which they were given,
  -- and has the least of them as its min and the greatest as its max.
  pub observe_all-bounds :
      {IsNumber : D → Type 0} (v : D) (vs : List D) (m : Metric D)
      → IsOrdered D IsNumber
      → m.count ≡ 0
      → All IsNumber (v ∷ vs)
      → ((observe_all (v ∷ vs) m).count ≡ suc (length vs))
        × ((observe_all (v ∷ vs) m).sum ≡ total (v ∷ vs) m.sum)
        × ((observe_all (v ∷ vs) m).value ≡ total (v ∷ vs) m.value)
        × IsLeast (observe_all (v ∷ vs) m).min (v ∷ vs)
        × IsGreatest (observe_all (v ∷ vs) m).max (v ∷ vs)
  observe_all-bounds v vs m order fresh numbers =
      let counted : (observe_all (v ∷ vs) m).count ≡ suc (length vs) =
        omega (arith, count_observe_all (v ∷ vs) m, fresh) in
      let sums = sum_observe_all (v ∷ vs) m in
      let bounded = bounds order v vs m fresh numbers in
      (counted, sums.0, sums.1, bounded.0, bounded.1)
