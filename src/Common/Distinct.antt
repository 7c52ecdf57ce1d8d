-- ===== src/Common/Distinct.antt =====
-- Lists without repetitions.
use mathlib.Core.Path.{subst}
use mathlib.Core.Logic.Or
use mathlib.Core.HLevel.{⊥_prop}
use mathlib.Core.List.Perm
use mathlib.Core.List.{
  Perm, Mem, Nodup, Nodup-cons, not-mem-nil, eq-or-mem_of_mem-cons, perm_middle,
}
use grpc_c.Common.{◌≢◌, sym, List, [], ◌∷◌, ◌++◌, append-nil, map, All}

pub All-map :
    {A B : Type 0} (P : B → Type 0) (f : A → B) (xs : List A)
    → All (λ x. P (f x)) xs
    → All P (map f xs)
All-map P f [] h = tt
All-map P f (x ∷ xs) (first, h) = (first, All-map P f xs h)

module _ {A : Type 0} where
  pub absent : (b : A) (xs : List A) → All (λ x. x ≢ b) xs → ¬ Mem b xs
  absent b [] h m = not-mem-nil m
  absent b (x ∷ xs) (first, h) m =
      Or.elim ⊥_prop (eq-or-mem_of_mem-cons m) (λ e. first (sym e)) (absent b xs h)

  pub snoc_perm : (xs : List A) (x : A) → Perm (xs ++ x ∷ []) (x ∷ xs)
  snoc_perm xs x =
      subst (λ (l : List A). Perm (xs ++ x ∷ []) (x ∷ l)) (append-nil xs) (perm_middle xs [])

-- An element with a new value of `f` behind the others.
pub Nodup-snoc :
    {A B : Type 0} (f : A → B) (xs : List A) (x : A)
    → Nodup (map f xs)
    → All (λ y. f y ≢ f x) xs
    → Nodup (map f (xs ++ x ∷ []))
unfolding Nodup-cons
Nodup-snoc f xs x h new =
    Perm.nodup (Perm.map f (Perm.symm (snoc_perm xs x)))
      (Nodup-cons.1 (absent (f x) (map f xs) (All-map (λ y. y ≢ f x) f xs new), h))
