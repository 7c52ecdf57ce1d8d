-- ===== src/Blocks.antt =====
-- Blocks of the heap, known by their addresses, for the functions that only free: the loops over
-- linked lists that read the next pointer of a node, destroy the node and go on. To free a block
-- that is not live, as one that was freed before, is a fault.
use mathlib.Core.List.Perm
use mathlib.Core.List.{Perm, mem-cons_self}
use grpc_c.Common.{
  ℕ, ◌≡◌, ◌≢◌, refl, sym, ap, ◌∙◌, arith, ◌⊎◌, inl, inr, Option, none, some, List, [], ◌∷◌, ◌++◌,
  All, ◌==◌, if◌then◌else◌, Bool-cases,
}
use grpc_c.Common.Distinct.{absent}
use grpc_c.Transport.{Run, returns, deadlock, fault, ◌>>=◌}

-- The addresses of the live blocks, in any order.
abbrev pub Live : Type 0
Live = List ℕ

unfoldable pub free_block : ℕ → Live → Run Live
free_block p [] = fault
free_block p (q ∷ live) =
    let rest = free_block p live in
    if q == p then returns live else (rest >>= λ live'. returns (q ∷ live'))

-- free(NULL) does nothing.
unfoldable pub free_pointer : Option ℕ → Live → Run Live
unfolding free_block
free_pointer none live = returns live
free_pointer (some p) live = free_block p live

abbrev pub pointer : Option ℕ → List ℕ
pointer none = []
pointer (some p) = p ∷ []

unfoldable pub free_all : List ℕ → Live → Run Live
unfolding free_block
free_all [] live = returns live
free_all (p ∷ ps) live = free_block p live >>= free_all ps

-- while (node) { next = node->next; destroy(node); node = next; }
unfoldable pub destroy_list : {A : Type 0} → (A → Live → Run Live) → List A → Live → Run Live
destroy_list destroy [] live = returns live
destroy_list destroy (node ∷ next) live = destroy node live >>= destroy_list destroy next

-- The blocks of all the nodes, in order.
unfoldable pub blocks_of_all : {A : Type 0} → (A → List ℕ) → List A → List ℕ
blocks_of_all blocks [] = []
blocks_of_all blocks (node ∷ next) = blocks node ++ blocks_of_all blocks next

free_block-cases :
    (p : ℕ) (live : Live)
    → ((live' : Live) × (free_block p live ≡ returns live') × Perm live (p ∷ live'))
      ⊎ All (λ q. q ≢ p) live
unfolding free_block
free_block-cases p [] = inr tt
free_block-cases p (q ∷ live) = elim (Bool-cases (q == p)) [
  | inl hit ↦ inl (live, ground (arith, hit), Perm.cons' (ground (arith, hit)) (Perm.refl live))
  | inr miss ↦ elim (free_block-cases p live) [
    | inl (live', freed, same) ↦ inl (
      q ∷ live',
      ground (arith, miss, freed),
      Perm.trans (Perm.cons q same) (Perm.swap p q live'),
    )
    | inr others ↦ inr (λ e. ground (arith, miss, e), others)
  ]
]

-- Blocks that are live can be freed one after the other, and the others stay.
pub free_all_lem :
    (ps : List ℕ) (live rest : Live)
    → Perm live (ps ++ rest)
    → (live' : Live) × (free_all ps live ≡ returns live') × Perm live' rest
unfolding free_all mem-cons_self
free_all_lem [] live rest h = (live, refl, h)
free_all_lem (p ∷ ps) live rest h = elim (free_block-cases p live) [
  | inr others ↦ absurd (absent p live others ((Perm.mem_iff h).1 mem-cons_self))
  | inl (after, freed, same) ↦
      let (live', done, left) =
        free_all_lem ps after rest (Perm.cons_inv (Perm.trans (Perm.symm same) h)) in
      (live', ground (arith, freed, done), left)
]

-- What two computations give is the same for what comes after them.
bind_same :
    {A B : Type 0} (m : Run A) (f g : A → Run B) → ((a : A) → f a ≡ g a) → (m >>= f) ≡ (m >>= g)
bind_same (returns a) f g same = same a
bind_same deadlock f g same = refl
bind_same fault f g same = refl

bind_assoc :
    {A B C : Type 0} (m : Run A) (f : A → Run B) (g : B → Run C)
    → ((m >>= f) >>= g) ≡ (m >>= λ a. f a >>= g)
bind_assoc (returns a) f g = refl
bind_assoc deadlock f g = refl
bind_assoc fault f g = refl

bind_returns_last : {A : Type 0} (m : Run A) → m ≡ (m >>= returns)
bind_returns_last (returns a) = refl
bind_returns_last deadlock = refl
bind_returns_last fault = refl

free_all-append :
    (ps qs : List ℕ) (live : Live) → free_all (ps ++ qs) live ≡ (free_all ps live >>= free_all qs)
unfolding free_all
free_all-append [] qs live = refl
free_all-append (p ∷ ps) qs live =
    bind_same (free_block p live) (free_all (ps ++ qs)) (λ l. free_all ps l >>= free_all qs)
      (free_all-append ps qs)
    ∙ sym (bind_assoc (free_block p live) (free_all ps) (free_all qs))

-- A function that frees blocks one after the other, whatever is live.
abbrev pub Frees : (Live → Run Live) → List ℕ → Type 0
Frees f ps = (live : Live) → f live ≡ free_all ps live

pub Frees-none : Frees returns []
unfolding free_all
Frees-none live = refl

pub free_block-Frees : (p : ℕ) → Frees (free_block p) (p ∷ [])
unfolding free_all
free_block-Frees p live = bind_returns_last (free_block p live)

pub free_pointer-Frees : (p : Option ℕ) → Frees (free_pointer p) (pointer p)
unfolding free_pointer free_all
free_pointer-Frees none live = refl
free_pointer-Frees (some p) live = free_block-Frees p live

-- One after the other.
pub then_Frees :
    (f g : Live → Run Live) (ps qs : List ℕ)
    → Frees f ps
    → Frees g qs
    → Frees (λ live. f live >>= g) (ps ++ qs)
then_Frees f g ps qs hf hg live =
    ap (λ m. m >>= g) (hf live)
    ∙ bind_same (free_all ps live) g (free_all qs) hg
    ∙ sym (free_all-append ps qs live)

pub destroy_list-Frees :
    {A : Type 0} (destroy : A → Live → Run Live) (blocks : A → List ℕ)
    → ((node : A) → Frees (destroy node) (blocks node))
    → (nodes : List A) → Frees (destroy_list destroy nodes) (blocks_of_all blocks nodes)
unfolding destroy_list blocks_of_all free_all
destroy_list-Frees destroy blocks each [] live = refl
destroy_list-Frees destroy blocks each (node ∷ next) live =
    then_Frees (destroy node) (destroy_list destroy next) (blocks node) (blocks_of_all blocks next)
      (each node) (destroy_list-Frees destroy blocks each next) live

-- What such a function does where its blocks are live.
pub Frees-returns :
    (f : Live → Run Live) (ps : List ℕ) (live rest : Live)
    → Frees f ps
    → Perm live (ps ++ rest)
    → (live' : Live) × (f live ≡ returns live') × Perm live' rest
Frees-returns f ps live rest frees h =
    let (live', done, left) = free_all_lem ps live rest h in (live', frees live ∙ done, left)
