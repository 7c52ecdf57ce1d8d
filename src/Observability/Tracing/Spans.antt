-- ===== src/Observability/Tracing/Spans.antt =====
-- The spans of a context, from its creation on (src/observability.c).
use grpc_c.Common.{
  ℕ, suc, ◌≡◌, refl, sym, ap, ◌∙◌, arith, true, Option, none, some, List, [], ◌∷◌, ◌++◌, length,
  ◌==◌, All, Option-cases, Bool-cases, inl, inr, append_assoc,
}
use mathlib.Core.Path.{subst}
use mathlib.Core.Option.{some-injective}
use grpc_c.Common.Memory.{Alloc}
use grpc_c.Transport.{returns, fault}
use grpc_c.Observability.Tracing.{
  Time, Span, Exporter, TraceContext, Rand, Clock, Exported, span_create, start_span, finish_span,
  change_span, deliver, finish_at, add_tag, set_exporter,
}
use grpc_c.Observability.Tracing.Tags.{IsFitting, add_tag-IsFitting}

-- A context and the calls of exporters so far.
pub record Traces : Type 0 where
  pub ctx : TraceContext
  pub exports : List Exported

infix 40 ◌⟶◌ ◌⟶*◌
pub data ◌⟶◌ : Traces → Traces → Type 0 where
  starts :
      {w : Traces} (rand : Rand) (clock : Clock) (alloc : Alloc) (k address : ℕ)
      (name parent : Option (List ℕ))
      → w ⟶ record w { ctx = (start_span rand clock alloc k address w.ctx name parent).0 }
  finishes :
      {w : Traces} {ctx : TraceContext} {exports : List Exported} (now : Time) (address : ℕ)
      → finish_span now address w.ctx w.exports ≡ returns (ctx, exports)
      → w ⟶ (record { ctx = ctx; exports = exports })
  tags :
      {w : Traces} {span : Span} {spans : List Span} (alloc : Alloc) (k address : ℕ)
      (key value : Option (List ℕ))
      → change_span (λ s. (add_tag alloc k s key value).0) address w.ctx.active_spans
        ≡ some (span, spans)
      → w ⟶ record w { ctx = record w.ctx { active_spans = spans } }
  exports_to :
      {w : Traces} (exporter : Option Exporter) → w ⟶ record w { ctx = set_exporter w.ctx exporter }

pub data ◌⟶*◌ : Traces → Traces → Type 0 where
  here : {w : Traces} → w ⟶* w
  later : {u v w : Traces} → u ⟶* v → v ⟶ w → u ⟶* w

unfoldable pub addresses : List Span → List ℕ
addresses [] = []
addresses (s ∷ ss) = s.address ∷ addresses ss

-- The count is right, the tags of each span fit in their array, and only finished spans were
-- exported.
pub record IsTraced (w : Traces) : Type 0 where
  pub counted : w.ctx.span_count ≡ length w.ctx.active_spans
  pub fitting : All IsFitting w.ctx.active_spans
  pub finished : All (λ e. e.span.finished ≡ true) w.exports

-- What a change of one span by `f` keeps of them all, and that the span it gives is one that `f`
-- made.
abbrev Kept : (Span → Type 0) → (Span → Span) → List Span → Span × List Span → Type 0
Kept P f ss (found, ss') =
    (length ss' ≡ length ss)
    × All P ss'
    × (addresses ss' ≡ addresses ss)
    × ((s : Span) × (found ≡ f s))

change_span-Kept :
    {P : Span → Type 0} (f : Span → Span) (address : ℕ) (ss : List Span) (r : Span × List Span)
    → ((s : Span) → P s → P (f s))
    → ((s : Span) → (f s).address ≡ s.address)
    → change_span f address ss ≡ some r
    → All P ss
    → Kept P f ss r
unfolding change_span addresses
change_span-Kept f address [] r keeps stays e h = absurd cc
change_span-Kept {P} f address (s ∷ ss) r keeps stays e h =
    elim (Bool-cases (s.address == address)) [
      | inl it ↦
          let made : (f s, f s ∷ ss) ≡ r = some-injective (f s, f s ∷ ss) r (rw it at e) in
          subst (Kept P f (s ∷ ss)) made
            (refl, (keeps s h.0, h.1), ap (λ a. a ∷ addresses ss) (stays s), (s, refl))
      | inr differs ↦ elim (Option-cases (change_span f address ss)) [
        | inl nothing ↦ (let lost : none ≡ some r = rw (differs, nothing) at e in absurd cc)
        | inr ((g, ss'), changed) ↦
            let made : (g, s ∷ ss') ≡ r =
              some-injective (g, s ∷ ss') r (rw (differs, changed) at e) in
            let (long, all, same, from) =
              change_span-Kept f address ss (g, ss') keeps stays changed h.1 in
            subst (Kept P f (s ∷ ss)) made (ap suc long, (h.0, all), ap (◌∷◌ s.address) same, from)
      ]
    ]

-- Only finished spans were exported.
abbrev AllFinished : List Exported → Type 0
AllFinished = All (λ e. e.span.finished ≡ true)

AllFinished-snoc :
    (xs : List Exported) (y : Exported)
    → AllFinished xs
    → y.span.finished ≡ true
    → AllFinished (xs ++ y ∷ [])
AllFinished-snoc [] y h k = (k, tt)
AllFinished-snoc (x ∷ xs) y h k = (h.0, AllFinished-snoc xs y h.1 k)

deliver-finished :
    (exporter : Option Exporter) (span : Span) (sent : List Exported)
    → span.finished ≡ true
    → AllFinished sent
    → AllFinished (deliver exporter span sent)
unfolding deliver
deliver-finished none span sent done h = h
deliver-finished (some e) span sent done h = AllFinished-snoc sent _ h done

-- What a step keeps.
abbrev pub Traced : Traces → Traces → Type 0
Traced w w' =
    IsTraced w'
    × ((fresh : List ℕ) × (addresses w'.ctx.active_spans ≡ fresh ++ addresses w.ctx.active_spans))

finish_span-Traced :
    {w : Traces} {ctx : TraceContext} {exports : List Exported} (now : Time) (address : ℕ)
    → finish_span now address w.ctx w.exports ≡ returns (ctx, exports)
    → IsTraced w
    → Traced w (record { ctx = ctx; exports = exports })
unfolding finish_span IsFitting
finish_span-Traced {w} {ctx} {exports} now address e traced =
    elim (Option-cases (change_span (finish_at now) address w.ctx.active_spans)) [
      | inl nothing ↦
          (let lost : fault ≡ returns (ctx, exports) = rw (finish_span, nothing) at e in absurd cc)
      | inr ((span, spans), changed) ↦
          let (long, all, same, (s, made)) =
            change_span-Kept (finish_at now) address w.ctx.active_spans (span, spans) (λ s h. h)
              (λ s. refl) changed traced.fitting in
          let result : returns
                (record w.ctx { active_spans = spans }, deliver w.ctx.exporter span w.exports)
              ≡ returns (ctx, exports) =
            rw (finish_span, changed) at e in
          let left : record w.ctx { active_spans = spans } ≡ ctx = cc in
          let right : deliver w.ctx.exporter span w.exports ≡ exports = cc in
          (
            record {
              counted = rw⁻¹ left (traced.counted ∙ sym long);
              fitting = rw⁻¹ left all;
              finished = rw⁻¹ right (
                  deliver-finished w.ctx.exporter span w.exports
                    (ap (λ (t : Span). t.finished) made) traced.finished);
            },
            ([], rw⁻¹ left same),
          )
    ]

add_tag_address :
    (alloc : Alloc) (k : ℕ) (s : Span) (key value : Option (List ℕ))
    → (add_tag alloc k s key value).0.address ≡ s.address
unfolding add_tag
add_tag_address alloc k s none value = refl
add_tag_address alloc k s (some key) none = refl
add_tag_address alloc k s (some key) (some value) = ground arith

span_create-new :
    (rand : Rand) (clock : Clock) (alloc : Alloc) (k address : ℕ) (name : List ℕ)
    (parent : Option (List ℕ)) {s : Span}
    → span_create rand clock alloc k address name parent ≡ some s
    → (s.tags ≡ []) × (s.tags_capacity ≡ 0)
unfolding span_create
span_create-new rand clock alloc k address name parent {s} e = ground arith

start_span-Traced :
    {w : Traces} (rand : Rand) (clock : Clock) (alloc : Alloc) (k address : ℕ)
    (name parent : Option (List ℕ))
    → IsTraced w
    → Traced w (record w { ctx = (start_span rand clock alloc k address w.ctx name parent).0 })
unfolding start_span IsFitting addresses
start_span-Traced rand clock alloc k address none parent traced = (traced, ([], refl))
start_span-Traced {w} rand clock alloc k address (some name) parent traced =
    elim (Option-cases (span_create rand clock alloc k address name parent)) [
      | inl nothing ↦ rw (start_span, nothing) (traced, ([], refl))
      | inr (s, made) ↦
          let fresh = span_create-new rand clock alloc k address name parent made in
          rw (start_span, made)
            (
              record {
                counted = omega (arith, traced.counted);
                fitting = (rw (fresh.0, fresh.1) (omega arith), traced.fitting);
                finished = traced.finished;
              },
              (s.address ∷ [], refl),
            )
    ]

step-Traced : {w w' : Traces} → w ⟶ w' → IsTraced w → Traced w w'
unfolding set_exporter
step-Traced (starts rand clock alloc k address name parent) traced =
    start_span-Traced rand clock alloc k address name parent traced
step-Traced (finishes now address e) traced = finish_span-Traced now address e traced
step-Traced {w} (tags {span} {spans} alloc k address key value e) traced =
    let (long, all, same, _) =
      change_span-Kept (λ s. (add_tag alloc k s key value).0) address w.ctx.active_spans
        (span, spans) (λ s h. (add_tag-IsFitting alloc k s key value h).0)
        (λ s. add_tag_address alloc k s key value) e traced.fitting in
    (
      record { counted = traced.counted ∙ sym long; fitting = all; finished = traced.finished },
      ([], same),
    )
step-Traced (exports_to exporter) traced = (
  record { counted = traced.counted; fitting = traced.fitting; finished = traced.finished },
  ([], refl),
)

-- Through any sequence of starts, tags, ends and changes of the exporter, from a context where
-- this holds, as in a new one: the count of the spans is right, the tags of each fit in their
-- array, only finished spans were exported, and no span leaves the list of the active ones,
-- finished or not: new ones are put before those that are there.
pub ⟶*-Traced : {w w' : Traces} → w ⟶* w' → IsTraced w → Traced w w'
⟶*-Traced here traced = (traced, ([], refl))
⟶*-Traced {w} {w'} (later {v} r st) traced =
    let (before, (xs, from)) = ⟶*-Traced r traced in
    let (after, (ys, onward)) = step-Traced st before in
    (
      after,
      (
        ys ++ xs,
        onward
            ∙ (ap (λ (l : List ℕ). ys ++ l) from
                ∙ sym (append_assoc ys xs (addresses w.ctx.active_spans))),
      ),
    )
