-- ===== src/Observability/Tracing.antt =====
-- Traces (src/observability.c). A span stands at its address; the contexts of the model own their
-- spans.
pub mod Tags
pub mod Spans
use grpc_c.Common.{
  ℕ, zero, suc, ◌+◌, ◌*◌, ◌%◌, ◌^◌, Bool, true, false, Option, none, some, List, [], ◌∷◌, ◌++◌,
  length, get_elem?, leb, ◌==◌, if◌then◌else◌,
}
use grpc_c.Common.Fallible.{Status, success, failure}
use grpc_c.Common.Memory.{Alloc, strlen}
use grpc_c.Observability.Metrics.{copied}
use grpc_c.Transport.{Run, returns, fault}

pub record Time : Type 0 where
  pub tv_sec : ℕ
  pub tv_usec : ℕ

-- The key and the value are NULL where strdup failed for them.
pub record Tag : Type 0 where
  pub key : Option (List ℕ)
  pub value : Option (List ℕ)
  pub value_length : ℕ

pub record Span : Type 0 where
  pub address : ℕ
  pub trace_id : List ℕ
  pub span_id : List ℕ
  pub parent_span_id : Option (List ℕ)
  pub operation_name : List ℕ
  pub start_time : Time
  pub end_time : Time
  pub finished : Bool
  pub tags : List Tag
  pub tags_capacity : ℕ

-- A callback and its data, by their addresses.
pub record Exporter : Type 0 where
  pub export_span : ℕ
  pub user_data : ℕ

pub record TraceContext : Type 0 where
  pub active_spans : List Span
  pub span_count : ℕ
  pub exporter : Option Exporter

unfoldable pub context_create : Bool → Option TraceContext
context_create ok =
    if ok then some (record { active_spans = []; span_count = 0; exporter = none }) else none

-- "0123456789abcdef"
abbrev pub charset : List ℕ
charset = 48 ∷ 49 ∷ 50 ∷ 51 ∷ 52 ∷ 53 ∷ 54 ∷ 55 ∷ 56 ∷ 57 ∷ 97 ∷ 98 ∷ 99 ∷ 100 ∷ 101 ∷ 102 ∷ []

unfoldable pub hex_digit : ℕ → ℕ
hex_digit n = elim (get_elem? charset n) [ none ↦ 0 | some c ↦ c ]

-- The argument of srand is an unsigned int.
unfoldable pub seed : Time → ℕ
seed tv = (tv.tv_sec * 1000000 + tv.tv_usec) % 2 ^ 32

-- The i-th rand after srand of a seed.
abbrev pub Rand : Type 0
Rand = ℕ → ℕ → ℕ

-- The last `n` of 16 digits.
unfoldable pub digits_from : Rand → ℕ → ℕ → ℕ → List ℕ
unfolding hex_digit
digits_from rand s i zero = []
digits_from rand s i (suc n) = hex_digit (rand s i % 16) ∷ digits_from rand s (i + 1) n

unfoldable pub generate_id : Rand → Bool → Time → Option (List ℕ)
unfolding digits_from seed
generate_id rand ok tv = if ok then some (digits_from rand (seed tv) 0 16) else none

-- The n-th answer of gettimeofday.
abbrev pub Clock : Type 0
Clock = ℕ → Time

-- The requests are for the span, the two identifiers, the parent's if there is one, and the name
-- of the operation.
unfoldable pub span_create : Rand → Clock → Alloc → ℕ → ℕ → List ℕ → Option (List ℕ) → Option Span
unfolding generate_id copied
span_create rand clock alloc k address operation_name parent =
    let parent_copy : Option (List ℕ) = elim parent [
      | none ↦ none
      | some p ↦ copied (alloc (k + 3)) p
    ] in
    let name_ok : Bool = elim parent [ none ↦ alloc (k + 3) | some p ↦ alloc (k + 4) ] in
    let made : List ℕ → List ℕ → Span = λ trace_id span_id. record {
      address = address;
      trace_id = trace_id;
      span_id = span_id;
      parent_span_id = parent_copy;
      operation_name = operation_name;
      start_time = clock 2;
      end_time = record { tv_sec = 0; tv_usec = 0 };
      finished = false;
      tags = [];
      tags_capacity = 0;
    } in
    if alloc k
    then (elim (generate_id rand (alloc (k + 1)) (clock 0)) [
      | none ↦ none
      | some trace_id ↦ elim (generate_id rand (alloc (k + 2)) (clock 1)) [
        | none ↦ none
        | some span_id ↦ if name_ok then some (made trace_id span_id) else none
      ]
    ])
    else none

unfoldable pub start_span :
    Rand
    → Clock
    → Alloc
    → ℕ
    → ℕ
    → TraceContext
    → Option (List ℕ)
    → Option (List ℕ)
    → TraceContext × Option Span
unfolding span_create
start_span rand clock alloc k address ctx none parent = (ctx, none)
start_span rand clock alloc k address ctx (some name) parent =
    elim (span_create rand clock alloc k address name parent) [
      | none ↦ (ctx, none)
      | some span ↦ (
        record ctx { active_spans = span ∷ ctx.active_spans; span_count = ctx.span_count + 1 },
        some span,
      )
    ]

-- The span at an address, and the spans after a change of it; `none` if no span is there.
unfoldable pub change_span : (Span → Span) → ℕ → List Span → Option (Span × List Span)
change_span f address [] = none
change_span f address (s ∷ ss) =
    let rest = change_span f address ss in
    if s.address == address
    then some (f s, f s ∷ ss)
    else (elim rest [ none ↦ none | some (found, ss') ↦ some (found, s ∷ ss') ])

-- A call of an exporter.
pub record Exported : Type 0 where
  pub exporter : Exporter
  pub span : Span

-- The exporter, where there is one, is called on the span.
unfoldable pub deliver : Option Exporter → Span → List Exported → List Exported
deliver none span sent = sent
deliver (some e) span sent = sent ++ (record { exporter = e; span = span }) ∷ []

-- What grpc_trace_finish_span does to the span.
abbrev pub finish_at : Time → Span → Span
finish_at now s = record s { end_time = now; finished = true }

-- grpc_trace_finish_span; a span that the context does not own is outside the model.
unfoldable pub finish_span :
    Time → ℕ → TraceContext → List Exported → Run (TraceContext × List Exported)
unfolding change_span deliver
finish_span now address ctx sent = elim (change_span (finish_at now) address ctx.active_spans) [
  | none ↦ fault
  | some (span, spans) ↦
      returns (record ctx { active_spans = spans }, deliver ctx.exporter span sent)
]

-- The requests are for the array, where it is full, and for the two copies, which are not tested.
unfoldable pub add_tag : Alloc → ℕ → Span → Option (List ℕ) → Option (List ℕ) → Span × Status
unfolding copied strlen
add_tag alloc k span none value = (span, failure)
add_tag alloc k span (some key) none = (span, failure)
add_tag alloc k span (some key) (some value) =
    let capacity = if span.tags_capacity == 0 then 4 else span.tags_capacity * 2 in
    let tag : ℕ → Tag = λ i. record {
      key = copied (alloc i) key;
      value = copied (alloc (i + 1)) value;
      value_length = strlen value;
    } in
    if leb span.tags_capacity (length span.tags)
    then (if alloc k
        then (
          record span { tags = span.tags ++ tag (k + 1) ∷ []; tags_capacity = capacity },
          success,
        )
        else (span, failure))
    else (record span { tags = span.tags ++ tag k ∷ [] }, success)

unfoldable pub set_exporter : TraceContext → Option Exporter → TraceContext
set_exporter ctx exporter = record ctx { exporter = exporter }
