-- ===== src/Observability/Destroy.antt =====
-- The end of traces, of the metrics registry and of the logger (src/observability.c): what their
-- destruction frees. Here an object is its block and those of its strings and lists.
use mathlib.Core.List.{Perm}
use grpc_c.Common.{ℕ, ◌≡◌, Option, none, some, List, [], ◌∷◌, ◌++◌}
use grpc_c.Transport.{Run, returns, ◌>>=◌}
use grpc_c.Blocks.{
  Live, free_block, free_pointer, pointer, destroy_list, blocks_of_all, Frees, Frees-none,
  free_block-Frees, free_pointer-Frees, then_Frees, destroy_list-Frees, Frees-returns,
}

-- A key and a value of an array of metadata.
pub record EntryBlocks : Type 0 where
  pub key : Option ℕ
  pub value : Option ℕ

-- The block of the entries, with those that it holds up to the count; `none` if the array is NULL.
abbrev pub ArrayBlocks : Type 0
ArrayBlocks = Option (ℕ × List EntryBlocks)

pub record SpanBlocks : Type 0 where
  pub span : ℕ
  pub trace_id : Option ℕ
  pub span_id : Option ℕ
  pub parent_span_id : Option ℕ
  pub operation_name : Option ℕ
  pub tags : ArrayBlocks
  pub logs : ArrayBlocks

pub record ContextBlocks : Type 0 where
  pub ctx : ℕ
  pub active_spans : List SpanBlocks

pub record MetricBlocks : Type 0 where
  pub metric : ℕ
  pub name : Option ℕ
  pub description : Option ℕ

pub record MetricsBlocks : Type 0 where
  pub registry : ℕ
  pub metrics : List MetricBlocks

unfoldable pub entry_free : EntryBlocks → Live → Run Live
entry_free e live = free_pointer e.key live >>= free_pointer e.value

unfoldable pub array_free : ArrayBlocks → Live → Run Live
unfolding entry_free
array_free none live = returns live
array_free (some (block, entries)) live = destroy_list entry_free entries live >>= free_block block

unfoldable pub span_destroy : SpanBlocks → Live → Run Live
unfolding array_free
span_destroy s live =
    free_pointer s.trace_id live
    >>= free_pointer s.span_id
    >>= free_pointer s.parent_span_id
    >>= free_pointer s.operation_name
    >>= array_free s.tags
    >>= array_free s.logs
    >>= free_block s.span

unfoldable pub context_destroy : ContextBlocks → Live → Run Live
unfolding span_destroy
context_destroy c live = destroy_list span_destroy c.active_spans live >>= free_block c.ctx

unfoldable pub metric_free : MetricBlocks → Live → Run Live
metric_free m live = free_pointer m.name live >>= free_pointer m.description >>= free_block m.metric

unfoldable pub metrics_destroy : MetricsBlocks → Live → Run Live
unfolding metric_free
metrics_destroy r live = destroy_list metric_free r.metrics live >>= free_block r.registry

abbrev pub entry_blocks : EntryBlocks → List ℕ
entry_blocks e = pointer e.key ++ pointer e.value

abbrev pub array_blocks : ArrayBlocks → List ℕ
array_blocks none = []
array_blocks (some (block, entries)) = blocks_of_all entry_blocks entries ++ block ∷ []

abbrev pub span_blocks : SpanBlocks → List ℕ
span_blocks s =
    (((((pointer s.trace_id ++ pointer s.span_id) ++ pointer s.parent_span_id)
          ++ pointer s.operation_name)
        ++ array_blocks s.tags)
      ++ array_blocks s.logs)
    ++ s.span ∷ []

abbrev pub context_blocks : ContextBlocks → List ℕ
context_blocks c = blocks_of_all span_blocks c.active_spans ++ c.ctx ∷ []

abbrev pub metric_blocks : MetricBlocks → List ℕ
metric_blocks m = (pointer m.name ++ pointer m.description) ++ m.metric ∷ []

abbrev pub metrics_blocks : MetricsBlocks → List ℕ
metrics_blocks r = blocks_of_all metric_blocks r.metrics ++ r.registry ∷ []

entry_free-Frees : (e : EntryBlocks) → Frees (entry_free e) (entry_blocks e)
unfolding entry_free
entry_free-Frees e = then_Frees _ _ _ _ (free_pointer-Frees e.key) (free_pointer-Frees e.value)

array_free-Frees : (a : ArrayBlocks) → Frees (array_free a) (array_blocks a)
unfolding array_free
array_free-Frees none = Frees-none
array_free-Frees (some (block, entries)) =
    then_Frees _ _ _ _ (destroy_list-Frees entry_free entry_blocks entry_free-Frees entries)
      (free_block-Frees block)

span_destroy-Frees : (s : SpanBlocks) → Frees (span_destroy s) (span_blocks s)
unfolding span_destroy
span_destroy-Frees s =
    let ids = then_Frees _ _ _ _ (free_pointer-Frees s.trace_id) (free_pointer-Frees s.span_id) in
    let parents = then_Frees _ _ _ _ ids (free_pointer-Frees s.parent_span_id) in
    let strings = then_Frees _ _ _ _ parents (free_pointer-Frees s.operation_name) in
    let tags = then_Frees _ _ _ _ strings (array_free-Frees s.tags) in
    let logs = then_Frees _ _ _ _ tags (array_free-Frees s.logs) in
    then_Frees _ _ _ _ logs (free_block-Frees s.span)

context_destroy-Frees : (c : ContextBlocks) → Frees (context_destroy c) (context_blocks c)
unfolding context_destroy
context_destroy-Frees c =
    then_Frees _ _ _ _
      (destroy_list-Frees span_destroy span_blocks span_destroy-Frees c.active_spans)
      (free_block-Frees c.ctx)

metric_free-Frees : (m : MetricBlocks) → Frees (metric_free m) (metric_blocks m)
unfolding metric_free
metric_free-Frees m =
    then_Frees _ _ _ _
      (then_Frees _ _ _ _ (free_pointer-Frees m.name) (free_pointer-Frees m.description))
      (free_block-Frees m.metric)

metrics_destroy-Frees : (r : MetricsBlocks) → Frees (metrics_destroy r) (metrics_blocks r)
unfolding metrics_destroy
metrics_destroy-Frees r =
    then_Frees _ _ _ _ (destroy_list-Frees metric_free metric_blocks metric_free-Frees r.metrics)
      (free_block-Frees r.registry)

-- Where the blocks of a context are live, those of its spans with their strings, tags and logs
-- among them, its destruction returns: it frees each of them once, and no other block.
pub context_destroy_frees :
    (c : ContextBlocks) (live rest : Live)
    → Perm live (context_blocks c ++ rest)
    → (live' : Live) × (context_destroy c live ≡ returns live') × Perm live' rest
context_destroy_frees c live rest =
    Frees-returns (context_destroy c) (context_blocks c) live rest (context_destroy-Frees c)

-- The same of the registry of metrics.
pub metrics_destroy_frees :
    (r : MetricsBlocks) (live rest : Live)
    → Perm live (metrics_blocks r ++ rest)
    → (live' : Live) × (metrics_destroy r live ≡ returns live') × Perm live' rest
metrics_destroy_frees r live rest =
    Frees-returns (metrics_destroy r) (metrics_blocks r) live rest (metrics_destroy-Frees r)
