-- ===== src/Observability/Tests.antt =====
-- Metrics over natural numbers, with `none` for NaN, and short lives of a context and a logger
-- (src/observability.c).
use grpc_c.Common.{
  ℕ, ◌+◌, ◌≡◌, ◌≢◌, refl, arith, true, false, Option, none, some, List, [], ◌∷◌, ltb, All,
}
use grpc_c.Common.Memory.{same_string}
use grpc_c.Transport.{returns}
use grpc_c.Observability.Metrics.{Double, Metric, counter, Registry, get}
use grpc_c.Observability.Metrics.Lookup.{Named}
use grpc_c.Observability.Metrics.History.{Call, increments, sets, call_all, call_all-get, follow}
use grpc_c.Observability.Metrics.Summary.{
  IsOrdered, observe_all, observe_all-bounds, IsLeast, IsGreatest, total,
}
use grpc_c.Observability.Logger.{Logger, Use, logs, installs, debug, warning, error}
use grpc_c.Observability.Tracing.{start_span, Rand, Clock}
use grpc_c.Observability.Tracing.Spans.{Traces, starts, here, later, IsTraced, Traced, ⟶*-Traced}

abbrev Whole : Type 0
Whole = Option ℕ

instance abbrev whole_double : Double Whole
whole_double = record {
  nought = some 0;
  add = λ a b. elim a [ none ↦ none | some x ↦ elim b [ none ↦ none | some y ↦ some (x + y) ] ];
  less = λ a b. elim a [ none ↦ false | some x ↦ elim b [ none ↦ false | some y ↦ ltb x y ] ];
}

abbrev IsWhole : Whole → Type 0
IsWhole a = a ≢ none

Whole-IsOrdered : IsOrdered Whole IsWhole
Whole-IsOrdered = record { less_irrefl = ground arith; below = ground arith; above = ground arith }

-- "a" and "b"
abbrev metric_of : List ℕ → Metric Whole
metric_of name = record {
  name = some name;
  description = none;
  kind = counter;
  value = some 0;
  count = 0;
  sum = some 0;
  min = some 0;
  max = some 0;
}

abbrev two_metrics : Registry Whole
two_metrics = record { metrics = metric_of (98 ∷ []) ∷ metric_of (97 ∷ []) ∷ []; metric_count = 2 }

abbrev calls : List (Call Whole)
calls = increments (97 ∷ []) (some 3) ∷ sets (98 ∷ []) (some 7) ∷ increments (97 ∷ []) (some 5) ∷ []

two_metrics-Named : Named two_metrics.metrics
unfolding Named
two_metrics-Named = ground arith

a_found : get two_metrics (some (97 ∷ [])) ≡ returns (some (metric_of (97 ∷ [])))
unfolding get same_string
a_found = refl

call_all-get_example :
    (r : Registry Whole) × (call_all calls two_metrics ≡ returns r)
    × (get r (some (97 ∷ [])) ≡ returns (some (follow (97 ∷ []) calls (metric_of (97 ∷ [])))))
call_all-get_example =
    call_all-get calls two_metrics (97 ∷ []) (metric_of (97 ∷ [])) two_metrics-Named a_found

numbers : All IsWhole (some 3 ∷ some 5 ∷ [])
numbers = ground arith

observe_all-bounds_example :
    ((observe_all (some 3 ∷ some 5 ∷ []) (metric_of (97 ∷ []))).count ≡ 2)
    × ((observe_all (some 3 ∷ some 5 ∷ []) (metric_of (97 ∷ []))).sum
        ≡ total (some 3 ∷ some 5 ∷ []) (some 0))
    × ((observe_all (some 3 ∷ some 5 ∷ []) (metric_of (97 ∷ []))).value
        ≡ total (some 3 ∷ some 5 ∷ []) (some 0))
    × IsLeast (observe_all (some 3 ∷ some 5 ∷ []) (metric_of (97 ∷ []))).min (some 3 ∷ some 5 ∷ [])
    × IsGreatest
        (observe_all (some 3 ∷ some 5 ∷ []) (metric_of (97 ∷ []))).max
        (some 3 ∷ some 5 ∷ [])
observe_all-bounds_example =
    observe_all-bounds (some 3) (some 5 ∷ []) (metric_of (97 ∷ [])) Whole-IsOrdered refl numbers

-- The latest message is the last.
abbrev session : List Use
session =
    logs error (104 ∷ [])
    ∷ installs (some (record { log_func = 1; user_data = 2 }))
    ∷ logs debug (105 ∷ [])
    ∷ logs error (106 ∷ [])
    ∷ []

abbrev logger : Logger
logger = record { min_level = warning; handler = none }

abbrev empty_context : Traces
empty_context = record {
  ctx = record { active_spans = []; span_count = 0; exporter = none };
  exports = [];
}

empty_context-IsTraced : IsTraced empty_context
empty_context-IsTraced = record { counted = refl; fitting = tt; finished = tt }

abbrev rand : Rand
rand s i = i

abbrev clock : Clock
clock n = record { tv_sec = n; tv_usec = 0 }

abbrev one_span : Traces
one_span = record empty_context {
  ctx = (start_span rand clock (λ k. true) 0 500 empty_context.ctx (some (97 ∷ [])) none).0;
}

⟶*-Traced_example : Traced empty_context one_span
⟶*-Traced_example =
    ⟶*-Traced (later here (starts rand clock (λ k. true) 0 500 (some (97 ∷ [])) none))
      empty_context-IsTraced
