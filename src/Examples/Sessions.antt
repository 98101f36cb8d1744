-- ===== src/Examples/Sessions.antt =====
-- Each of the four other builders, from the call that makes it, at concrete calls.
use imbh_c.Common.{none, some, List, [], ◌∷◌, ◌≡◌, refl, codes, arith}
use imbh_c.Common.Int.{ℤ}
use imbh_c.Common.Utf8.{is_utf8}
use imbh_c.Toy.{toy, toy_world, toy_mem}
use imbh_c.Types.Proto
use imbh_c.Types.Ffi.{ImbhLabelOp, ImbhAggregation, ImbhMetricTable, ImbhMetricPointKind}
use imbh_c.Memory.{
  Cell, update, peek, alloc, trace_view, metric_view, span_metrics_view, points_view, ptrs_view,
}
use imbh_c.Error.{World, value, unguarded}
use imbh_c.Pointers.Live.{Live}
use imbh_c.Pointers.Arrays.{Str}
use imbh_c.Query.Builders.{new_builder}
use imbh_c.Query.Builders.Caller.{Contents, Readable, session, edits, all_success}
use imbh_c.Query.TraceQuery
use imbh_c.Query.TraceSession.{TraceCall, trace_setters, trace_session-edits}
use imbh_c.Query.MetricQuery
use imbh_c.Query.MetricSession.{MetricCall, metric_setters, metric_session-edits}
use imbh_c.Query.SpanMetricsQuery
use imbh_c.Query.SpanMetricsSession.{
  SpanMetricsCall, span_metrics_setters, span_metrics_session-edits,
}
use imbh_c.Query.MetricPointsQuery
use imbh_c.Query.PointsSession.{PointsCall, points_setters, points_session-edits}

abbrev contents : Contents
contents = record { text = λ _. codes "api"; items = λ _. 6 ∷ (6 ∷ []) }

-- The world once the builder has its box.
abbrev made : Cell → World
made c = record toy_world {
  store = record { mem = update toy_mem 101 (some c); last = 101; engine = 0 };
}

api : (c : Cell) → Str (made c).store 6 (codes "api")
unfolding peek update is_utf8 codes
api c = record { live = record { not_null = refl; holds = refl }; valid = refl }

items : (c : Cell) → Live ptrs_view (made c).store 9 (6 ∷ (6 ∷ []))
unfolding peek update
items c = record { not_null = refl; holds = refl }

-- Two strings that the calls read.
two : (c : Cell) → Readable contents (made c).store 101 (6 ∷ (6 ∷ []))
two c = (api c, refl, (api c, refl, tt))

abbrev trace_made : World
trace_made = made (trace_view.wrap Proto.trace_query_default)

trace_made_by_new : TraceQuery.new toy_world ≡ (value 101, trace_made)
unfolding TraceQuery.new new_builder unguarded alloc update
trace_made_by_new = refl

abbrev trace_calls : List TraceCall
trace_calls =
    TraceCall.set_min_duration_nanos 5
    ∷ (TraceCall.add_attr_matches 6 6 ∷ (TraceCall.add_attr_not_in 6 9 1 ∷ []))

trace_session-edits_example :
    ((session trace_setters trace_calls 101 trace_made).0 ≡ all_success trace_calls)
    × Live trace_view
        (session trace_setters trace_calls 101 trace_made).1.store
        101
        (edits trace_setters contents trace_calls Proto.trace_query_default)
trace_session-edits_example =
    trace_session-edits contents trace_calls toy_world trace_made_by_new
      (tt, tt, (two _, tt, (two _, (items _, omega arith, refl, tt), tt)))

abbrev metric_made : World
metric_made = made (metric_view.wrap (record Proto.metric_query_default { table = 1 }))

metric_made_by_new : MetricQuery.new ImbhMetricTable.sum toy_world ≡ (value 101, metric_made)
unfolding MetricQuery.new new_builder unguarded alloc update
metric_made_by_new = refl

abbrev metric_calls : List MetricCall
metric_calls =
    MetricCall.set_aggregation ImbhAggregation.max
    ∷ (MetricCall.add_filter 6 ImbhLabelOp.regex 6 ∷ (MetricCall.set_step_nanos (ℤ.pos 60) ∷ []))

metric_session-edits_example :
    ((session metric_setters metric_calls 101 metric_made).0 ≡ all_success metric_calls)
    × Live metric_view (session metric_setters metric_calls 101 metric_made).1.store 101 (
        edits metric_setters contents metric_calls
          (record Proto.metric_query_default { table = 1 }))
metric_session-edits_example =
    metric_session-edits contents metric_calls ImbhMetricTable.sum toy_world metric_made_by_new
      (tt, tt, (two _, tt, (tt, tt, tt)))

abbrev span_metrics_made : World
span_metrics_made = made (span_metrics_view.wrap Proto.span_metrics_query_default)

span_metrics_made_by_new : SpanMetricsQuery.new toy_world ≡ (value 101, span_metrics_made)
unfolding SpanMetricsQuery.new new_builder unguarded alloc update
span_metrics_made_by_new = refl

abbrev span_metrics_calls : List SpanMetricsCall
span_metrics_calls =
    SpanMetricsCall.add_attr_eq 6 6 ∷ (SpanMetricsCall.set_range (ℤ.pos 1) (ℤ.pos 2) ∷ [])

span_metrics_session-edits_example :
    ((session span_metrics_setters span_metrics_calls 101 span_metrics_made).0
      ≡ all_success span_metrics_calls)
    × Live span_metrics_view
        (session span_metrics_setters span_metrics_calls 101 span_metrics_made).1.store
        101
        (edits span_metrics_setters contents span_metrics_calls Proto.span_metrics_query_default)
span_metrics_session-edits_example =
    span_metrics_session-edits contents span_metrics_calls toy_world span_metrics_made_by_new
      (two _, tt, (tt, tt, tt))

abbrev points_made : World
points_made = made (
    points_view.wrap (record {
      kind = ImbhMetricPointKind.histogram;
      metric = [];
      filters = [];
      range = none;
      limit = 0;
    }))

points_made_by_new :
    MetricPointsQuery.new ImbhMetricPointKind.histogram toy_world ≡ (value 101, points_made)
unfolding MetricPointsQuery.new new_builder unguarded alloc update
points_made_by_new = refl

abbrev points_calls : List PointsCall
points_calls = PointsCall.add_filter 6 6 ∷ (PointsCall.set_limit 3 ∷ [])

points_session-edits_example :
    ((session points_setters points_calls 101 points_made).0 ≡ all_success points_calls)
    × Live points_view (session points_setters points_calls 101 points_made).1.store 101 (
        edits points_setters contents points_calls (record {
          kind = ImbhMetricPointKind.histogram;
          metric = [];
          filters = [];
          range = none;
          limit = 0;
        }))
points_session-edits_example =
    points_session-edits contents points_calls ImbhMetricPointKind.histogram toy_world
      points_made_by_new (two _, tt, (tt, tt, tt))
