-- ===== src/Query/MetricQuery.antt =====
-- The `imbh_metric_query_*` builder functions of src/query.rs.
use imbh_c.Common.{some, [], ◌∷◌, ◌++◌}
use imbh_c.Common.Int.{ℤ}
use imbh_c.Engine.{Engine}
use imbh_c.Types.Proto
use imbh_c.Types.Discriminant
use imbh_c.Types.Ffi.{Ptr, ImbhLabelOp, ImbhAggregation, ImbhRateMode, ImbhMetricTable}
use imbh_c.Memory.{◌>>=◌, store, metric_view}
use imbh_c.Error.{Extern, ImbhError, guard}
use imbh_c.Pointers.{read_str, builder_ref}
use imbh_c.Query.Builders.{new_builder, free_builder}

module _ ⦃eng : Engine⦄ where
  unfoldable pub new : ImbhMetricTable → Extern Ptr
  unfolding new_builder
  new table =
      new_builder metric_view
        (record Proto.metric_query_default { table = Discriminant.metric_table table })

  unfoldable pub free : Ptr → Extern (Unit {0})
  unfolding free_builder
  free = free_builder metric_view

  unfoldable pub set_metric : Ptr → Ptr → Extern ImbhError
  set_metric q metric = guard do
    b ← builder_ref metric_view "null imbh_metric_query" q
    metric' ← read_str metric
    store metric_view q (record b { metric = metric' })

  unfoldable pub set_aggregation : Ptr → ImbhAggregation → Extern ImbhError
  set_aggregation q aggregation = guard do
    b ← builder_ref metric_view "null imbh_metric_query" q
    store metric_view q (record b { aggregation = some (Discriminant.aggregation aggregation) })

  unfoldable pub add_group_by : Ptr → Ptr → Extern ImbhError
  add_group_by q label = guard do
    b ← builder_ref metric_view "null imbh_metric_query" q
    label' ← read_str label
    store metric_view q (record b { group_by = b.group_by ++ (label' ∷ []) })

  unfoldable pub add_filter : Ptr → Ptr → ImbhLabelOp → Ptr → Extern ImbhError
  add_filter q key op value = guard do
    b ← builder_ref metric_view "null imbh_metric_query" q
    key' ← read_str key
    value' ← read_str value
    store metric_view q (record b {
      filters =
          b.filters ++ (record { key = key'; op = Discriminant.label_op op; value = value' } ∷ []);
    })

  unfoldable pub set_range : Ptr → ℤ → ℤ → Extern ImbhError
  set_range q start end = guard do
    b ← builder_ref metric_view "null imbh_metric_query" q
    store metric_view q (record b { range = some (record { start = start; end = end }) })

  unfoldable pub set_step_nanos : Ptr → ℤ → Extern ImbhError
  set_step_nanos q step_nanos = guard do
    b ← builder_ref metric_view "null imbh_metric_query" q
    store metric_view q (record b { step_nanos = some step_nanos })

  unfoldable pub set_rate : Ptr → ImbhRateMode → Extern ImbhError
  set_rate q rate = guard do
    b ← builder_ref metric_view "null imbh_metric_query" q
    store metric_view q (record b { rate = Discriminant.rate_mode rate })
