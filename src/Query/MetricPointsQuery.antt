-- ===== src/Query/MetricPointsQuery.antt =====
-- The `imbh_metric_points_query_*` builder functions of src/query.rs.
use imbh_c.Common.{ℕ, none, some, [], ◌∷◌, ◌++◌}
use imbh_c.Common.Int.{ℤ}
use imbh_c.Engine.{Engine}
use imbh_c.Types.Ffi.{Ptr, ImbhMetricPointKind}
use imbh_c.Memory.{◌>>=◌, store, points_view}
use imbh_c.Error.{Extern, ImbhError, guard}
use imbh_c.Pointers.{read_str, builder_ref}
use imbh_c.Query.Builders.{new_builder, free_builder}

module _ ⦃eng : Engine⦄ where
  unfoldable pub new : ImbhMetricPointKind → Extern Ptr
  unfolding new_builder
  new kind =
      new_builder points_view
        (record { kind = kind; metric = []; filters = []; range = none; limit = 0 })

  unfoldable pub free : Ptr → Extern (Unit {0})
  unfolding free_builder
  free = free_builder points_view

  unfoldable pub set_metric : Ptr → Ptr → Extern ImbhError
  set_metric q metric = guard do
    b ← builder_ref points_view "null imbh_metric_points_query" q
    metric' ← read_str metric
    store points_view q (record b { metric = metric' })

  unfoldable pub add_filter : Ptr → Ptr → Ptr → Extern ImbhError
  add_filter q key value = guard do
    b ← builder_ref points_view "null imbh_metric_points_query" q
    key' ← read_str key
    value' ← read_str value
    store points_view q (record b { filters = b.filters ++ ((key', value') ∷ []) })

  unfoldable pub set_range : Ptr → ℤ → ℤ → Extern ImbhError
  set_range q start end = guard do
    b ← builder_ref points_view "null imbh_metric_points_query" q
    store points_view q (record b { range = some (start, end) })

  unfoldable pub set_limit : Ptr → ℕ → Extern ImbhError
  set_limit q limit = guard do
    b ← builder_ref points_view "null imbh_metric_points_query" q
    store points_view q (record b { limit = limit })
