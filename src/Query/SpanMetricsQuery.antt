-- ===== src/Query/SpanMetricsQuery.antt =====
-- The `imbh_span_metrics_query_*` builder functions of src/query.rs.
use imbh_c.Common.{some, [], ◌∷◌, ◌++◌}
use imbh_c.Common.Int.{ℤ}
use imbh_c.Engine.{Engine}
use imbh_c.Types.Proto
use imbh_c.Types.Ffi.{Ptr}
use imbh_c.Memory.{◌>>=◌, store, span_metrics_view}
use imbh_c.Error.{Extern, ImbhError, guard}
use imbh_c.Pointers.{read_str, builder_ref}
use imbh_c.Query.Builders.{kv, new_builder, free_builder}

module _ ⦃eng : Engine⦄ where
  unfoldable pub new : Extern Ptr
  unfolding new_builder
  new = new_builder span_metrics_view Proto.span_metrics_query_default

  unfoldable pub free : Ptr → Extern (Unit {0})
  unfolding free_builder
  free = free_builder span_metrics_view

  unfoldable pub set_service : Ptr → Ptr → Extern ImbhError
  set_service q service = guard do
    b ← builder_ref span_metrics_view "null imbh_span_metrics_query" q
    service' ← read_str service
    store span_metrics_view q (record b { service = some service' })

  unfoldable pub set_name : Ptr → Ptr → Extern ImbhError
  set_name q name = guard do
    b ← builder_ref span_metrics_view "null imbh_span_metrics_query" q
    name' ← read_str name
    store span_metrics_view q (record b { name = some name' })

  unfoldable pub set_kind : Ptr → Ptr → Extern ImbhError
  set_kind q kind = guard do
    b ← builder_ref span_metrics_view "null imbh_span_metrics_query" q
    kind' ← read_str kind
    store span_metrics_view q (record b { kind = some kind' })

  unfoldable pub set_status : Ptr → Ptr → Extern ImbhError
  set_status q status = guard do
    b ← builder_ref span_metrics_view "null imbh_span_metrics_query" q
    status' ← read_str status
    store span_metrics_view q (record b { status = some status' })

  unfoldable pub add_attr_eq : Ptr → Ptr → Ptr → Extern ImbhError
  add_attr_eq q key value = guard do
    b ← builder_ref span_metrics_view "null imbh_span_metrics_query" q
    key' ← read_str key
    value' ← read_str value
    store span_metrics_view q (record b { attr_eq = b.attr_eq ++ (kv key' value' ∷ []) })

  unfoldable pub add_group_by : Ptr → Ptr → Extern ImbhError
  add_group_by q label = guard do
    b ← builder_ref span_metrics_view "null imbh_span_metrics_query" q
    label' ← read_str label
    store span_metrics_view q (record b { group_by = b.group_by ++ (label' ∷ []) })

  unfoldable pub set_range : Ptr → ℤ → ℤ → Extern ImbhError
  set_range q start end = guard do
    b ← builder_ref span_metrics_view "null imbh_span_metrics_query" q
    store span_metrics_view q (record b { range = some (record { start = start; end = end }) })

  unfoldable pub set_step_nanos : Ptr → ℤ → Extern ImbhError
  set_step_nanos q step_nanos = guard do
    b ← builder_ref span_metrics_view "null imbh_span_metrics_query" q
    store span_metrics_view q (record b { step_nanos = some step_nanos })
