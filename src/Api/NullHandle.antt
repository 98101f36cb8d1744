-- ===== src/Api/NullHandle.antt =====
-- A null database handle.
use imbh_c.Common.{◌≡◌, refl, codes}
use imbh_c.Engine.{Engine}
use imbh_c.Types.Ffi.{null}
use imbh_c.Memory.{◌>>=◌}
use imbh_c.Pointers.{handle}
use imbh_c.Error.{guard, ImbhError, value, World, set_last_error}
use imbh_c.Lgtm.Interface.{Lgtm}
use imbh_c.Api.{DbCall, run, close}
use imbh_c.Lifecycle.{imbh_db_close}
use imbh_c.Ingest.{imbh_db_ingest_logs, imbh_db_ingest_traces, imbh_db_ingest_metrics}
use imbh_c.Sql.{imbh_db_query_sql, imbh_db_query_sql_ipc}
use imbh_c.Ops.{
  imbh_db_flush, imbh_db_maintain, imbh_db_compact, imbh_db_stats, imbh_db_table_stats,
}
use imbh_c.Ops.Snapshot.{
  imbh_db_snapshot, imbh_db_durable_through, imbh_db_segments, imbh_db_segment_files,
  imbh_db_export,
}
use imbh_c.Query.Run.{
  imbh_db_logs_query, imbh_db_metrics_range, imbh_db_traces_span_metrics, imbh_db_metrics_instant,
  imbh_db_logs_volume, imbh_db_traces_search, imbh_db_metrics_points,
}
use imbh_c.Query.Paging.{imbh_db_logs_page, imbh_db_logs_count}
use imbh_c.Discovery.Lookups.{
  imbh_db_attr_names, imbh_db_attr_values, imbh_db_metric_catalog, imbh_db_metric_series,
  imbh_db_metric_exemplars,
}
use imbh_c.Lgtm.Queries.{
  imbh_db_query_promql, imbh_db_query_logql, imbh_db_query_traceql, imbh_db_get_trace,
}

module _ ⦃eng : Engine⦄ ⦃lgtm : Lgtm⦄ where
  -- Every entry point that takes a database handle answers a null one with `InvalidArg` and the
  -- message of the handle check, before it looks at its other arguments: the memory and the engine
  -- are untouched, whatever those arguments are.
  pub run-null :
      (c : DbCall) (w : World)
      → run c null w ≡ (value ImbhError.invalid_arg, set_last_error (codes "null imbh_db handle") w)
  unfolding guard handle ◌>>=◌ run imbh_db_close imbh_db_ingest_logs imbh_db_ingest_traces
      imbh_db_ingest_metrics imbh_db_query_sql imbh_db_query_sql_ipc imbh_db_flush imbh_db_maintain
      imbh_db_compact imbh_db_stats imbh_db_table_stats imbh_db_snapshot imbh_db_durable_through
      imbh_db_segments imbh_db_segment_files imbh_db_export imbh_db_logs_query imbh_db_metrics_range
      imbh_db_traces_span_metrics imbh_db_metrics_instant imbh_db_logs_volume imbh_db_traces_search
      imbh_db_metrics_points imbh_db_logs_page imbh_db_logs_count imbh_db_attr_names
      imbh_db_attr_values imbh_db_metric_catalog imbh_db_metric_series imbh_db_metric_exemplars
      imbh_db_query_promql imbh_db_query_logql imbh_db_query_traceql imbh_db_get_trace
  run-null close w = refl
  run-null _ w = refl
