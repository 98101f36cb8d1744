-- ===== src/Api.antt =====
-- The entry points that take a database handle, as one type of calls. `run` is the dispatch that
-- the C caller makes by choosing a function of src/lib.rs, src/query.rs, src/discovery.rs or
-- src/lgtm.rs.
pub mod NullHandle
pub mod Rules
pub mod Transaction
pub mod Opens
use imbh_c.Common.{ℕ}
use imbh_c.Common.Int.{ℤ}
use imbh_c.Engine.{Engine}
use imbh_c.Types.Ffi.{Ptr, ImbhTable}
use imbh_c.Error.{Extern, ImbhError}
use imbh_c.Lgtm.Interface.{Lgtm}
use imbh_c.Lifecycle.{imbh_db_close}
use imbh_c.Ingest.{imbh_db_ingest_logs, imbh_db_ingest_traces, imbh_db_ingest_metrics}
use imbh_c.Sql.{imbh_db_query_sql, imbh_db_query_sql_ipc}
use imbh_c.Ops.{
  imbh_db_flush, imbh_db_maintain, imbh_db_compact, imbh_db_stats, imbh_db_table_stats,
}
use imbh_c.Ops.Snapshot.{
  imbh_db_snapshot, imbh_db_durable_through, imbh_db_segments, imbh_db_segment_files,
  imbh_db_export,
}
use imbh_c.Query.Run.{
  imbh_db_logs_query, imbh_db_metrics_range, imbh_db_traces_span_metrics, imbh_db_metrics_instant,
  imbh_db_logs_volume, imbh_db_traces_search, imbh_db_metrics_points,
}
use imbh_c.Query.Paging.{imbh_db_logs_page, imbh_db_logs_count}
use imbh_c.Discovery.Lookups.{
  imbh_db_attr_names, imbh_db_attr_values, imbh_db_metric_catalog, imbh_db_metric_series,
  imbh_db_metric_exemplars,
}
use imbh_c.Lgtm.Queries.{
  imbh_db_query_promql, imbh_db_query_logql, imbh_db_query_traceql, imbh_db_get_trace,
}

-- The arguments behind the handle.
pub data DbCall : Type 0 where
  close : DbCall
  ingest_logs : Ptr → ℕ → Ptr → DbCall
  ingest_traces : Ptr → ℕ → Ptr → DbCall
  ingest_metrics : Ptr → ℕ → Ptr → DbCall
  query_sql : Ptr → Ptr → DbCall
  query_sql_ipc : Ptr → Ptr → DbCall
  flush : DbCall
  maintain : Ptr → DbCall
  compact : Ptr → DbCall
  stats : Ptr → DbCall
  table_stats : ImbhTable → Ptr → DbCall
  snapshot : Ptr → Ptr → DbCall
  durable_through : Ptr → DbCall
  segments : Ptr → DbCall
  segment_files : ImbhTable → Ptr → DbCall
  export : ImbhTable → ℤ → ℤ → Ptr → DbCall
  logs_query : Ptr → Ptr → Ptr → DbCall
  metrics_range : Ptr → Ptr → Ptr → DbCall
  traces_span_metrics : Ptr → Ptr → Ptr → DbCall
  metrics_instant : Ptr → Ptr → DbCall
  logs_volume : Ptr → ℕ → Ptr → ℕ → Ptr → DbCall
  traces_search : Ptr → Ptr → DbCall
  metrics_points : Ptr → Ptr → DbCall
  logs_page : Ptr → ℕ → Ptr → Ptr → Ptr → Ptr → DbCall
  logs_count : Ptr → Ptr → DbCall
  attr_names : Ptr → DbCall
  attr_values : Ptr → Ptr → DbCall
  metric_catalog : Ptr → DbCall
  metric_series : Ptr → Ptr → DbCall
  metric_exemplars : Ptr → Ptr → DbCall
  query_promql : Ptr → ℤ → ℤ → ℤ → Ptr → DbCall
  query_logql : Ptr → ℤ → ℤ → ℤ → ℤ → Ptr → DbCall
  query_traceql : Ptr → ℤ → ℤ → Ptr → DbCall
  get_trace : Ptr → Ptr → DbCall

module _ ⦃eng : Engine⦄ ⦃lgtm : Lgtm⦄ where
  unfoldable pub run : DbCall → Ptr → Extern ImbhError
  run close db = imbh_db_close db
  run (ingest_logs a b c) db = imbh_db_ingest_logs db a b c
  run (ingest_traces a b c) db = imbh_db_ingest_traces db a b c
  run (ingest_metrics a b c) db = imbh_db_ingest_metrics db a b c
  run (query_sql a b) db = imbh_db_query_sql db a b
  run (query_sql_ipc a b) db = imbh_db_query_sql_ipc db a b
  run flush db = imbh_db_flush db
  run (maintain a) db = imbh_db_maintain db a
  run (compact a) db = imbh_db_compact db a
  run (stats a) db = imbh_db_stats db a
  run (table_stats a b) db = imbh_db_table_stats db a b
  run (snapshot a b) db = imbh_db_snapshot db a b
  run (durable_through a) db = imbh_db_durable_through db a
  run (segments a) db = imbh_db_segments db a
  run (segment_files a b) db = imbh_db_segment_files db a b
  run (export a b c d) db = imbh_db_export db a b c d
  run (logs_query a b c) db = imbh_db_logs_query db a b c
  run (metrics_range a b c) db = imbh_db_metrics_range db a b c
  run (traces_span_metrics a b c) db = imbh_db_traces_span_metrics db a b c
  run (metrics_instant a b) db = imbh_db_metrics_instant db a b
  run (logs_volume a b c d e) db = imbh_db_logs_volume db a b c d e
  run (traces_search a b) db = imbh_db_traces_search db a b
  run (metrics_points a b) db = imbh_db_metrics_points db a b
  run (logs_page a b c d e f) db = imbh_db_logs_page db a b c d e f
  run (logs_count a b) db = imbh_db_logs_count db a b
  run (attr_names a) db = imbh_db_attr_names db a
  run (attr_values a b) db = imbh_db_attr_values db a b
  run (metric_catalog a) db = imbh_db_metric_catalog db a
  run (metric_series a b) db = imbh_db_metric_series db a b
  run (metric_exemplars a b) db = imbh_db_metric_exemplars db a b
  run (query_promql a b c d e) db = imbh_db_query_promql db a b c d e
  run (query_logql a b c d e f) db = imbh_db_query_logql db a b c d e f
  run (query_traceql a b c d) db = imbh_db_query_traceql db a b c d
  run (get_trace a b) db = imbh_db_get_trace db a b
