-- ===== src/Api/Transaction.antt =====
-- Entry points write to the caller's memory only when they succeed.
use imbh_c.Common.{ℕ, ◌≡◌, ◌≢◌}
use imbh_c.Common.Int.{ℤ}
use imbh_c.Engine.{Engine}
use imbh_c.Types.Ffi.{Ptr, ImbhTable}
use imbh_c.Error.{ImbhError, success, value, World}
use imbh_c.Lgtm.Interface.{Lgtm}
use imbh_c.Api.Rules.{Atomic, atomic_rules, lgtm_rules}
use imbh_c.Api.{
  DbCall, run, close, ingest_logs, ingest_traces, ingest_metrics, query_sql, query_sql_ipc, flush,
  maintain, compact, stats, table_stats, snapshot, durable_through, segments, segment_files, export,
  logs_query, metrics_range, traces_span_metrics, metrics_instant, logs_volume, traces_search,
  metrics_points, logs_page, logs_count, attr_names, attr_values, metric_catalog, metric_series,
  metric_exemplars, query_promql, query_logql, query_traceql, get_trace,
}
use imbh_c.Lifecycle.{imbh_db_close}
use imbh_c.Ingest.{imbh_db_ingest_logs, imbh_db_ingest_traces, imbh_db_ingest_metrics}
use imbh_c.Sql.{imbh_db_query_sql, imbh_db_query_sql_ipc}
use imbh_c.Ops.{
  imbh_db_flush, imbh_db_maintain, imbh_db_compact, imbh_db_stats, imbh_db_table_stats,
}
use imbh_c.Ops.Snapshot.{
  imbh_db_snapshot, imbh_db_durable_through, imbh_db_segments, imbh_db_segment_files,
  imbh_db_export,
}
use imbh_c.Query.Run.{
  imbh_db_logs_query, imbh_db_metrics_range, imbh_db_traces_span_metrics, imbh_db_metrics_instant,
  imbh_db_logs_volume, imbh_db_traces_search, imbh_db_metrics_points,
}
use imbh_c.Query.Paging.{imbh_db_logs_page, imbh_db_logs_count}
use imbh_c.Discovery.Lookups.{
  imbh_db_attr_names, imbh_db_attr_values, imbh_db_metric_catalog, imbh_db_metric_series,
  imbh_db_metric_exemplars,
}
use imbh_c.Lgtm.Queries.{
  imbh_db_query_promql, imbh_db_query_logql, imbh_db_query_traceql, imbh_db_get_trace,
}

module _ ⦃eng : Engine⦄ where
  close-Atomic : (db : Ptr) → Atomic (imbh_db_close db)
  unfolding imbh_db_close
  close-Atomic db = search atomic_rules depth 20

  ingest_logs-Atomic :
      (db : Ptr) (a : Ptr) (b : ℕ) (c : Ptr) → Atomic (imbh_db_ingest_logs db a b c)
  unfolding imbh_db_ingest_logs
  ingest_logs-Atomic db a b c = search atomic_rules depth 20

  ingest_traces-Atomic :
      (db : Ptr) (a : Ptr) (b : ℕ) (c : Ptr) → Atomic (imbh_db_ingest_traces db a b c)
  unfolding imbh_db_ingest_traces
  ingest_traces-Atomic db a b c = search atomic_rules depth 20

  ingest_metrics-Atomic :
      (db : Ptr) (a : Ptr) (b : ℕ) (c : Ptr) → Atomic (imbh_db_ingest_metrics db a b c)
  unfolding imbh_db_ingest_metrics
  ingest_metrics-Atomic db a b c = search atomic_rules depth 20

  query_sql-Atomic : (db : Ptr) (a : Ptr) (b : Ptr) → Atomic (imbh_db_query_sql db a b)
  unfolding imbh_db_query_sql
  query_sql-Atomic db a b = search atomic_rules depth 20

  query_sql_ipc-Atomic : (db : Ptr) (a : Ptr) (b : Ptr) → Atomic (imbh_db_query_sql_ipc db a b)
  unfolding imbh_db_query_sql_ipc
  query_sql_ipc-Atomic db a b = search atomic_rules depth 20

  flush-Atomic : (db : Ptr) → Atomic (imbh_db_flush db)
  unfolding imbh_db_flush
  flush-Atomic db = search atomic_rules depth 20

  maintain-Atomic : (db : Ptr) (a : Ptr) → Atomic (imbh_db_maintain db a)
  unfolding imbh_db_maintain
  maintain-Atomic db a = search atomic_rules depth 20

  compact-Atomic : (db : Ptr) (a : Ptr) → Atomic (imbh_db_compact db a)
  unfolding imbh_db_compact
  compact-Atomic db a = search atomic_rules depth 20

  stats-Atomic : (db : Ptr) (a : Ptr) → Atomic (imbh_db_stats db a)
  unfolding imbh_db_stats
  stats-Atomic db a = search atomic_rules depth 20

  table_stats-Atomic : (db : Ptr) (a : ImbhTable) (b : Ptr) → Atomic (imbh_db_table_stats db a b)
  unfolding imbh_db_table_stats
  table_stats-Atomic db a b = search atomic_rules depth 20

  snapshot-Atomic : (db : Ptr) (a : Ptr) (b : Ptr) → Atomic (imbh_db_snapshot db a b)
  unfolding imbh_db_snapshot
  snapshot-Atomic db a b = search atomic_rules depth 20

  durable_through-Atomic : (db : Ptr) (a : Ptr) → Atomic (imbh_db_durable_through db a)
  unfolding imbh_db_durable_through
  durable_through-Atomic db a = search atomic_rules depth 20

  segments-Atomic : (db : Ptr) (a : Ptr) → Atomic (imbh_db_segments db a)
  unfolding imbh_db_segments
  segments-Atomic db a = search atomic_rules depth 20

  segment_files-Atomic :
      (db : Ptr) (a : ImbhTable) (b : Ptr) → Atomic (imbh_db_segment_files db a b)
  unfolding imbh_db_segment_files
  segment_files-Atomic db a b = search atomic_rules depth 20

  export-Atomic :
      (db : Ptr) (a : ImbhTable) (b : ℤ) (c : ℤ) (d : Ptr) → Atomic (imbh_db_export db a b c d)
  unfolding imbh_db_export
  export-Atomic db a b c d = search atomic_rules depth 20

  logs_query-Atomic :
      (db : Ptr) (a : Ptr) (b : Ptr) (c : Ptr) → Atomic (imbh_db_logs_query db a b c)
  unfolding imbh_db_logs_query
  logs_query-Atomic db a b c = search atomic_rules depth 20

  metrics_range-Atomic :
      (db : Ptr) (a : Ptr) (b : Ptr) (c : Ptr) → Atomic (imbh_db_metrics_range db a b c)
  unfolding imbh_db_metrics_range
  metrics_range-Atomic db a b c = search atomic_rules depth 20

  traces_span_metrics-Atomic :
      (db : Ptr) (a : Ptr) (b : Ptr) (c : Ptr) → Atomic (imbh_db_traces_span_metrics db a b c)
  unfolding imbh_db_traces_span_metrics
  traces_span_metrics-Atomic db a b c = search atomic_rules depth 20

  metrics_instant-Atomic : (db : Ptr) (a : Ptr) (b : Ptr) → Atomic (imbh_db_metrics_instant db a b)
  unfolding imbh_db_metrics_instant
  metrics_instant-Atomic db a b = search atomic_rules depth 20

  logs_volume-Atomic :
      (db : Ptr) (a : Ptr) (b : ℕ) (c : Ptr) (d : ℕ) (e : Ptr)
      → Atomic (imbh_db_logs_volume db a b c d e)
  unfolding imbh_db_logs_volume
  logs_volume-Atomic db a b c d e = search atomic_rules depth 20

  traces_search-Atomic : (db : Ptr) (a : Ptr) (b : Ptr) → Atomic (imbh_db_traces_search db a b)
  unfolding imbh_db_traces_search
  traces_search-Atomic db a b = search atomic_rules depth 20

  metrics_points-Atomic : (db : Ptr) (a : Ptr) (b : Ptr) → Atomic (imbh_db_metrics_points db a b)
  unfolding imbh_db_metrics_points
  metrics_points-Atomic db a b = search atomic_rules depth 20

  logs_page-Atomic :
      (db : Ptr) (a : Ptr) (b : ℕ) (c : Ptr) (d : Ptr) (e : Ptr) (f : Ptr)
      → Atomic (imbh_db_logs_page db a b c d e f)
  unfolding imbh_db_logs_page
  logs_page-Atomic db a b c d e f = search atomic_rules depth 20

  logs_count-Atomic : (db : Ptr) (a : Ptr) (b : Ptr) → Atomic (imbh_db_logs_count db a b)
  unfolding imbh_db_logs_count
  logs_count-Atomic db a b = search atomic_rules depth 20

  attr_names-Atomic : (db : Ptr) (a : Ptr) → Atomic (imbh_db_attr_names db a)
  unfolding imbh_db_attr_names
  attr_names-Atomic db a = search atomic_rules depth 20

  attr_values-Atomic : (db : Ptr) (a : Ptr) (b : Ptr) → Atomic (imbh_db_attr_values db a b)
  unfolding imbh_db_attr_values
  attr_values-Atomic db a b = search atomic_rules depth 20

  metric_catalog-Atomic : (db : Ptr) (a : Ptr) → Atomic (imbh_db_metric_catalog db a)
  unfolding imbh_db_metric_catalog
  metric_catalog-Atomic db a = search atomic_rules depth 20

  metric_series-Atomic : (db : Ptr) (a : Ptr) (b : Ptr) → Atomic (imbh_db_metric_series db a b)
  unfolding imbh_db_metric_series
  metric_series-Atomic db a b = search atomic_rules depth 20

  metric_exemplars-Atomic :
      (db : Ptr) (a : Ptr) (b : Ptr) → Atomic (imbh_db_metric_exemplars db a b)
  unfolding imbh_db_metric_exemplars
  metric_exemplars-Atomic db a b = search atomic_rules depth 20

module _ ⦃eng : Engine⦄ ⦃lgtm : Lgtm⦄ where
  query_promql-Atomic :
      (db : Ptr) (a : Ptr) (b : ℤ) (c : ℤ) (d : ℤ) (e : Ptr)
      → Atomic (imbh_db_query_promql db a b c d e)
  unfolding imbh_db_query_promql
  query_promql-Atomic db a b c d e = search lgtm_rules depth 20

  query_logql-Atomic :
      (db : Ptr) (a : Ptr) (b : ℤ) (c : ℤ) (d : ℤ) (e : ℤ) (f : Ptr)
      → Atomic (imbh_db_query_logql db a b c d e f)
  unfolding imbh_db_query_logql
  query_logql-Atomic db a b c d e f = search lgtm_rules depth 20

  query_traceql-Atomic :
      (db : Ptr) (a : Ptr) (b : ℤ) (c : ℤ) (d : Ptr) → Atomic (imbh_db_query_traceql db a b c d)
  unfolding imbh_db_query_traceql
  query_traceql-Atomic db a b c d = search lgtm_rules depth 20

  get_trace-Atomic : (db : Ptr) (a : Ptr) (b : Ptr) → Atomic (imbh_db_get_trace db a b)
  unfolding imbh_db_get_trace
  get_trace-Atomic db a b = search lgtm_rules depth 20

  run-Atomic : (c : DbCall) (db : Ptr) → Atomic (run c db)
  unfolding run
  run-Atomic close db = close-Atomic db
  run-Atomic (ingest_logs a b c) db = ingest_logs-Atomic db a b c
  run-Atomic (ingest_traces a b c) db = ingest_traces-Atomic db a b c
  run-Atomic (ingest_metrics a b c) db = ingest_metrics-Atomic db a b c
  run-Atomic (query_sql a b) db = query_sql-Atomic db a b
  run-Atomic (query_sql_ipc a b) db = query_sql_ipc-Atomic db a b
  run-Atomic flush db = flush-Atomic db
  run-Atomic (maintain a) db = maintain-Atomic db a
  run-Atomic (compact a) db = compact-Atomic db a
  run-Atomic (stats a) db = stats-Atomic db a
  run-Atomic (table_stats a b) db = table_stats-Atomic db a b
  run-Atomic (snapshot a b) db = snapshot-Atomic db a b
  run-Atomic (durable_through a) db = durable_through-Atomic db a
  run-Atomic (segments a) db = segments-Atomic db a
  run-Atomic (segment_files a b) db = segment_files-Atomic db a b
  run-Atomic (export a b c d) db = export-Atomic db a b c d
  run-Atomic (logs_query a b c) db = logs_query-Atomic db a b c
  run-Atomic (metrics_range a b c) db = metrics_range-Atomic db a b c
  run-Atomic (traces_span_metrics a b c) db = traces_span_metrics-Atomic db a b c
  run-Atomic (metrics_instant a b) db = metrics_instant-Atomic db a b
  run-Atomic (logs_volume a b c d e) db = logs_volume-Atomic db a b c d e
  run-Atomic (traces_search a b) db = traces_search-Atomic db a b
  run-Atomic (metrics_points a b) db = metrics_points-Atomic db a b
  run-Atomic (logs_page a b c d e f) db = logs_page-Atomic db a b c d e f
  run-Atomic (logs_count a b) db = logs_count-Atomic db a b
  run-Atomic (attr_names a) db = attr_names-Atomic db a
  run-Atomic (attr_values a b) db = attr_values-Atomic db a b
  run-Atomic (metric_catalog a) db = metric_catalog-Atomic db a
  run-Atomic (metric_series a b) db = metric_series-Atomic db a b
  run-Atomic (metric_exemplars a b) db = metric_exemplars-Atomic db a b
  run-Atomic (query_promql a b c d e) db = query_promql-Atomic db a b c d e
  run-Atomic (query_logql a b c d e f) db = query_logql-Atomic db a b c d e f
  run-Atomic (query_traceql a b c d) db = query_traceql-Atomic db a b c d
  run-Atomic (get_trace a b) db = get_trace-Atomic db a b

  -- A call on a database handle, whichever it is, that returns an error code has written nothing to
  -- the memory that it shares with the caller: no out-parameter, no statistics, no builder. The
  -- state of the engine may change.
  pub run-undone :
      (call : DbCall) (db : Ptr) (w : World) {c : ImbhError}
      → (run call db w).0 ≡ value c
      → c ≢ success
      → (run call db w).1.store.mem ≡ w.store.mem
  run-undone call db w h ne = (run-Atomic call db).undone w h ne
