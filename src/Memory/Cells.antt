-- ===== src/Memory/Cells.antt =====
-- The objects of the shared memory. A slot that the caller has not filled is `none`.
use imbh_c.Common.{ℕ, Bool, Option, none, some, List, ◌≡◌, refl}
use imbh_c.Engine.{Engine}
use imbh_c.Types.Proto
use imbh_c.Types.Ffi.{
  Ptr, ImbhOpenOptions, ImbhIngestReceipt, ImbhStats, ImbhTableStats, ImbhMaintenanceReport,
  ImbhCompactionReport, ImbhSnapshotInfo, ImbhBytes, ImbhQueryStats, ImbhMetricPointsQuery,
}

module _ ⦃eng : Engine⦄ where
  -- `imbh_db`
  pub record ImbhDb : Type 0 where
    pub db : eng.Db
    pub rt : eng.Runtime

  pub data Cell : Type 0 where
    db_cell : ImbhDb → Cell
    str_cell : List ℕ → Cell
    ptrs_cell : List Ptr → Cell
    bytes_cell : List ℕ → Cell
    options_cell : ImbhOpenOptions → Cell
    log_cell : Proto.LogQuery eng.F64 → Cell
    metric_cell : Proto.MetricQuery → Cell
    span_metrics_cell : Proto.SpanMetricsQuery → Cell
    trace_cell : Proto.TraceQuery eng.F64 → Cell
    points_cell : ImbhMetricPointsQuery → Cell
    db_slot : Option Ptr → Cell
    receipt_slot : Option ImbhIngestReceipt → Cell
    stats_slot : Option ImbhStats → Cell
    table_stats_slot : Option ImbhTableStats → Cell
    maintenance_slot : Option ImbhMaintenanceReport → Cell
    compaction_slot : Option ImbhCompactionReport → Cell
    snapshot_slot : Option ImbhSnapshotInfo → Cell
    query_stats_slot : Option ImbhQueryStats → Cell
    u64_slot : Option ℕ → Cell
    bool_slot : Option Bool → Cell
    bytes_slot : Option ImbhBytes → Cell
    stream_slot : Option eng.Stream → Cell

  -- One kind of object: how a cell holds it, and how it is read from a cell.
  pub record View (A : Type 0) : Type 0 where
    pub wrap : A → Cell
    pub read : Cell → Option A
    pub read-wrap : (a : A) → read (wrap a) ≡ some a

  abbrev pub read_db : Cell → Option ImbhDb
  read_db (db_cell x) = some x
  read_db _ = none

  abbrev pub db_view : View ImbhDb
  db_view = record { wrap = db_cell; read = read_db; read-wrap = λ x. refl }

  abbrev pub read_str : Cell → Option (List ℕ)
  read_str (str_cell x) = some x
  read_str _ = none

  abbrev pub str_view : View (List ℕ)
  str_view = record { wrap = str_cell; read = read_str; read-wrap = λ x. refl }

  abbrev pub read_ptrs : Cell → Option (List Ptr)
  read_ptrs (ptrs_cell x) = some x
  read_ptrs _ = none

  abbrev pub ptrs_view : View (List Ptr)
  ptrs_view = record { wrap = ptrs_cell; read = read_ptrs; read-wrap = λ x. refl }

  abbrev pub read_bytes : Cell → Option (List ℕ)
  read_bytes (bytes_cell x) = some x
  read_bytes _ = none

  abbrev pub bytes_view : View (List ℕ)
  bytes_view = record { wrap = bytes_cell; read = read_bytes; read-wrap = λ x. refl }

  abbrev pub read_options : Cell → Option ImbhOpenOptions
  read_options (options_cell x) = some x
  read_options _ = none

  abbrev pub options_view : View ImbhOpenOptions
  options_view = record { wrap = options_cell; read = read_options; read-wrap = λ x. refl }

  abbrev pub read_log : Cell → Option (Proto.LogQuery eng.F64)
  read_log (log_cell x) = some x
  read_log _ = none

  abbrev pub log_view : View (Proto.LogQuery eng.F64)
  log_view = record { wrap = log_cell; read = read_log; read-wrap = λ x. refl }

  abbrev pub read_metric : Cell → Option Proto.MetricQuery
  read_metric (metric_cell x) = some x
  read_metric _ = none

  abbrev pub metric_view : View Proto.MetricQuery
  metric_view = record { wrap = metric_cell; read = read_metric; read-wrap = λ x. refl }

  abbrev pub read_span_metrics : Cell → Option Proto.SpanMetricsQuery
  read_span_metrics (span_metrics_cell x) = some x
  read_span_metrics _ = none

  abbrev pub span_metrics_view : View Proto.SpanMetricsQuery
  span_metrics_view = record {
    wrap = span_metrics_cell;
    read = read_span_metrics;
    read-wrap = λ x. refl;
  }

  abbrev pub read_trace : Cell → Option (Proto.TraceQuery eng.F64)
  read_trace (trace_cell x) = some x
  read_trace _ = none

  abbrev pub trace_view : View (Proto.TraceQuery eng.F64)
  trace_view = record { wrap = trace_cell; read = read_trace; read-wrap = λ x. refl }

  abbrev pub read_points : Cell → Option ImbhMetricPointsQuery
  read_points (points_cell x) = some x
  read_points _ = none

  abbrev pub points_view : View ImbhMetricPointsQuery
  points_view = record { wrap = points_cell; read = read_points; read-wrap = λ x. refl }

  abbrev pub read_db_slot : Cell → Option (Option Ptr)
  read_db_slot (db_slot x) = some x
  read_db_slot _ = none

  abbrev pub db_out : View (Option Ptr)
  db_out = record { wrap = db_slot; read = read_db_slot; read-wrap = λ x. refl }

  abbrev pub read_receipt_slot : Cell → Option (Option ImbhIngestReceipt)
  read_receipt_slot (receipt_slot x) = some x
  read_receipt_slot _ = none

  abbrev pub receipt_out : View (Option ImbhIngestReceipt)
  receipt_out = record { wrap = receipt_slot; read = read_receipt_slot; read-wrap = λ x. refl }

  abbrev pub read_stats_slot : Cell → Option (Option ImbhStats)
  read_stats_slot (stats_slot x) = some x
  read_stats_slot _ = none

  abbrev pub stats_out : View (Option ImbhStats)
  stats_out = record { wrap = stats_slot; read = read_stats_slot; read-wrap = λ x. refl }

  abbrev pub read_table_stats_slot : Cell → Option (Option ImbhTableStats)
  read_table_stats_slot (table_stats_slot x) = some x
  read_table_stats_slot _ = none

  abbrev pub table_stats_out : View (Option ImbhTableStats)
  table_stats_out = record {
    wrap = table_stats_slot;
    read = read_table_stats_slot;
    read-wrap = λ x. refl;
  }

  abbrev pub read_maintenance_slot : Cell → Option (Option ImbhMaintenanceReport)
  read_maintenance_slot (maintenance_slot x) = some x
  read_maintenance_slot _ = none

  abbrev pub maintenance_out : View (Option ImbhMaintenanceReport)
  maintenance_out = record {
    wrap = maintenance_slot;
    read = read_maintenance_slot;
    read-wrap = λ x. refl;
  }

  abbrev pub read_compaction_slot : Cell → Option (Option ImbhCompactionReport)
  read_compaction_slot (compaction_slot x) = some x
  read_compaction_slot _ = none

  abbrev pub compaction_out : View (Option ImbhCompactionReport)
  compaction_out = record {
    wrap = compaction_slot;
    read = read_compaction_slot;
    read-wrap = λ x. refl;
  }

  abbrev pub read_snapshot_slot : Cell → Option (Option ImbhSnapshotInfo)
  read_snapshot_slot (snapshot_slot x) = some x
  read_snapshot_slot _ = none

  abbrev pub snapshot_out : View (Option ImbhSnapshotInfo)
  snapshot_out = record { wrap = snapshot_slot; read = read_snapshot_slot; read-wrap = λ x. refl }

  abbrev pub read_query_stats_slot : Cell → Option (Option ImbhQueryStats)
  read_query_stats_slot (query_stats_slot x) = some x
  read_query_stats_slot _ = none

  abbrev pub query_stats_out : View (Option ImbhQueryStats)
  query_stats_out = record {
    wrap = query_stats_slot;
    read = read_query_stats_slot;
    read-wrap = λ x. refl;
  }

  abbrev pub read_u64_slot : Cell → Option (Option ℕ)
  read_u64_slot (u64_slot x) = some x
  read_u64_slot _ = none

  abbrev pub u64_out : View (Option ℕ)
  u64_out = record { wrap = u64_slot; read = read_u64_slot; read-wrap = λ x. refl }

  abbrev pub read_bool_slot : Cell → Option (Option Bool)
  read_bool_slot (bool_slot x) = some x
  read_bool_slot _ = none

  abbrev pub bool_out : View (Option Bool)
  bool_out = record { wrap = bool_slot; read = read_bool_slot; read-wrap = λ x. refl }

  abbrev pub read_bytes_slot : Cell → Option (Option ImbhBytes)
  read_bytes_slot (bytes_slot x) = some x
  read_bytes_slot _ = none

  abbrev pub bytes_out : View (Option ImbhBytes)
  bytes_out = record { wrap = bytes_slot; read = read_bytes_slot; read-wrap = λ x. refl }

  abbrev pub read_stream_slot : Cell → Option (Option eng.Stream)
  read_stream_slot (stream_slot x) = some x
  read_stream_slot _ = none

  abbrev pub stream_out : View (Option eng.Stream)
  stream_out = record { wrap = stream_slot; read = read_stream_slot; read-wrap = λ x. refl }
