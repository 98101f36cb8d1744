-- ===== src/Engine.antt =====
-- The crates that the binding calls and that are not in the repository: `imbh`, `imbh-core`, arrow
-- and tokio. A call is a field of this record, named for the call expression in src/*.rs. Nothing is
-- assumed of these fields here; a theorem that needs documented behaviour has it as a hypothesis.
use imbh_c.Common.{ℕ, Text, Bool, Option, List}
use imbh_c.Common.Int.{ℤ}
use imbh_c.Types.Imbh.{
  Reply, Async, Category, Table, WalMode, Compression, Refresh, TimeRange, IngestReceipt, DbStats,
  MaintenanceReport, CompactionReport, SnapshotInfo, QueryStats, SegmentRef, MetricMeta,
  TraceSummary, Exemplar, InstantSample, VolumeBucket,
}
use imbh_c.Types.Proto
use imbh_c.Types.Arrow.{Field, Column}

pub record Engine : Type 1 where
  -- the engine's own state: databases, files, workers
  pub State : Type 0
  pub Db : Type 0
  pub Runtime : Type 0
  pub F64 : Type 0
  -- `imbh::Error`
  pub Error : Type 0
  pub is_backpressure : Error → Bool
  pub is_not_found : Error → Bool
  pub category : Error → Category
  pub error_to_string : Error → Text
  -- `imbh::DbBuilder`
  pub DbBuilder : Type 0
  pub Retention : Type 0
  pub in_memory : DbBuilder
  pub builder : Text → DbBuilder
  pub wal : WalMode → DbBuilder → DbBuilder
  pub set_compression : Compression → DbBuilder → DbBuilder
  pub access_read_only : DbBuilder → DbBuilder
  pub allow_stale_reads : DbBuilder → DbBuilder
  pub memory_budget_total : ℕ → DbBuilder → DbBuilder
  pub retention_days : ℕ → Retention
  pub retention_none : Retention
  pub max_disk_bytes : ℕ → Retention → Retention
  pub retention : Retention → DbBuilder → DbBuilder
  pub refresh : Refresh → DbBuilder → DbBuilder
  pub maintenance_background : ℕ → DbBuilder → DbBuilder
  pub promote : List Text → DbBuilder → DbBuilder
  -- lifecycle; `drop_db` and `drop_handle` are what `drop` does to an `Arc<Db>` alone, and to one
  -- with its runtime
  pub open_db : DbBuilder → Async State Error Db
  pub new_current_thread : Async State Text Runtime
  pub close : Db → Async State Error (Unit {0})
  pub drop_db : Db → State → State
  pub drop_handle : Db → Runtime → State → State
  -- ingest, SQL and operations
  pub ingest_otlp_logs : Db → List ℕ → Async State Error IngestReceipt
  pub ingest_otlp_traces : Db → List ℕ → Async State Error IngestReceipt
  pub ingest_otlp_metrics : Db → List ℕ → Async State Error IngestReceipt
  pub flush : Db → Async State Error (Unit {0})
  pub maintain : Db → Async State Error MaintenanceReport
  pub compact : Db → Async State Error CompactionReport
  pub stats : Db → Async State Error DbStats
  pub snapshot : Db → Text → Async State Error SnapshotInfo
  pub durable_through : Db → Async State ⊥ (Option ℕ)
  pub segments : Db → Async State ⊥ (List SegmentRef)
  pub PathBuf : Type 0
  pub to_string_lossy : PathBuf → Text
  pub segment_files : Db → Table → Async State ⊥ (List PathBuf)
  pub time_range_all : TimeRange
  pub time_range_between : ℤ → ℤ → TimeRange
  pub export : Db → Table → TimeRange → Async State Error (List ℕ)
  -- arrow
  pub Schema : Type 0
  pub RecordBatch : Type 0
  pub Stream : Type 0
  pub schema_new : List Field → Schema
  pub schema_empty : Schema
  pub batch_schema : RecordBatch → Schema
  pub try_new : Schema → List (Column F64) → Reply Text RecordBatch
  pub stream_new : Schema → List RecordBatch → Stream
  pub Writer : Type 0
  pub writer_try_new : Schema → Reply Text Writer
  pub writer_write : RecordBatch → Writer → Reply Text Writer
  pub writer_finish : Writer → Reply Text (List ℕ)
  pub sql_collect : Db → Text → Async State Error (Schema × List RecordBatch)
  -- typed queries: the validated conversions, then the runs
  pub LogQuery : Type 0
  pub MetricQuery : Type 0
  pub SpanMetricsQuery : Type 0
  pub TraceQuery : Type 0
  pub log_try_from : Proto.LogQuery F64 → Reply Error LogQuery
  pub metric_try_from : Proto.MetricQuery → Reply Error MetricQuery
  pub span_metrics_try_from : Proto.SpanMetricsQuery → Reply Error SpanMetricsQuery
  pub trace_try_from : Proto.TraceQuery F64 → Reply Error TraceQuery
  pub logs_query_batches : Db → LogQuery → Async State Error (List RecordBatch)
  pub logs_query_batches_with_stats :
      Db → LogQuery → Async State Error (List RecordBatch × QueryStats)
  pub metrics_range_batches : Db → MetricQuery → Async State Error (List RecordBatch × QueryStats)
  pub traces_span_metrics_batches :
      Db → SpanMetricsQuery → Async State Error (List RecordBatch × QueryStats)
  pub metrics_instant : Db → MetricQuery → Async State Error (List (InstantSample F64))
  pub logs_volume_by : Db → LogQuery → ℕ → List Text → Async State Error (List VolumeBucket)
  pub logs_count : Db → LogQuery → Async State Error ℕ
  pub TraceId : Type 0
  pub SpanId : Type 0
  pub trace_to_hex : TraceId → Text
  pub span_to_hex : SpanId → Text
  pub traces_search : Db → TraceQuery → Async State Error (List (TraceSummary TraceId))
  pub MetricPointsQuery : Type 0
  pub points_gauge : Text → MetricPointsQuery
  pub points_sum : Text → MetricPointsQuery
  pub points_histogram : Text → MetricPointsQuery
  pub points_filter : Text → Text → MetricPointsQuery → MetricPointsQuery
  pub points_range : TimeRange → MetricPointsQuery → MetricPointsQuery
  pub points_limit : ℕ → MetricPointsQuery → MetricPointsQuery
  pub metrics_points_batches : Db → MetricPointsQuery → Async State Error (List RecordBatch)
  -- discovery
  pub AnyValue : Type 0
  pub any_str : Text → AnyValue
  pub canonical_json_object : List (Text × AnyValue) → Text
  pub attrs_names : Db → Async State Error (List Text)
  pub attrs_values : Db → Text → Async State Error (List Text)
  pub metrics_catalog : Db → Async State Error (List MetricMeta)
  pub metrics_series : Db → Text → Async State Error (List (List (Text × AnyValue)))
  pub metrics_exemplars : Db → Text → Async State Error (List (Exemplar F64 TraceId SpanId))
