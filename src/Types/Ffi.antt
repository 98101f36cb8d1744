-- ===== src/Types/Ffi.antt =====
-- The `#[repr(C)]` enums and structs of src/lib.rs and src/query.rs. A pointer is a number, and
-- 0 is NULL.
use imbh_c.Common.{ℕ, Text, Bool, Option, List}
use imbh_c.Common.Int.{ℤ}

abbrev pub Ptr : Type 0
Ptr = ℕ

abbrev pub null : Ptr
null = 0

-- `imbh_wal_mode`
pub data ImbhWalMode : Type 0 where
  off interval always : ImbhWalMode

-- `imbh_compression`
pub data ImbhCompression : Type 0 where
  none lz4 zstd : ImbhCompression

-- `imbh_table`
pub data ImbhTable : Type 0 where
  logs spans metrics_gauge metrics_sum metrics_histogram : ImbhTable
  metrics_exp_histogram metrics_summary : ImbhTable

-- `imbh_refresh_mode`
pub data ImbhRefreshMode : Type 0 where
  default on_query manual ttl : ImbhRefreshMode

-- `imbh_open_options`
pub record ImbhOpenOptions : Type 0 where
  pub wal_mode : ImbhWalMode
  pub wal_interval_ms : ℕ
  pub compression : ImbhCompression
  pub zstd_level : ℤ
  pub read_only : Bool
  pub allow_stale_reads : Bool
  pub memory_budget_bytes : ℕ
  pub retention_days : ℕ
  pub max_disk_bytes : ℕ
  pub refresh : ImbhRefreshMode
  pub refresh_ttl_ms : ℕ
  pub maintenance_background_ms : ℕ
  pub promote_keys : Ptr
  pub promote_keys_len : ℕ

-- `imbh_ingest_receipt`
pub record ImbhIngestReceipt : Type 0 where
  pub accepted : ℕ
  pub rejected : ℕ
  pub lsn : ℕ
  pub durable : Bool
  pub queued : Bool

-- `imbh_stats`
pub record ImbhStats : Type 0 where
  pub buffer_bytes : ℕ
  pub wal_bytes : ℕ
  pub durable_lsn : ℕ
  pub ingest_queue_depth : ℕ
  pub ingest_dropped : ℕ
  pub ingest_errors : ℕ
  pub total_segment_count : ℕ
  pub total_segment_rows : ℕ
  pub total_buffer_rows : ℕ

-- `imbh_table_stats`
pub record ImbhTableStats : Type 0 where
  pub table : ImbhTable
  pub segment_count : ℕ
  pub segment_rows : ℕ
  pub buffer_rows : ℕ
  pub min_time_unix_nano : ℤ
  pub max_time_unix_nano : ℤ
  pub has_time_bounds : Bool

-- `imbh_maintenance_report`
pub record ImbhMaintenanceReport : Type 0 where
  pub sealed : Bool
  pub segments_dropped : ℕ
  pub bytes_freed : ℕ

-- `imbh_compaction_report`
pub record ImbhCompactionReport : Type 0 where
  pub segments_merged : ℕ
  pub segments_created : ℕ

-- `imbh_snapshot_info`
pub record ImbhSnapshotInfo : Type 0 where
  pub segments : ℕ

-- `imbh_bytes`; `data` of the source is `bytes` here.
pub record ImbhBytes : Type 0 where
  pub bytes : Ptr
  pub len : ℕ

-- `imbh_query_stats`
pub record ImbhQueryStats : Type 0 where
  pub segments_scanned : ℕ
  pub segments_pruned : ℕ
  pub rows_scanned : ℕ
  pub rows_returned : ℕ
  pub bytes_scanned : ℕ
  pub elapsed_ns : ℕ
  pub used_index : Bool

-- `imbh_direction`
pub data ImbhDirection : Type 0 where
  backward forward : ImbhDirection

-- `imbh_num_op`
pub data ImbhNumOp : Type 0 where
  gt ge lt le : ImbhNumOp

-- `imbh_label_op`
pub data ImbhLabelOp : Type 0 where
  eq ne regex not_regex : ImbhLabelOp

-- `imbh_aggregation`
pub data ImbhAggregation : Type 0 where
  sum avg min max count : ImbhAggregation

-- `imbh_rate_mode`
pub data ImbhRateMode : Type 0 where
  off delta counter : ImbhRateMode

-- `imbh_metric_table`
pub data ImbhMetricTable : Type 0 where
  gauge sum : ImbhMetricTable

-- `imbh_metric_point_kind`
pub data ImbhMetricPointKind : Type 0 where
  gauge sum histogram : ImbhMetricPointKind

-- `imbh_metric_points_query`
pub record ImbhMetricPointsQuery : Type 0 where
  pub kind : ImbhMetricPointKind
  pub metric : Text
  pub filters : List (Text × Text)
  pub range : Option (ℤ × ℤ)
  pub limit : ℕ
