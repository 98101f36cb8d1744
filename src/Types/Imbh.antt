-- ===== src/Types/Imbh.antt =====
-- Types of the `imbh` crate, by the fields and variants that the binding reads or builds.
use imbh_c.Common.{ℕ, Text, Bool, Option, List}
use imbh_c.Common.Int.{ℤ}

-- What `panic_message` can tell of a panic's payload: a `&str`, a `String`, or neither.
pub data Payload : Type 0 where
  str_ref string : Text → Payload
  opaque : Payload

-- How a call of the engine ends: a value, an error, or a panic that unwinds.
pub data Reply (E A : Type 0) : Type 0 where
  done : A → Reply E A
  failed : E → Reply E A
  unwound : Payload → Reply E A

-- An engine call reads and changes the engine's state `S`.
abbrev pub Async : Type 0 → Type 0 → Type 0 → Type 0
Async S E A = S → Reply E A × S

-- The variants of `imbh::Error`; it is non-exhaustive, so there may be others.
pub data Category : Type 0 where
  opening ingest query storage config closed other : Category

pub data Table : Type 0 where
  logs spans metrics_gauge metrics_sum metrics_histogram : Table
  metrics_exp_histogram metrics_summary : Table

-- Durations are in milliseconds here.
pub data WalMode : Type 0 where
  off always : WalMode
  interval : ℕ → WalMode

pub data Compression : Type 0 where
  none lz4 : Compression
  zstd : ℤ → Compression

pub data Refresh : Type 0 where
  on_query manual : Refresh
  ttl : ℕ → Refresh

pub record TimeRange : Type 0 where
  pub start : ℤ
  pub end : ℤ

-- `lsn` is an `Option<NonZero<u64>>`.
pub record IngestReceipt : Type 0 where
  pub accepted : ℕ
  pub rejected : ℕ
  pub lsn : Option ℕ
  pub durable : Bool
  pub is_queued : Bool

pub record TableStats : Type 0 where
  pub table : Table
  pub segment_count : ℕ
  pub segment_rows : ℕ
  pub buffer_rows : ℕ
  pub min_time_unix_nano : Option ℤ
  pub max_time_unix_nano : Option ℤ

pub record DbStats : Type 0 where
  pub buffer_bytes : ℕ
  pub wal_bytes : ℕ
  pub durable_lsn : Option ℕ
  pub ingest_queue_depth : ℕ
  pub ingest_dropped : ℕ
  pub ingest_errors : ℕ
  pub tables : List TableStats

pub record MaintenanceReport : Type 0 where
  pub sealed : Bool
  pub segments_dropped : ℕ
  pub bytes_freed : ℕ

pub record CompactionReport : Type 0 where
  pub segments_merged : ℕ
  pub segments_created : ℕ

pub record SnapshotInfo : Type 0 where
  pub segments : ℕ

pub record QueryStats : Type 0 where
  pub segments_scanned : ℕ
  pub segments_pruned : ℕ
  pub rows_scanned : ℕ
  pub rows_returned : ℕ
  pub bytes_scanned : ℕ
  pub elapsed : ℕ
  pub used_index : Bool

pub record SegmentRef : Type 0 where
  pub relative_path : Text
  pub min_time_unix_nano : ℤ
  pub max_time_unix_nano : ℤ
  pub rows : ℕ

pub record MetricMeta : Type 0 where
  pub metric : Text
  pub unit : Text
  pub temporality : Option Text
  pub kind : Text

pub record TraceSummary (TraceId : Type 0) : Type 0 where
  pub trace_id : TraceId
  pub root_service : Option Text
  pub root_name : Option Text
  pub start_time : ℤ
  pub duration_ns : ℕ
  pub span_count : ℕ
  pub error : Bool

pub record Exemplar (F TraceId SpanId : Type 0) : Type 0 where
  pub time : ℤ
  pub value : F
  pub trace_id : Option TraceId
  pub span_id : Option SpanId
  pub attributes : Text

-- One series of an instant vector, with its last sample.
pub record InstantSample (F : Type 0) : Type 0 where
  pub labels : List (Text × Text)
  pub time : ℤ
  pub value : F

pub record VolumeBucket : Type 0 where
  pub time : ℤ
  pub labels : List (Text × Text)
  pub count : ℕ
