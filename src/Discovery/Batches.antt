-- ===== src/Discovery/Batches.antt =====
-- The batch builders of src/discovery.rs. Each loop pushes one value per row to every column.
use imbh_c.Common.{Text, Bool, true, false, Option, some, List, [], ◌∷◌, ◌++◌, map, codes, String}
use imbh_c.Common.Int.{ℤ, as_i64}
use imbh_c.Engine.{Engine}
use imbh_c.Types.Imbh.{SegmentRef, TraceSummary}
use imbh_c.Types.Arrow.{
  DataType, utf8, int64, float64, boolean, Field, Column, string_array, int64_array, float64_array,
  boolean_array,
}
use imbh_c.Memory.{CallError, Call, compute}

-- `Field::new(name, data_type, nullable)`
abbrev pub field : String → DataType → Bool → Field
field name t nullable = record { name = codes name; data_type = t; nullable = nullable }

-- `StringArray::from(Vec<String>)`, and from `Vec<Option<String>>`.
abbrev pub strings : {F : Type 0} → List Text → Column F
strings values = string_array (map some values)

module _ ⦃eng : Engine⦄ where
  unfoldable pub arrow_err : Text → CallError
  arrow_err e = CallError.query (codes "arrow: " ++ e)

  -- `RecordBatch::try_new(Arc::new(Schema::new(fields)), columns).map_err(arrow_err)`
  unfoldable pub record_batch : List Field → List (Column eng.F64) → Call eng.RecordBatch
  unfolding compute
  record_batch fields columns = compute arrow_err (eng.try_new (eng.schema_new fields) columns)

  unfoldable pub utf8_batch : Text → List Text → Call eng.RecordBatch
  unfolding record_batch
  utf8_batch col values =
      record_batch (record { name = col; data_type = utf8; nullable = false } ∷ [])
        (strings values ∷ [])

  unfoldable pub labels_to_json : List (Text × Text) → Text
  labels_to_json pairs =
      eng.canonical_json_object (map (λ (kv : Text × Text). (kv.0, eng.any_str kv.1)) pairs)

  abbrev pub series_fields : List Field
  series_fields =
      field "labels" utf8 false ∷ field "timestamp" int64 false ∷ field "value" float64 false ∷ []

  unfoldable pub series_batch : List Text → List ℤ → List eng.F64 → Call eng.RecordBatch
  unfolding record_batch
  series_batch labels ts vals =
      record_batch series_fields (strings labels ∷ int64_array ts ∷ float64_array vals ∷ [])

  abbrev pub volume_fields : List Field
  volume_fields =
      field "bucket_time" int64 false ∷ field "labels" utf8 false ∷ field "count" int64 false ∷ []

  unfoldable pub volume_batch : List ℤ → List Text → List ℤ → Call eng.RecordBatch
  unfolding record_batch
  volume_batch times labels counts =
      record_batch volume_fields (int64_array times ∷ strings labels ∷ int64_array counts ∷ [])

  -- The vectors of `trace_summary_batch`.
  pub record TraceColumns : Type 0 where
    pub trace_ids : List Text
    pub root_services : List (Option Text)
    pub root_names : List (Option Text)
    pub start_times : List ℤ
    pub durations : List ℤ
    pub span_counts : List ℤ
    pub errors : List Bool

  unfoldable pub push_summaries : TraceColumns → List (TraceSummary eng.TraceId) → TraceColumns
  push_summaries c [] = c
  push_summaries c (s ∷ summaries) =
      push_summaries
        (record {
          trace_ids = c.trace_ids ++ (eng.trace_to_hex s.trace_id ∷ []);
          root_services = c.root_services ++ (s.root_service ∷ []);
          root_names = c.root_names ++ (s.root_name ∷ []);
          start_times = c.start_times ++ (s.start_time ∷ []);
          durations = c.durations ++ (as_i64 s.duration_ns ∷ []);
          span_counts = c.span_counts ++ (as_i64 s.span_count ∷ []);
          errors = c.errors ++ (s.error ∷ []);
        })
        summaries

  abbrev pub trace_summary_fields : List Field
  trace_summary_fields =
      field "trace_id" utf8 false
      ∷ field "root_service" utf8 true
      ∷ field "root_name" utf8 true
      ∷ field "start_time" int64 false
      ∷ field "duration_ns" int64 false
      ∷ field "span_count" int64 false
      ∷ field "error" boolean false
      ∷ []

  unfoldable pub trace_summary_columns : List (TraceSummary eng.TraceId) → List (Column eng.F64)
  unfolding push_summaries
  trace_summary_columns summaries =
      let c =
        push_summaries
          (record {
            trace_ids = [];
            root_services = [];
            root_names = [];
            start_times = [];
            durations = [];
            span_counts = [];
            errors = [];
          })
          summaries in
      strings c.trace_ids
      ∷ string_array c.root_services
      ∷ string_array c.root_names
      ∷ int64_array c.start_times
      ∷ int64_array c.durations
      ∷ int64_array c.span_counts
      ∷ boolean_array c.errors
      ∷ []

  unfoldable pub trace_summary_batch : List (TraceSummary eng.TraceId) → Call eng.RecordBatch
  unfolding record_batch trace_summary_columns
  trace_summary_batch summaries =
      record_batch trace_summary_fields (trace_summary_columns summaries)

  -- The vectors of `segments_batch`.
  pub record SegmentColumns : Type 0 where
    pub paths : List Text
    pub mins : List ℤ
    pub maxs : List ℤ
    pub rows : List ℤ

  unfoldable pub push_segments : SegmentColumns → List SegmentRef → SegmentColumns
  push_segments c [] = c
  push_segments c (s ∷ segments) =
      push_segments
        (record {
          paths = c.paths ++ (s.relative_path ∷ []);
          mins = c.mins ++ (s.min_time_unix_nano ∷ []);
          maxs = c.maxs ++ (s.max_time_unix_nano ∷ []);
          rows = c.rows ++ (as_i64 s.rows ∷ []);
        })
        segments

  abbrev pub segments_fields : List Field
  segments_fields =
      field "relative_path" utf8 false
      ∷ field "min_time_unix_nano" int64 false
      ∷ field "max_time_unix_nano" int64 false
      ∷ field "rows" int64 false
      ∷ []

  unfoldable pub segments_columns : List SegmentRef → List (Column eng.F64)
  unfolding push_segments
  segments_columns segments =
      let c = push_segments (record { paths = []; mins = []; maxs = []; rows = [] }) segments in
      strings c.paths ∷ int64_array c.mins ∷ int64_array c.maxs ∷ int64_array c.rows ∷ []

  unfoldable pub segments_batch : List SegmentRef → Call eng.RecordBatch
  unfolding record_batch segments_columns
  segments_batch segments = record_batch segments_fields (segments_columns segments)
