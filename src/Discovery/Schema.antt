-- ===== src/Discovery/Schema.antt =====
-- The batches of src/discovery.rs meet what arrow's `RecordBatch::try_new` asks for, and hold the
-- values of their rows.
use mathlib.Core.Path.{subst}
use imbh_c.Common.{
  ℕ, Text, Bool, true, false, not, ◌||◌, Option, none, some, List, [], ◌∷◌, ◌++◌, map, ◌≡◌, refl,
  ◌∙◌, ap, sym, length, length-map, append-one, append-nil,
}
use imbh_c.Common.Int.{as_i64}
use imbh_c.Engine.{Engine}
use imbh_c.Types.Imbh.{SegmentRef, TraceSummary}
use imbh_c.Types.Arrow.{
  DataType, utf8, int64, float64, boolean, Field, Column, string_array, int64_array, float64_array,
  boolean_array,
}
use imbh_c.Discovery.Batches.{
  strings, SegmentColumns, push_segments, segments_fields, segments_columns, TraceColumns,
  push_summaries, trace_summary_fields, trace_summary_columns,
}

abbrev pub type_of : {F : Type 0} → Column F → DataType
type_of (string_array _) = utf8
type_of (int64_array _) = int64
type_of (float64_array _) = float64
type_of (boolean_array _) = boolean

abbrev pub rows_of : {F : Type 0} → Column F → ℕ
rows_of (string_array xs) = length xs
rows_of (int64_array xs) = length xs
rows_of (float64_array xs) = length xs
rows_of (boolean_array xs) = length xs

abbrev pub any_none : {A : Type 0} → List (Option A) → Bool
any_none [] = false
any_none (none ∷ xs) = true
any_none (some _ ∷ xs) = any_none xs

abbrev pub has_null : {F : Type 0} → Column F → Bool
has_null (string_array xs) = any_none xs
has_null _ = false

-- One column for each field, of the field's type, with `n` rows, and with a null only where the
-- field allows one.
abbrev pub Fits : {F : Type 0} → ℕ → List Field → List (Column F) → Type 0
Fits n [] [] = Unit {0}
Fits n (f ∷ fields) (c ∷ columns) =
    (type_of c ≡ f.data_type)
    × (rows_of c ≡ n)
    × ((f.nullable || not (has_null c)) ≡ true)
    × Fits n fields columns
Fits n _ _ = ⊥

any_none-some : {A : Type 0} (xs : List A) → any_none (map some xs) ≡ false
any_none-some [] = refl
any_none-some (x ∷ xs) = any_none-some xs

module _ {A : Type 0} (xs : List A) where
  length-strings : (g : A → Text) → length (map some (map g xs)) ≡ length xs
  length-strings g = length-map (map g xs) some ∙ length-map xs g

  no_null : (g : A → Text) → not (any_none (map some (map g xs))) ≡ true
  no_null g = ap not (any_none-some (map g xs))

module _ ⦃eng : Engine⦄ where
  push_segments_lem :
      (xs : List SegmentRef) (c : SegmentColumns)
      → push_segments c xs ≡ (record {
        paths = c.paths ++ map (λ (s : SegmentRef). s.relative_path) xs;
        mins = c.mins ++ map (λ (s : SegmentRef). s.min_time_unix_nano) xs;
        maxs = c.maxs ++ map (λ (s : SegmentRef). s.max_time_unix_nano) xs;
        rows = c.rows ++ map (λ (s : SegmentRef). as_i64 s.rows) xs;
      })
  unfolding push_segments
  push_segments_lem [] c = λ i. record {
    paths = sym (append-nil c.paths) i;
    mins = sym (append-nil c.mins) i;
    maxs = sym (append-nil c.maxs) i;
    rows = sym (append-nil c.rows) i;
  }
  push_segments_lem (x ∷ xs) c =
      push_segments_lem xs (record {
        paths = c.paths ++ (x.relative_path ∷ []);
        mins = c.mins ++ (x.min_time_unix_nano ∷ []);
        maxs = c.maxs ++ (x.max_time_unix_nano ∷ []);
        rows = c.rows ++ (as_i64 x.rows ∷ []);
      })
      ∙ λ i. record {
        paths =
            append-one c.paths (x.relative_path) (map (λ (s : SegmentRef). s.relative_path) xs) i;
        mins =
            append-one c.mins (x.min_time_unix_nano)
              (map (λ (s : SegmentRef). s.min_time_unix_nano) xs) i;
        maxs =
            append-one c.maxs (x.max_time_unix_nano)
              (map (λ (s : SegmentRef). s.max_time_unix_nano) xs) i;
        rows = append-one c.rows (as_i64 x.rows) (map (λ (s : SegmentRef). as_i64 s.rows) xs) i;
      }

  -- The segment batch has a row for each segment, in order, with its path, its time bounds and its
  -- row count, and its columns fit the schema that they are built with.
  pub segments_columns-Fits :
      (xs : List SegmentRef)
      → (segments_columns xs
          ≡ strings (map (λ (s : SegmentRef). s.relative_path) xs)
            ∷ int64_array (map (λ (s : SegmentRef). s.min_time_unix_nano) xs)
            ∷ int64_array (map (λ (s : SegmentRef). s.max_time_unix_nano) xs)
            ∷ int64_array (map (λ (s : SegmentRef). as_i64 s.rows) xs)
            ∷ [])
        × Fits (length xs) segments_fields (segments_columns xs)
  unfolding segments_columns
  segments_columns-Fits xs =
      let e =
        ap
          (λ (c : SegmentColumns).
            strings c.paths ∷ int64_array c.mins ∷ int64_array c.maxs ∷ int64_array c.rows ∷ [])
          (push_segments_lem xs (record { paths = []; mins = []; maxs = []; rows = [] })) in
      (
        e,
        subst (Fits (length xs) segments_fields) (sym e) (
          refl,
          length-strings xs _,
          no_null xs _,
          (
            refl,
            length-map xs _,
            refl,
            (refl, length-map xs _, refl, (refl, length-map xs _, refl, tt)),
          ),
        ),
      )

  push_summaries_lem :
      (xs : List (TraceSummary eng.TraceId)) (c : TraceColumns)
      → push_summaries c xs ≡ (record {
        trace_ids =
            c.trace_ids ++ map (λ (s : TraceSummary eng.TraceId). eng.trace_to_hex s.trace_id) xs;
        root_services =
            c.root_services ++ map (λ (s : TraceSummary eng.TraceId). s.root_service) xs;
        root_names = c.root_names ++ map (λ (s : TraceSummary eng.TraceId). s.root_name) xs;
        start_times = c.start_times ++ map (λ (s : TraceSummary eng.TraceId). s.start_time) xs;
        durations = c.durations ++ map (λ (s : TraceSummary eng.TraceId). as_i64 s.duration_ns) xs;
        span_counts =
            c.span_counts ++ map (λ (s : TraceSummary eng.TraceId). as_i64 s.span_count) xs;
        errors = c.errors ++ map (λ (s : TraceSummary eng.TraceId). s.error) xs;
      })
  unfolding push_summaries
  push_summaries_lem [] c = λ i. record {
    trace_ids = sym (append-nil c.trace_ids) i;
    root_services = sym (append-nil c.root_services) i;
    root_names = sym (append-nil c.root_names) i;
    start_times = sym (append-nil c.start_times) i;
    durations = sym (append-nil c.durations) i;
    span_counts = sym (append-nil c.span_counts) i;
    errors = sym (append-nil c.errors) i;
  }
  push_summaries_lem (x ∷ xs) c =
      push_summaries_lem xs (record {
        trace_ids = c.trace_ids ++ (eng.trace_to_hex x.trace_id ∷ []);
        root_services = c.root_services ++ (x.root_service ∷ []);
        root_names = c.root_names ++ (x.root_name ∷ []);
        start_times = c.start_times ++ (x.start_time ∷ []);
        durations = c.durations ++ (as_i64 x.duration_ns ∷ []);
        span_counts = c.span_counts ++ (as_i64 x.span_count ∷ []);
        errors = c.errors ++ (x.error ∷ []);
      })
      ∙ λ i. record {
        trace_ids =
            append-one c.trace_ids (eng.trace_to_hex x.trace_id)
              (map (λ (s : TraceSummary eng.TraceId). eng.trace_to_hex s.trace_id) xs) i;
        root_services =
            append-one c.root_services (x.root_service)
              (map (λ (s : TraceSummary eng.TraceId). s.root_service) xs) i;
        root_names =
            append-one c.root_names (x.root_name)
              (map (λ (s : TraceSummary eng.TraceId). s.root_name) xs) i;
        start_times =
            append-one c.start_times (x.start_time)
              (map (λ (s : TraceSummary eng.TraceId). s.start_time) xs) i;
        durations =
            append-one c.durations (as_i64 x.duration_ns)
              (map (λ (s : TraceSummary eng.TraceId). as_i64 s.duration_ns) xs) i;
        span_counts =
            append-one c.span_counts (as_i64 x.span_count)
              (map (λ (s : TraceSummary eng.TraceId). as_i64 s.span_count) xs) i;
        errors =
            append-one c.errors (x.error) (map (λ (s : TraceSummary eng.TraceId). s.error) xs) i;
      }

  -- The trace batch has a row for each summary, in order, with the columns of the summary's fields,
  -- and its columns fit the schema that they are built with: nulls stand only for an absent root
  -- service or root name.
  pub trace_summary_columns-Fits :
      (xs : List (TraceSummary eng.TraceId))
      → (trace_summary_columns xs
          ≡ strings (map (λ (s : TraceSummary eng.TraceId). eng.trace_to_hex s.trace_id) xs)
            ∷ string_array (map (λ (s : TraceSummary eng.TraceId). s.root_service) xs)
            ∷ string_array (map (λ (s : TraceSummary eng.TraceId). s.root_name) xs)
            ∷ int64_array (map (λ (s : TraceSummary eng.TraceId). s.start_time) xs)
            ∷ int64_array (map (λ (s : TraceSummary eng.TraceId). as_i64 s.duration_ns) xs)
            ∷ int64_array (map (λ (s : TraceSummary eng.TraceId). as_i64 s.span_count) xs)
            ∷ boolean_array (map (λ (s : TraceSummary eng.TraceId). s.error) xs)
            ∷ [])
        × Fits (length xs) trace_summary_fields (trace_summary_columns xs)
  unfolding trace_summary_columns
  trace_summary_columns-Fits xs =
      let e =
        ap
          (λ (c : TraceColumns).
            strings c.trace_ids
            ∷ string_array c.root_services
            ∷ string_array c.root_names
            ∷ int64_array c.start_times
            ∷ int64_array c.durations
            ∷ int64_array c.span_counts
            ∷ boolean_array c.errors
            ∷ [])
          (push_summaries_lem xs (record {
            trace_ids = [];
            root_services = [];
            root_names = [];
            start_times = [];
            durations = [];
            span_counts = [];
            errors = [];
          })) in
      (
        e,
        subst (Fits (length xs) trace_summary_fields) (sym e) (
          refl,
          length-strings xs _,
          no_null xs _,
          (
            refl,
            length-map xs _,
            refl,
            (
              refl,
              length-map xs _,
              refl,
              (
                refl,
                length-map xs _,
                refl,
                (
                  refl,
                  length-map xs _,
                  refl,
                  (refl, length-map xs _, refl, (refl, length-map xs _, refl, tt)),
                ),
              ),
            ),
          ),
        ),
      )
