-- ===== src/Query/Run.antt =====
-- The entry points of src/query.rs that run a typed query and export its batches.
use imbh_c.Common.{ℕ, Text, Option, none, some, List, [], ◌∷◌, ◌++◌, ltb, ◌==◌, if◌then◌else◌}
use imbh_c.Common.Int.{ℤ, as_i64}
use imbh_c.Engine.{Engine}
use imbh_c.Types.Imbh.{QueryStats, InstantSample, VolumeBucket}
use imbh_c.Types.Ffi.{Ptr, ImbhQueryStats, ImbhMetricPointKind, ImbhMetricPointsQuery}
use imbh_c.Memory.{
  CallError, Action, ◌>>=◌, ◌>>◌, reject_if, compute, block_on, store, store_if, stream_out,
  query_stats_out, log_view, metric_view, span_metrics_view, trace_view, points_view,
}
use imbh_c.Error.{Extern, ImbhError, guard}
use imbh_c.Pointers.{invalid, handle, builder_ref, read_str_array}
use imbh_c.Arrow.{export_batches_infer}
use imbh_c.Discovery.Batches.{labels_to_json, series_batch, volume_batch, trace_summary_batch}

abbrev pub query_stats_of : QueryStats → ImbhQueryStats
query_stats_of s = record {
  segments_scanned = s.segments_scanned;
  segments_pruned = s.segments_pruned;
  rows_scanned = s.rows_scanned;
  rows_returned = s.rows_returned;
  bytes_scanned = s.bytes_scanned;
  elapsed_ns = s.elapsed;
  used_index = s.used_index;
}

module _ ⦃eng : Engine⦄ where
  unfoldable pub write_query_stats : {E : Type 0} → Ptr → QueryStats → Action E (Unit {0})
  unfolding store_if
  write_query_stats out s = store_if query_stats_out out (query_stats_of s)

  unfoldable pub imbh_db_logs_query : Ptr → Ptr → Ptr → Ptr → Extern ImbhError
  imbh_db_logs_query db query out stats = guard do
    h ← handle db
    q ← builder_ref log_view "null imbh_log_query" query
    reject_if (out == 0) (invalid "null out stream pointer")
    built ← compute CallError.imbh (eng.log_try_from q)
    run ← block_on CallError.imbh (eng.logs_query_batches_with_stats h.db built)
    write_query_stats stats run.1
    store stream_out out (some (export_batches_infer run.0))

  unfoldable pub imbh_db_metrics_range : Ptr → Ptr → Ptr → Ptr → Extern ImbhError
  imbh_db_metrics_range db query out stats = guard do
    h ← handle db
    q ← builder_ref metric_view "null imbh_metric_query" query
    reject_if (out == 0) (invalid "null out stream pointer")
    built ← compute CallError.imbh (eng.metric_try_from q)
    run ← block_on CallError.imbh (eng.metrics_range_batches h.db built)
    write_query_stats stats run.1
    store stream_out out (some (export_batches_infer run.0))

  unfoldable pub imbh_db_traces_span_metrics : Ptr → Ptr → Ptr → Ptr → Extern ImbhError
  imbh_db_traces_span_metrics db query out stats = guard do
    h ← handle db
    q ← builder_ref span_metrics_view "null imbh_span_metrics_query" query
    reject_if (out == 0) (invalid "null out stream pointer")
    built ← compute CallError.imbh (eng.span_metrics_try_from q)
    run ← block_on CallError.imbh (eng.traces_span_metrics_batches h.db built)
    write_query_stats stats run.1
    store stream_out out (some (export_batches_infer run.0))

  -- The vectors of `imbh_db_metrics_instant`.
  pub record SeriesColumns : Type 0 where
    pub labels : List Text
    pub ts : List ℤ
    pub vals : List eng.F64

  unfoldable pub push_samples : SeriesColumns → List (InstantSample eng.F64) → SeriesColumns
  unfolding labels_to_json
  push_samples c [] = c
  push_samples c (s ∷ vector) =
      push_samples
        (record {
          labels = c.labels ++ (labels_to_json s.labels ∷ []);
          ts = c.ts ++ (s.time ∷ []);
          vals = c.vals ++ (s.value ∷ []);
        })
        vector

  unfoldable pub imbh_db_metrics_instant : Ptr → Ptr → Ptr → Extern ImbhError
  imbh_db_metrics_instant db query out = guard do
    h ← handle db
    q ← builder_ref metric_view "null imbh_metric_query" query
    reject_if (out == 0) (invalid "null out stream pointer")
    built ← compute CallError.imbh (eng.metric_try_from q)
    vector ← block_on CallError.imbh (eng.metrics_instant h.db built)
    let c = push_samples (record { labels = []; ts = []; vals = [] }) vector
    batch ← series_batch c.labels c.ts c.vals
    store stream_out out (some (export_batches_infer (batch ∷ [])))

  -- The vectors of `imbh_db_logs_volume`.
  pub record VolumeColumns : Type 0 where
    pub times : List ℤ
    pub labels : List Text
    pub counts : List ℤ

  unfoldable pub push_buckets : VolumeColumns → List VolumeBucket → VolumeColumns
  unfolding labels_to_json
  push_buckets c [] = c
  push_buckets c (b ∷ buckets) =
      push_buckets
        (record {
          times = c.times ++ (b.time ∷ []);
          labels = c.labels ++ (labels_to_json b.labels ∷ []);
          counts = c.counts ++ (as_i64 b.count ∷ []);
        })
        buckets

  unfoldable pub imbh_db_logs_volume : Ptr → Ptr → ℕ → Ptr → ℕ → Ptr → Extern ImbhError
  imbh_db_logs_volume db query step_nanos group_by group_by_len out = guard do
    h ← handle db
    q ← builder_ref log_view "null imbh_log_query" query
    reject_if (out == 0) (invalid "null out stream pointer")
    built ← compute CallError.imbh (eng.log_try_from q)
    group_refs ← read_str_array group_by group_by_len
    let step = if ltb step_nanos 1 then 1 else step_nanos
    buckets ← block_on CallError.imbh (eng.logs_volume_by h.db built step group_refs)
    let c = push_buckets (record { times = []; labels = []; counts = [] }) buckets
    batch ← volume_batch c.times c.labels c.counts
    store stream_out out (some (export_batches_infer (batch ∷ [])))

  unfoldable pub imbh_db_traces_search : Ptr → Ptr → Ptr → Extern ImbhError
  imbh_db_traces_search db query out = guard do
    h ← handle db
    q ← builder_ref trace_view "null imbh_trace_query" query
    reject_if (out == 0) (invalid "null out stream pointer")
    built ← compute CallError.imbh (eng.trace_try_from q)
    summaries ← block_on CallError.imbh (eng.traces_search h.db built)
    batch ← trace_summary_batch summaries
    store stream_out out (some (export_batches_infer (batch ∷ [])))

  -- `match q.kind { … }`
  unfoldable pub points_query : ImbhMetricPointKind → Text → eng.MetricPointsQuery
  points_query ImbhMetricPointKind.gauge metric = eng.points_gauge metric
  points_query ImbhMetricPointKind.sum metric = eng.points_sum metric
  points_query ImbhMetricPointKind.histogram metric = eng.points_histogram metric

  -- `for (k, v) in &q.filters { built = built.filter(k, v); }`
  unfoldable pub add_filters : eng.MetricPointsQuery → List (Text × Text) → eng.MetricPointsQuery
  add_filters built [] = built
  add_filters built ((k, v) ∷ filters) = add_filters (eng.points_filter k v built) filters

  unfoldable pub with_range : Option (ℤ × ℤ) → eng.MetricPointsQuery → eng.MetricPointsQuery
  with_range none built = built
  with_range (some (start, end)) built =
      eng.points_range (record { start = start; end = end }) built

  unfoldable pub build_points : ImbhMetricPointsQuery → eng.MetricPointsQuery
  unfolding points_query add_filters with_range
  build_points q =
      let built = with_range q.range (add_filters (points_query q.kind q.metric) q.filters) in
      if ltb 0 q.limit then eng.points_limit q.limit built else built

  unfoldable pub imbh_db_metrics_points : Ptr → Ptr → Ptr → Extern ImbhError
  imbh_db_metrics_points db query out = guard do
    h ← handle db
    q ← builder_ref points_view "null imbh_metric_points_query" query
    reject_if (out == 0) (invalid "null out stream pointer")
    batches ← block_on CallError.imbh (eng.metrics_points_batches h.db (build_points q))
    store stream_out out (some (export_batches_infer batches))
