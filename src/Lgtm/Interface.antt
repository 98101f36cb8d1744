-- ===== src/Lgtm/Interface.antt =====
-- The crate `imbh-lgtm`, which is not in the repository, by the calls of src/lgtm.rs. An error is
-- the text that the binding puts into its message.
use imbh_c.Common.{ℕ, Text, Option, List}
use imbh_c.Common.Int.{ℤ}
use imbh_c.Engine.{Engine}
use imbh_c.Types.Imbh.{Reply, Async}

pub data MetricKind : Type 0 where
  cumulative_counter cumulative_histogram gauge : MetricKind

pub record MetricResolution : Type 0 where
  pub query_name : Text
  pub storage_name : Text
  pub kind : MetricKind

pub record TranslateContext : Type 0 where
  pub metrics : List MetricResolution

pub record EvalRange : Type 0 where
  pub start_ns : ℤ
  pub end_ns : ℤ
  pub step_ns : ℕ
  pub lookback_ns : ℕ

-- The variants of `ImbhQueryModel` that the binding names, and any other.
pub data QueryModel (Prom Log LogFilter Trace : Type 0) : Type 0 where
  prom : Prom → QueryModel Prom Log LogFilter Trace
  log : Log → QueryModel Prom Log LogFilter Trace
  log_selector : LogFilter → QueryModel Prom Log LogFilter Trace
  trace : Trace → QueryModel Prom Log LogFilter Trace
  other : QueryModel Prom Log LogFilter Trace

pub record LogFetchRequest (Bounds LogFilter : Type 0) : Type 0 where
  pub bounds : Bounds
  pub filter : LogFilter
  pub max_entries : ℕ

pub record Lgtm ⦃eng : Engine⦄ : Type 1 where
  pub Prom : Type 0
  pub Log : Type 0
  pub LogFilter : Type 0
  pub Trace : Type 0
  pub Bounds : Type 0
  pub LogStreamSchema : Type 0
  pub context_default : TranslateContext
  pub translate_promql : Text → TranslateContext → Reply Text (QueryModel Prom Log LogFilter Trace)
  pub translate_logql : Text → TranslateContext → Reply Text (QueryModel Prom Log LogFilter Trace)
  pub translate_traceql : Text → TranslateContext → Reply Text (QueryModel Prom Log LogFilter Trace)
  pub execute_promql_batches : eng.Db → Prom → EvalRange → Async eng.State Text eng.RecordBatch
  pub service_only : LogStreamSchema
  pub fetch_bounds_new : ℤ → ℤ → Reply Text Bounds
  pub build_log_query : LogFetchRequest Bounds LogFilter → LogStreamSchema → Reply Text eng.LogQuery
  pub execute_logql_batches :
      eng.Db → Log → EvalRange → LogStreamSchema → Async eng.State Text eng.RecordBatch
  pub execute_traceql_batches : eng.Db → Trace → Bounds → Async eng.State Text eng.RecordBatch
  pub trace_from_hex : Text → Option eng.TraceId
  pub get_batches : eng.Db → eng.TraceId → Async eng.State eng.Error (List eng.RecordBatch)
  -- `{:?}` of a string
  pub debug_str : Text → Text
