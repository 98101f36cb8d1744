-- ===== src/Lgtm/Queries.antt =====
-- The entry points of src/lgtm.rs.
use imbh_c.Common.{ℕ, Text, some, List, [], ◌∷◌, ◌++◌, codes, ◌==◌, if◌then◌else◌}
use imbh_c.Common.Int.{ℤ, as_u64, max_one, is_positive}
use imbh_c.Engine.{Engine}
use imbh_c.Types.Ffi.{Ptr}
use imbh_c.Memory.{
  CallError, Call, pure, throw, ◌>>=◌, ◌>>◌, reject_if, compute, block_on, store, stream_out,
}
use imbh_c.Error.{Extern, ImbhError, guard}
use imbh_c.Pointers.{invalid, handle, cstr, ok_or}
use imbh_c.Arrow.{export_batches_infer}
use imbh_c.Lgtm.Interface.{QueryModel, prom, log, log_selector, trace, other, EvalRange, Lgtm}
use imbh_c.Lgtm.Context.{promql_context}

-- `PROMQL_LOOKBACK_NS`
abbrev pub promql_lookback_ns : ℕ
promql_lookback_ns = 300_000_000_000

-- `LOGQL_DEFAULT_LIMIT`
abbrev pub logql_default_limit : ℕ
logql_default_limit = 1000

unfoldable pub eval_range : ℤ → ℤ → ℤ → ℕ → EvalRange
eval_range start end step lookback = record {
  start_ns = start;
  end_ns = end;
  step_ns = as_u64 (max_one step);
  lookback_ns = lookback;
}

-- `if limit > 0 { limit as usize } else { LOGQL_DEFAULT_LIMIT }`
unfoldable pub max_entries_of : ℤ → ℕ
max_entries_of limit = if is_positive limit then as_u64 limit else logql_default_limit

module _ ⦃eng : Engine⦄ where
  -- `CallError::Query(format!("promql: {…}"))`
  abbrev pub promql_error : Text → CallError
  promql_error e = CallError.query (codes "promql: " ++ e)

  abbrev pub logql_error : Text → CallError
  logql_error e = CallError.query (codes "logql: " ++ e)

  abbrev pub traceql_error : Text → CallError
  traceql_error e = CallError.query (codes "traceql: " ++ e)

module _ ⦃eng : Engine⦄ ⦃lgtm : Lgtm⦄ where
  abbrev Model : Type 0
  Model = QueryModel lgtm.Prom lgtm.Log lgtm.LogFilter lgtm.Trace

  -- `let ImbhQueryModel::Prom(expr) = translated.model else { … }`
  unfoldable pub expect_prom : Model → Call lgtm.Prom
  unfolding pure throw
  expect_prom (prom expr) = pure expr
  expect_prom (log _) = throw (CallError.query (codes "promql: not a metric expression"))
  expect_prom (log_selector _) = throw (CallError.query (codes "promql: not a metric expression"))
  expect_prom (trace _) = throw (CallError.query (codes "promql: not a metric expression"))
  expect_prom other = throw (CallError.query (codes "promql: not a metric expression"))

  unfoldable pub expect_trace : Model → Call lgtm.Trace
  unfolding pure throw
  expect_trace (trace expr) = pure expr
  expect_trace (prom _) = throw (CallError.query (codes "traceql: not a spanset expression"))
  expect_trace (log _) = throw (CallError.query (codes "traceql: not a spanset expression"))
  expect_trace (log_selector _) =
      throw (CallError.query (codes "traceql: not a spanset expression"))
  expect_trace other = throw (CallError.query (codes "traceql: not a spanset expression"))

  unfoldable pub imbh_db_query_promql : Ptr → Ptr → ℤ → ℤ → ℤ → Ptr → Extern ImbhError
  imbh_db_query_promql db query start end step out = guard do
    h ← handle db
    query' ← cstr query
    reject_if (out == 0) (invalid "null out stream pointer")
    let range = eval_range start end step promql_lookback_ns
    catalog ← block_on CallError.imbh (eng.metrics_catalog h.db)
    translated ← compute promql_error (lgtm.translate_promql query' (promql_context catalog))
    expr ← expect_prom translated
    batch ← block_on promql_error (lgtm.execute_promql_batches h.db expr range)
    store stream_out out (some (export_batches_infer (batch ∷ [])))

  -- The `LogSelector` arm: log lines.
  unfoldable pub logql_lines : eng.Db → ℤ → ℤ → ℤ → lgtm.LogFilter → Call (List eng.RecordBatch)
  logql_lines db start end limit filter = do
    bounds ← compute logql_error (lgtm.fetch_bounds_new start end)
    q ← compute logql_error (
        lgtm.build_log_query
          (record { bounds = bounds; filter = filter; max_entries = max_entries_of limit })
          lgtm.service_only)
    block_on CallError.imbh (eng.logs_query_batches db q)

  -- The `Log` arm: a range aggregation.
  unfoldable pub logql_series : eng.Db → ℤ → ℤ → ℤ → lgtm.Log → Call (List eng.RecordBatch)
  logql_series db start end step expr = do
    batch ←
        block_on logql_error
          (lgtm.execute_logql_batches db expr (eval_range start end step 0) lgtm.service_only)
    pure (batch ∷ [])

  unfoldable pub logql_batches : eng.Db → ℤ → ℤ → ℤ → ℤ → Model → Call (List eng.RecordBatch)
  unfolding logql_lines logql_series throw
  logql_batches db start end step limit (log_selector filter) =
      logql_lines db start end limit filter
  logql_batches db start end step limit (log expr) = logql_series db start end step expr
  logql_batches db start end step limit (prom _) =
      throw (CallError.query (codes "logql: translator returned a non-log model"))
  logql_batches db start end step limit (trace _) =
      throw (CallError.query (codes "logql: translator returned a non-log model"))
  logql_batches db start end step limit other =
      throw (CallError.query (codes "logql: translator returned a non-log model"))

  unfoldable pub imbh_db_query_logql : Ptr → Ptr → ℤ → ℤ → ℤ → ℤ → Ptr → Extern ImbhError
  imbh_db_query_logql db query start end step limit out = guard do
    h ← handle db
    query' ← cstr query
    reject_if (out == 0) (invalid "null out stream pointer")
    translated ← compute logql_error (lgtm.translate_logql query' lgtm.context_default)
    batches ← logql_batches h.db start end step limit translated
    store stream_out out (some (export_batches_infer batches))

  unfoldable pub imbh_db_query_traceql : Ptr → Ptr → ℤ → ℤ → Ptr → Extern ImbhError
  imbh_db_query_traceql db query start end out = guard do
    h ← handle db
    query' ← cstr query
    reject_if (out == 0) (invalid "null out stream pointer")
    translated ← compute traceql_error (lgtm.translate_traceql query' lgtm.context_default)
    expr ← expect_trace translated
    bounds ← compute traceql_error (lgtm.fetch_bounds_new start end)
    batch ← block_on traceql_error (lgtm.execute_traceql_batches h.db expr bounds)
    store stream_out out (some (export_batches_infer (batch ∷ [])))

  unfoldable pub imbh_db_get_trace : Ptr → Ptr → Ptr → Extern ImbhError
  imbh_db_get_trace db trace_id out = guard do
    h ← handle db
    trace_id_str ← cstr trace_id
    reject_if (out == 0) (invalid "null out stream pointer")
    trace_id' ←
        ok_or
          (CallError.invalid_arg (
            codes "invalid trace id "
            ++ (lgtm.debug_str trace_id_str ++ codes " (want 32 hex chars)")))
          (lgtm.trace_from_hex trace_id_str)
    batches ← block_on CallError.imbh (lgtm.get_batches h.db trace_id')
    store stream_out out (some (export_batches_infer batches))
