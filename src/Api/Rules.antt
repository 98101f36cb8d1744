-- ===== src/Api/Rules.antt =====
-- Entry points write to the caller's memory only when they succeed: the rules.
use imbh_c.Common.{◌≡◌, ◌≢◌, List, [], ◌∷◌, Text, ℕ}
use imbh_c.Common.Int.{ℤ}
use imbh_c.Engine.{Engine}
use imbh_c.Types.Imbh.{QueryStats, IngestReceipt, TraceSummary, SegmentRef}
use imbh_c.Types.Arrow.{Field, Column}
use imbh_c.Types.Ffi.{Ptr}
use imbh_c.Memory.{Call}
use imbh_c.Memory.Commits.{
  Commits, Commits-Quiet, Commits-Sure, Commits-bind, reads, writes, Quiet, Sure, Quiet-pure,
  Quiet-compute, Quiet-bind, Quiet-throw, Sure-store_if, Sure-store, Sure-bind,
}
use imbh_c.Error.{ImbhError, Extern, guard, success, value, World}
use imbh_c.Error.Laws.{guard-Commits}
use imbh_c.Pointers.Reads.{pointer_reads, Sure-make_bytes}
use imbh_c.Arrow.{write_all, encode_ipc}
use imbh_c.Discovery.Batches.{
  record_batch, utf8_batch, series_batch, volume_batch, trace_summary_batch, segments_batch,
}
use imbh_c.Discovery.Lookups.{write_batch}
use imbh_c.Ingest.{write_receipt}
use imbh_c.Query.Run.{write_query_stats}
use imbh_c.Query.Paging.{write_page}
use imbh_c.Lgtm.Interface.{Lgtm, QueryModel, prom, log, log_selector, trace}
use imbh_c.Lgtm.Queries.{expect_prom, expect_trace, logql_lines, logql_series, logql_batches}

module _ ⦃eng : Engine⦄ where
  -- An error code means that the memory is as it was.
  pub record Atomic (m : Extern ImbhError) : Type 0 where
    pub undone :
        (w : World) {c : ImbhError}
        → (m w).0 ≡ value c
        → c ≢ success
        → (m w).1.store.mem ≡ w.store.mem

  pub Atomic-guard : {f : Call (Unit {0})} → Commits f → Atomic (guard f)
  Atomic-guard q = record { undone = λ w h ne. guard-Commits w q h ne }

  pub Quiet-record_batch :
      (fields : List Field) (columns : List (Column eng.F64)) → Quiet (record_batch fields columns)
  unfolding record_batch
  Quiet-record_batch fields columns = search reads

  pub Quiet-utf8_batch : (col : Text) (values : List Text) → Quiet (utf8_batch col values)
  unfolding utf8_batch
  Quiet-utf8_batch col values = search reads

  pub Quiet-series_batch :
      (labels : List Text) (ts : List ℤ) (vals : List eng.F64) → Quiet (series_batch labels ts vals)
  unfolding series_batch
  Quiet-series_batch labels ts vals = search reads

  pub Quiet-volume_batch :
      (times : List ℤ) (labels : List Text) (counts : List ℤ)
      → Quiet (volume_batch times labels counts)
  unfolding volume_batch
  Quiet-volume_batch times labels counts = search reads

  pub Quiet-trace_summary_batch :
      (s : List (TraceSummary eng.TraceId)) → Quiet (trace_summary_batch s)
  unfolding trace_summary_batch
  Quiet-trace_summary_batch s = search reads

  pub Quiet-segments_batch : (s : List SegmentRef) → Quiet (segments_batch s)
  unfolding segments_batch
  Quiet-segments_batch s = search reads

  Quiet-write_all :
      (batches : List eng.RecordBatch) (writer : eng.Writer) → Quiet (write_all batches writer)
  unfolding write_all
  Quiet-write_all [] writer = Quiet-pure writer
  Quiet-write_all (b ∷ batches) writer =
      Quiet-bind (Quiet-compute (λ e. e) (eng.writer_write b writer))
        (λ w. Quiet-write_all batches w)

  pub Quiet-encode_ipc :
      (schema : eng.Schema) (batches : List eng.RecordBatch) → Quiet (encode_ipc schema batches)
  unfolding encode_ipc
  Quiet-encode_ipc schema batches =
      Quiet-bind (Quiet-compute (λ e. e) (eng.writer_try_new schema)) (λ w.
        Quiet-bind (Quiet-write_all batches w)
          (λ w'. Quiet-compute (λ e. e) (eng.writer_finish w')))

  pub Sure-write_receipt :
      {E : Type 0} (p : Ptr) (r : IngestReceipt) → Sure (write_receipt {E = E} p r)
  unfolding write_receipt
  Sure-write_receipt p r = search writes

  pub Sure-write_query_stats :
      {E : Type 0} (p : Ptr) (r : QueryStats) → Sure (write_query_stats {E = E} p r)
  unfolding write_query_stats
  Sure-write_query_stats p r = search writes

  pub Sure-write_batch :
      {E : Type 0} (p : Ptr) (b : eng.RecordBatch) → Sure (write_batch {E = E} p b)
  unfolding write_batch
  Sure-write_batch p b = search writes

  pub Sure-write_page :
      (after limit : ℕ) (out stats next more : Ptr) (batches : List eng.RecordBatch)
      (q : QueryStats)
      → Sure (write_page after limit out stats next more batches q)
  unfolding write_page
  Sure-write_page after limit out stats next more batches q =
      search (writes, Sure-write_query_stats) depth 12

module _ ⦃eng : Engine⦄ ⦃lgtm : Lgtm⦄ where
  pub Quiet-expect_prom :
      (m : QueryModel lgtm.Prom lgtm.Log lgtm.LogFilter lgtm.Trace) → Quiet (expect_prom m)
  unfolding expect_prom
  Quiet-expect_prom (prom e) = Quiet-pure e
  Quiet-expect_prom _ = Quiet-throw _

  pub Quiet-expect_trace :
      (m : QueryModel lgtm.Prom lgtm.Log lgtm.LogFilter lgtm.Trace) → Quiet (expect_trace m)
  unfolding expect_trace
  Quiet-expect_trace (trace e) = Quiet-pure e
  Quiet-expect_trace _ = Quiet-throw _

  Quiet-logql_lines :
      (db : eng.Db) (start end limit : ℤ) (f : lgtm.LogFilter)
      → Quiet (logql_lines db start end limit f)
  unfolding logql_lines
  Quiet-logql_lines db start end limit f = search reads depth 12

  Quiet-logql_series :
      (db : eng.Db) (start end step : ℤ) (e : lgtm.Log) → Quiet (logql_series db start end step e)
  unfolding logql_series
  Quiet-logql_series db start end step e = search reads depth 12

  pub Quiet-logql_batches :
      (db : eng.Db) (start end step limit : ℤ)
      (m : QueryModel lgtm.Prom lgtm.Log lgtm.LogFilter lgtm.Trace)
      → Quiet (logql_batches db start end step limit m)
  unfolding logql_batches
  Quiet-logql_batches db start end step limit (log e) = Quiet-logql_series db start end step e
  Quiet-logql_batches db start end step limit (log_selector f) =
      Quiet-logql_lines db start end limit f
  Quiet-logql_batches db start end step limit _ = Quiet-throw _

pub ruleset atomic_rules = (
  pointer_reads, writes, Commits-Quiet, Commits-Sure, Commits-bind, Atomic-guard,
  Quiet-record_batch, Quiet-utf8_batch, Quiet-series_batch, Quiet-volume_batch,
  Quiet-trace_summary_batch, Quiet-segments_batch, Quiet-encode_ipc, Sure-make_bytes,
  Sure-write_receipt, Sure-write_query_stats, Sure-write_batch, Sure-write_page,
)

pub ruleset lgtm_rules = (atomic_rules, Quiet-expect_prom, Quiet-expect_trace, Quiet-logql_batches)
