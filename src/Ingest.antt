-- ===== src/Ingest.antt =====
-- The OTLP ingest calls of src/lib.rs.
pub mod Receipts
use imbh_c.Common.{ℕ, unwrap_or}
use imbh_c.Engine.{Engine}
use imbh_c.Types.Imbh.{IngestReceipt}
use imbh_c.Types.Ffi.{Ptr, ImbhIngestReceipt}
use imbh_c.Memory.{CallError, Action, ◌>>=◌, block_on, store_if, receipt_out}
use imbh_c.Error.{Extern, ImbhError, guard}
use imbh_c.Pointers.{handle, bytes}

-- The receipt as C sees it; no LSN is 0.
abbrev pub receipt_of : IngestReceipt → ImbhIngestReceipt
receipt_of r = record {
  accepted = r.accepted;
  rejected = r.rejected;
  lsn = unwrap_or 0 r.lsn;
  durable = r.durable;
  queued = r.is_queued;
}

module _ ⦃eng : Engine⦄ where
  unfoldable pub write_receipt : {E : Type 0} → Ptr → IngestReceipt → Action E (Unit {0})
  unfolding store_if
  write_receipt out r = store_if receipt_out out (receipt_of r)

  unfoldable pub imbh_db_ingest_logs : Ptr → Ptr → ℕ → Ptr → Extern ImbhError
  imbh_db_ingest_logs db otlp len receipt = guard do
    h ← handle db
    body ← bytes otlp len
    r ← block_on CallError.imbh (eng.ingest_otlp_logs h.db body)
    write_receipt receipt r

  unfoldable pub imbh_db_ingest_traces : Ptr → Ptr → ℕ → Ptr → Extern ImbhError
  imbh_db_ingest_traces db otlp len receipt = guard do
    h ← handle db
    body ← bytes otlp len
    r ← block_on CallError.imbh (eng.ingest_otlp_traces h.db body)
    write_receipt receipt r

  unfoldable pub imbh_db_ingest_metrics : Ptr → Ptr → ℕ → Ptr → Extern ImbhError
  imbh_db_ingest_metrics db otlp len receipt = guard do
    h ← handle db
    body ← bytes otlp len
    r ← block_on CallError.imbh (eng.ingest_otlp_metrics h.db body)
    write_receipt receipt r
