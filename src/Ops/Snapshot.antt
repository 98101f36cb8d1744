-- ===== src/Ops/Snapshot.antt =====
-- Snapshot, durability watermark, segment listings and export (src/lib.rs).
use imbh_c.Common.{◌&&◌, some, [], ◌∷◌, map, ◌==◌, if◌then◌else◌, unwrap_or, codes}
use imbh_c.Common.Int.{ℤ, is_zero}
use imbh_c.Engine.{Engine}
use imbh_c.Types.Imbh.{TimeRange}
use imbh_c.Types.Ffi.{Ptr, ImbhTable}
use imbh_c.Memory.{
  CallError, ◌>>=◌, ◌>>◌, reject_if, block_on, store, store_if, snapshot_out, u64_out, stream_out,
  bytes_out,
}
use imbh_c.Error.{Extern, ImbhError, guard}
use imbh_c.Pointers.{invalid, handle, cstr, make_bytes}
use imbh_c.Tables.{into_table}
use imbh_c.Arrow.{export_batches_infer}
use imbh_c.Discovery.Batches.{segments_batch, utf8_batch}

module _ ⦃eng : Engine⦄ where
  unfoldable pub imbh_db_snapshot : Ptr → Ptr → Ptr → Extern ImbhError
  imbh_db_snapshot db dir info = guard do
    h ← handle db
    dir' ← cstr dir
    out ← block_on CallError.imbh (eng.snapshot h.db dir')
    store_if snapshot_out info (record { segments = out.segments })

  -- `durable_through` returns no `Result`.
  unfoldable pub imbh_db_durable_through : Ptr → Ptr → Extern ImbhError
  imbh_db_durable_through db lsn = guard do
    h ← handle db
    reject_if (lsn == 0) (invalid "null out pointer")
    durable ← block_on (λ e. absurd e) (eng.durable_through h.db)
    store u64_out lsn (some (unwrap_or 0 durable))

  unfoldable pub imbh_db_segments : Ptr → Ptr → Extern ImbhError
  imbh_db_segments db out = guard do
    h ← handle db
    reject_if (out == 0) (invalid "null out stream pointer")
    segments ← block_on (λ e. absurd e) (eng.segments h.db)
    batch ← segments_batch segments
    store stream_out out (some (export_batches_infer (batch ∷ [])))

  unfoldable pub imbh_db_segment_files : Ptr → ImbhTable → Ptr → Extern ImbhError
  imbh_db_segment_files db table out = guard do
    h ← handle db
    reject_if (out == 0) (invalid "null out stream pointer")
    files ← block_on (λ e. absurd e) (eng.segment_files h.db (into_table table))
    batch ← utf8_batch (codes "path") (map eng.to_string_lossy files)
    store stream_out out (some (export_batches_infer (batch ∷ [])))

  -- `start == 0 && end == 0` asks for the whole range.
  unfoldable pub export_range : ℤ → ℤ → TimeRange
  unfolding is_zero
  export_range start end =
      if is_zero start && is_zero end then eng.time_range_all else eng.time_range_between start end

  unfoldable pub imbh_db_export : Ptr → ImbhTable → ℤ → ℤ → Ptr → Extern ImbhError
  imbh_db_export db table start_unix_nanos end_unix_nanos out = guard do
    h ← handle db
    reject_if (out == 0) (invalid "null out pointer")
    let range = export_range start_unix_nanos end_unix_nanos
    bytes ← block_on CallError.imbh (eng.export h.db (into_table table) range)
    buf ← make_bytes bytes
    store bytes_out out (some buf)
