-- ===== src/Query/Paging.antt =====
-- Paged logs and the row count (src/query.rs).
pub mod Slots
pub mod Page
pub mod Walk
use imbh_c.Common.{ℕ, ◌+◌, ◌%◌, Bool, ◌&&◌, some, List, ltb, leb, ◌==◌, u64_mod}
use imbh_c.Engine.{Engine}
use imbh_c.Types.Imbh.{QueryStats}
use imbh_c.Types.Ffi.{Ptr}
use imbh_c.Memory.{
  CallError, Call, ◌>>=◌, ◌>>◌, reject_if, compute, block_on, store, store_if, stream_out, u64_out,
  bool_out, log_view,
}
use imbh_c.Error.{Extern, ImbhError, guard}
use imbh_c.Pointers.{invalid, handle, builder_ref}
use imbh_c.Arrow.{export_batches_infer}
use imbh_c.Query.Run.{write_query_stats}

-- `limit > 0 && qstats.rows_returned >= limit`
unfoldable pub has_next : ℕ → QueryStats → Bool
has_next limit qstats = ltb 0 limit && leb limit qstats.rows_returned

-- `after + qstats.rows_returned`, which wraps in a release build.
unfoldable pub next_cursor : ℕ → QueryStats → ℕ
next_cursor after qstats = (after + qstats.rows_returned) % u64_mod

module _ ⦃eng : Engine⦄ where
  -- What `imbh_db_logs_page` writes once the engine has answered.
  unfoldable pub write_page :
      ℕ → ℕ → Ptr → Ptr → Ptr → Ptr → List eng.RecordBatch → QueryStats → Call (Unit {0})
  write_page after limit out stats next_offset has_more batches qstats = do
    write_query_stats stats qstats
    store_if u64_out next_offset (next_cursor after qstats)
    store_if bool_out has_more (has_next limit qstats)
    store stream_out out (some (export_batches_infer batches))

  unfoldable pub imbh_db_logs_page : Ptr → Ptr → ℕ → Ptr → Ptr → Ptr → Ptr → Extern ImbhError
  imbh_db_logs_page db query after out stats next_offset has_more = guard do
    h ← handle db
    q ← builder_ref log_view "null imbh_log_query" query
    reject_if (out == 0) (invalid "null out stream pointer")
    built ← compute CallError.imbh (eng.log_try_from (record q { offset = after }))
    run ← block_on CallError.imbh (eng.logs_query_batches_with_stats h.db built)
    write_page after q.limit out stats next_offset has_more run.0 run.1

  unfoldable pub imbh_db_logs_count : Ptr → Ptr → Ptr → Extern ImbhError
  imbh_db_logs_count db query count = guard do
    h ← handle db
    q ← builder_ref log_view "null imbh_log_query" query
    reject_if (count == 0) (invalid "null out pointer")
    built ← compute CallError.imbh (eng.log_try_from q)
    n ← block_on CallError.imbh (eng.logs_count h.db built)
    store u64_out count (some n)
