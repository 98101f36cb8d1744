-- ===== src/Sql.antt =====
-- The SQL queries of src/lib.rs: as an Arrow stream, and as Arrow-IPC bytes.
use imbh_c.Common.{◌++◌, some, codes, ◌==◌}
use imbh_c.Engine.{Engine}
use imbh_c.Types.Ffi.{Ptr}
use imbh_c.Memory.{
  CallError, ◌>>=◌, ◌>>◌, reject_if, block_on, store, stream_out, bytes_out, map_err,
}
use imbh_c.Error.{Extern, ImbhError, guard}
use imbh_c.Pointers.{invalid, handle, cstr, make_bytes}
use imbh_c.Arrow.{export_batches, encode_ipc}

module _ ⦃eng : Engine⦄ where
  unfoldable pub imbh_db_query_sql : Ptr → Ptr → Ptr → Extern ImbhError
  imbh_db_query_sql db sql out = guard do
    h ← handle db
    sql' ← cstr sql
    reject_if (out == 0) (invalid "null out stream pointer")
    collected ← block_on CallError.imbh (eng.sql_collect h.db sql')
    store stream_out out (some (export_batches collected.0 collected.1))

  unfoldable pub imbh_db_query_sql_ipc : Ptr → Ptr → Ptr → Extern ImbhError
  imbh_db_query_sql_ipc db sql out = guard do
    h ← handle db
    sql' ← cstr sql
    reject_if (out == 0) (invalid "null out pointer")
    collected ← block_on CallError.imbh (eng.sql_collect h.db sql')
    bytes ←
        map_err (λ e. CallError.query (codes "arrow-ipc encode: " ++ e))
          (encode_ipc collected.0 collected.1)
    buf ← make_bytes bytes
    store bytes_out out (some buf)
