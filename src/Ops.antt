-- ===== src/Ops.antt =====
-- The operations of src/lib.rs: flush, maintain, compact, statistics, durability.
pub mod Snapshot
pub mod Totals
pub mod Lookup
use imbh_c.Common.{
  ℕ, Text, ◌+◌, ◌%◌, Bool, ◌&&◌, Option, none, some, List, [], ◌∷◌, map, ◌==◌, if◌then◌else◌,
  u64_mod, unwrap_or, is_some,
}
use imbh_c.Common.Int.{ℤ, pos}
use imbh_c.Engine.{Engine}
use imbh_c.Types.Imbh.{DbStats, TableStats, Table}
use imbh_c.Types.Ffi.{Ptr, ImbhStats, ImbhTableStats, ImbhTable}
use imbh_c.Memory.{
  CallError, ◌>>=◌, ◌>>◌, reject_if, block_on, store, store_if, stats_out, table_stats_out,
  maintenance_out, compaction_out, pure,
}
use imbh_c.Error.{Extern, ImbhError, guard}
use imbh_c.Pointers.{invalid, handle, ok_or}
use imbh_c.Tables.{into_table, table_to_c, same_table}

-- `.sum()` of `u64`s, which wraps in a release build.
unfoldable pub sum_u64 : ℕ → List ℕ → ℕ
sum_u64 acc [] = acc
sum_u64 acc (x ∷ xs) = sum_u64 ((acc + x) % u64_mod) xs

unfoldable pub stats_of : DbStats → ImbhStats
unfolding sum_u64
stats_of s = record {
  buffer_bytes = s.buffer_bytes;
  wal_bytes = s.wal_bytes;
  durable_lsn = unwrap_or 0 s.durable_lsn;
  ingest_queue_depth = s.ingest_queue_depth;
  ingest_dropped = s.ingest_dropped;
  ingest_errors = s.ingest_errors;
  total_segment_count = sum_u64 0 (map (λ (t : TableStats). t.segment_count) s.tables);
  total_segment_rows = sum_u64 0 (map (λ (t : TableStats). t.segment_rows) s.tables);
  total_buffer_rows = sum_u64 0 (map (λ (t : TableStats). t.buffer_rows) s.tables);
}

-- `s.tables.iter().find(|t| t.table == want)`
unfoldable pub find_table : Table → List TableStats → Option TableStats
unfolding same_table
find_table want [] = none
find_table want (t ∷ ts) = if same_table t.table want then some t else find_table want ts

unfoldable pub table_stats_of : TableStats → ImbhTableStats
unfolding table_to_c
table_stats_of t = record {
  table = table_to_c t.table;
  segment_count = t.segment_count;
  segment_rows = t.segment_rows;
  buffer_rows = t.buffer_rows;
  min_time_unix_nano = unwrap_or (pos 0) t.min_time_unix_nano;
  max_time_unix_nano = unwrap_or (pos 0) t.max_time_unix_nano;
  has_time_bounds = is_some t.min_time_unix_nano && is_some t.max_time_unix_nano;
}

module _ ⦃eng : Engine⦄ where
  unfoldable pub imbh_db_flush : Ptr → Extern ImbhError
  imbh_db_flush db = guard do h ← handle db; block_on CallError.imbh (eng.flush h.db)

  unfoldable pub imbh_db_maintain : Ptr → Ptr → Extern ImbhError
  imbh_db_maintain db report = guard do
    h ← handle db
    r ← block_on CallError.imbh (eng.maintain h.db)
    store_if maintenance_out report (record {
      sealed = r.sealed;
      segments_dropped = r.segments_dropped;
      bytes_freed = r.bytes_freed;
    })

  unfoldable pub imbh_db_compact : Ptr → Ptr → Extern ImbhError
  imbh_db_compact db report = guard do
    h ← handle db
    r ← block_on CallError.imbh (eng.compact h.db)
    store_if compaction_out report
        (record { segments_merged = r.segments_merged; segments_created = r.segments_created })

  unfoldable pub imbh_db_stats : Ptr → Ptr → Extern ImbhError
  imbh_db_stats db out = guard do
    h ← handle db
    reject_if (out == 0) (invalid "null out pointer")
    s ← block_on CallError.imbh (eng.stats h.db)
    store stats_out out (some (stats_of s))

  unfoldable pub imbh_db_table_stats : Ptr → ImbhTable → Ptr → Extern ImbhError
  imbh_db_table_stats db table out = guard do
    h ← handle db
    reject_if (out == 0) (invalid "null out pointer")
    s ← block_on CallError.imbh (eng.stats h.db)
    t ← ok_or (invalid "unknown table") (find_table (into_table table) s.tables)
    store table_stats_out out (some (table_stats_of t))
