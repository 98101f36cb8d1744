-- ===== src/Ops/Totals.antt =====
-- What `imbh_db_stats` reports (src/lib.rs).
use imbh_c.Common.{ℕ, ◌+◌, ◌%◌, ◌<◌, List, [], ◌∷◌, map, ◌≡◌, refl, arith, u64_mod, Option, some}
use imbh_c.Engine.{Engine}
use imbh_c.Types.Imbh.{done, DbStats, TableStats}
use imbh_c.Types.Ffi.{Ptr, ImbhStats}
use imbh_c.Memory.{ImbhDb, db_view, stats_out, update}
use imbh_c.Memory.Steps.{step, reject_if-false, block_on-done}
use imbh_c.Error.{World, value, success, clear_last_error}
use imbh_c.Error.Laws.{guard-ok}
use imbh_c.Pointers.Live.{Live, handle-live, store-live, Live-engine}
use imbh_c.Ingest.Receipts.{Lsn, Lsn-unwrap_or}
use imbh_c.Ops.{sum_u64, stats_of, imbh_db_stats}

-- The sum as a natural number.
unfoldable pub sum : List ℕ → ℕ
sum [] = 0
sum (x ∷ xs) = x + sum xs

sum_u64-sum : (acc : ℕ) (xs : List ℕ) → acc < u64_mod → sum_u64 acc xs ≡ (acc + sum xs) % u64_mod
unfolding sum_u64 sum
sum_u64-sum acc [] h = omega arith
sum_u64-sum acc (x ∷ xs) h = omega (arith, sum_u64-sum ((acc + x) % u64_mod) xs (omega arith))

sum_u64_total : (xs : List ℕ) → sum_u64 0 xs ≡ sum xs % u64_mod
sum_u64_total xs = omega (arith, sum_u64-sum 0 xs (omega arith))

pub stats_of-totals :
    (s : DbStats)
    → ((stats_of s).total_segment_count
        ≡ sum (map (λ (t : TableStats). t.segment_count) s.tables) % u64_mod)
      × ((stats_of s).total_segment_rows
          ≡ sum (map (λ (t : TableStats). t.segment_rows) s.tables) % u64_mod)
      × ((stats_of s).total_buffer_rows
          ≡ sum (map (λ (t : TableStats). t.buffer_rows) s.tables) % u64_mod)
unfolding stats_of
stats_of-totals s = (sum_u64_total _, sum_u64_total _, sum_u64_total _)

-- The C struct reports these statistics.
pub record Summarizes (s : DbStats) (c : ImbhStats) : Type 0 where
  pub buffer_bytes : c.buffer_bytes ≡ s.buffer_bytes
  pub wal_bytes : c.wal_bytes ≡ s.wal_bytes
  pub durable_lsn : Lsn s.durable_lsn c.durable_lsn
  pub ingest_queue_depth : c.ingest_queue_depth ≡ s.ingest_queue_depth
  pub ingest_dropped : c.ingest_dropped ≡ s.ingest_dropped
  pub ingest_errors : c.ingest_errors ≡ s.ingest_errors
  pub segment_count :
      c.total_segment_count ≡ sum (map (λ (t : TableStats). t.segment_count) s.tables) % u64_mod
  pub segment_rows :
      c.total_segment_rows ≡ sum (map (λ (t : TableStats). t.segment_rows) s.tables) % u64_mod
  pub buffer_rows :
      c.total_buffer_rows ≡ sum (map (λ (t : TableStats). t.buffer_rows) s.tables) % u64_mod

stats_of-Summarizes : (s : DbStats) → Summarizes s (stats_of s)
unfolding stats_of
stats_of-Summarizes s = record {
  buffer_bytes = refl;
  wal_bytes = refl;
  durable_lsn = Lsn-unwrap_or s.durable_lsn;
  ingest_queue_depth = refl;
  ingest_dropped = refl;
  ingest_errors = refl;
  segment_count = (stats_of-totals s).0;
  segment_rows = (stats_of-totals s).1;
  buffer_rows = (stats_of-totals s).2;
}

module _ ⦃eng : Engine⦄ where
  -- On a live handle and a live out-parameter, when the engine has its statistics: the call returns
  -- success and writes a struct with the engine's gauges and counters, 0 for a durable LSN that
  -- there is not yet, and the sums over the tables modulo 2^64.
  pub imbh_db_stats-Summarizes :
      (db out : Ptr) (w : World) {h : ImbhDb} {old : Option ImbhStats} {s : DbStats}
      {st : eng.State}
      → Live db_view w.store db h
      → Live stats_out w.store out old
      → eng.stats h.db w.store.engine ≡ (done s, st)
      → (c : ImbhStats) × Summarizes s c
        × (imbh_db_stats db out w ≡ (
          value success,
          clear_last_error (record w {
            store = record w.store {
              mem = update w.store.mem out (some (stats_out.wrap (some c)));
              engine = st;
            };
          }),
        ))
  unfolding imbh_db_stats
  imbh_db_stats-Summarizes db out w {s} {st} l o e = (
    stats_of s,
    stats_of-Summarizes s,
    guard-ok _ w (
        step _ _ (handle-live l) (
          step _ _ (reject_if-false _ _ o.not_null)
            (step _ _ (block_on-done _ _ _ e) (store-live (Live-engine o st) _)))),
  )
