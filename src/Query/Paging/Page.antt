-- ===== src/Query/Paging/Page.antt =====
-- One page: what `imbh_db_logs_page` writes, given an engine that pages by offset.
use imbh_c.Common.{ℕ, Bool, ◌≡◌, refl, Option, List, length, take, drop}
use imbh_c.Engine.{Engine}
use imbh_c.Types.Proto
use imbh_c.Types.Imbh.{QueryStats, done}
use imbh_c.Types.Ffi.{Ptr, null}
use imbh_c.Memory.{Store, ImbhDb, u64_out, bool_out, ok}
use imbh_c.Memory.Steps.{step, reject_if-false, compute-done, block_on-done}
use imbh_c.Error.Laws.{guard-ok}
use imbh_c.Query.Run.{write_query_stats}
use imbh_c.Memory.{pure, store_if}
use imbh_c.Error.{World, value, success, clear_last_error}
use imbh_c.Pointers.Live.{handle-live, builder_ref-live, store_if-live, store-live, Live-update_ne}
use imbh_c.Arrow.{export_batches_infer}
use imbh_c.Query.Paging.Slots.{Slots, Ready, Slots-engine, page_memory}
use imbh_c.Query.Paging.{has_next, next_cursor, write_page, imbh_db_logs_page}

module _ ⦃eng : Engine⦄ where
  -- The matching rows are fixed, and a query at offset `o` with limit `n` answers with the `n` rows
  -- from `o` on, or as many as there are.
  pub record PagesBy {R : Type 0} (h : ImbhDb) (q : Proto.LogQuery eng.F64) (rows : List R)
      (decode : eng.Stream → List R) : Type 0 where
    pub built : ℕ → eng.LogQuery
    pub batches : ℕ → eng.State → List eng.RecordBatch
    pub stats : ℕ → eng.State → QueryStats
    pub then_state : ℕ → eng.State → eng.State
    pub builds : (o : ℕ) → eng.log_try_from (record q { offset = o }) ≡ done (built o)
    pub answers :
        (o : ℕ) (st : eng.State)
        → eng.logs_query_batches_with_stats h.db (built o) st
          ≡ (done (batches o st, stats o st), then_state o st)
    pub decodes :
        (o : ℕ) (st : eng.State)
        → decode (export_batches_infer (batches o st)) ≡ take q.limit (drop o rows)
    pub counts :
        (o : ℕ) (st : eng.State) → (stats o st).rows_returned ≡ length (take q.limit (drop o rows))

  write_query_stats-null :
      {E : Type 0} (qs : QueryStats) (s : Store) → write_query_stats {E = E} null qs s ≡ (ok tt, s)
  unfolding write_query_stats store_if pure
  write_query_stats-null qs s = refl

  write_page-Slots :
      (after limit : ℕ) (bs : List eng.RecordBatch) (qs : QueryStats) {s : Store}
      {out next more : Ptr} {x : Option eng.Stream} {y : Option ℕ} {z : Option Bool}
      → Slots s out next more x y z
      → write_page after limit out null next more bs qs s ≡ (
        ok tt,
        record s {
          mem =
              page_memory out next more
                (next_cursor after qs)
                (has_next limit qs)
                (export_batches_infer bs)
                s.mem;
        },
      )
  unfolding write_page
  write_page-Slots after limit bs qs {s} r = step _ _ (write_query_stats-null qs s) (
      step _ _ (store_if-live r.offset_slot _) (
        step _ _ (store_if-live (Live-update_ne u64_out _ _ r.flag_slot r.more_next) _) (
          store-live
            (Live-update_ne bool_out _ _ (Live-update_ne u64_out _ _ r.stream_slot r.out_next)
              r.out_more)
            _)))

  module _ {R : Type 0} {h : ImbhDb} {q : Proto.LogQuery eng.F64} {rows : List R}
      {decode : eng.Stream → List R} (p : PagesBy h q rows decode) where
    -- A page succeeds, and writes the three out-parameters.
    pub page-Ready :
        {db query out next more : Ptr} (after : ℕ) (w : World)
        → Ready w.store db query out next more h q
        → imbh_db_logs_page db query after out null next more w ≡ (
          value success,
          clear_last_error (record w {
            store = record w.store {
              mem =
                  page_memory out next more
                    (next_cursor after (p.stats after w.store.engine))
                    (has_next q.limit (p.stats after w.store.engine))
                    (export_batches_infer (p.batches after w.store.engine))
                    w.store.mem;
              engine = p.then_state after w.store.engine;
            };
          }),
        )
    unfolding imbh_db_logs_page
    page-Ready after w r = guard-ok _ w (
        step _ _ (handle-live r.handle) (
          step _ _ (builder_ref-live r.builder _) (
            step _ _ (reject_if-false _ _ r.slots.stream_slot.not_null) (
              step _ _ (compute-done _ _ (p.builds after)) (
                step _ _ (block_on-done _ _ _ (p.answers after w.store.engine))
                  (write_page-Slots after _ _ _ (Slots-engine r.slots _)))))))
