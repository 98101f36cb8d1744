-- ===== src/Lifecycle/Handles.antt =====
-- A handle from the call that opens it to the call that frees it (src/lib.rs).
use imbh_c.Common.{◌≢◌, ◌∙◌, if◌then◌else◌, ◌≡◌, refl, ap, Option, some, none, arith, suc, ◌≤◌}
use imbh_c.Engine.{Engine}
use imbh_c.Types.Imbh.{Reply, done, failed, unwound, Payload}
use imbh_c.Types.Ffi.{Ptr}
use imbh_c.Memory.{
  Store, View, ImbhDb, db_view, db_out, peek, update, ok, Action, holding, alloc, pure, block_on,
  drop_in,
}
use imbh_c.Memory.Steps.{step, reject_if-false, block_on-done}
use imbh_c.Error.{World, value, success, clear_last_error, unguarded}
use imbh_c.Error.Laws.{guard-ok}
use imbh_c.Pointers.Live.{Live, store-live, take_back-live, Live-update_self, Live-update_ne}
use imbh_c.Lifecycle.{
  imbh_db_open_memory, open_into, new_runtime, imbh_db_free, free_handle, ignored, close_anyway,
}

module _ ⦃eng : Engine⦄ where
  -- The store after an open: the boxed handle, and its address in the out-parameter.
  abbrev pub opened : Ptr → ImbhDb → eng.State → Store → Store
  opened out h st s = record s {
    mem =
        update (update s.mem (suc s.last) (some (db_view.wrap h))) out
          (some (db_out.wrap (some (suc s.last))));
    last = suc s.last;
    engine = st;
  }

  new_runtime-done :
      (f : eng.State → eng.State) (s : Store) {rt : eng.Runtime} {st : eng.State}
      → eng.new_current_thread s.engine ≡ (done rt, st)
      → holding f new_runtime s ≡ (ok rt, record s { engine = st })
  unfolding holding new_runtime block_on
  new_runtime-done f s e = ground (arith, e)

  Live-alloc :
      {A B : Type 0} {v : View A} {s : Store} {p : Ptr} {a : A} (w : View B) (b : B)
      (st : eng.State)
      → Live v s p a
      → p ≤ s.last
      → Live v
          (record s {
            mem = update s.mem (suc s.last) (some (w.wrap b));
            last = suc s.last;
            engine = st;
          })
          p
          a
  unfolding peek update
  Live-alloc w b st l h = record { not_null = l.not_null; holds = ground arith }

  Live-allocated :
      {B : Type 0} (w : View B) (b : B) (s : Store) (st : eng.State)
      → Live w
          (record s {
            mem = update s.mem (suc s.last) (some (w.wrap b));
            last = suc s.last;
            engine = st;
          })
          (suc s.last)
          b
  unfolding peek update
  Live-allocated w b s st = record {
    not_null = ground arith;
    holds = ground (arith, w.read-wrap b);
  }

  -- An open whose engine calls succeed returns success and writes a new handle to `out`, which is
  -- not null and names the database and its runtime. The out-parameter is live, at an address that
  -- was given out before.
  pub imbh_db_open_memory-Live :
      (out : Ptr) (w : World) {old : Option Ptr} {db : eng.Db} {rt : eng.Runtime}
      {st st' : eng.State}
      → Live db_out w.store out old
      → out ≤ w.store.last
      → eng.open_db eng.in_memory w.store.engine ≡ (done db, st)
      → eng.new_current_thread st ≡ (done rt, st')
      → (imbh_db_open_memory out w ≡ (
        value success,
        clear_last_error
            (record w { store = opened out (record { db = db; rt = rt }) st' w.store }),
      ))
        × Live db_view
            (opened out (record { db = db; rt = rt }) st' w.store)
            (suc w.store.last)
            (record { db = db; rt = rt })
        × Live db_out
            (opened out (record { db = db; rt = rt }) st' w.store)
            out
            (some (suc w.store.last))
  unfolding imbh_db_open_memory open_into alloc
  imbh_db_open_memory-Live out w {db} {rt} {st'} l b e r =
      let h : ImbhDb = record { db = db; rt = rt } in
      let out_live = Live-alloc db_view h st' l b in
      (
        guard-ok _ w (
            step _ _ (reject_if-false _ _ l.not_null) (
              step _ _ (block_on-done _ _ _ e)
                (step _ _ (new_runtime-done _ _ r) (step _ _ refl (store-live out_live _))))),
        Live-update_ne db_out out _ (Live-allocated db_view h w.store st') (ground arith),
        Live-update_self out_live _,
      )

  unguarded-ok :
      {A : Type 0} (f : Action ⊥ A) (w : World) {a : A} {s : Store}
      → f w.store ≡ (ok a, s)
      → unguarded f w ≡ (value a, record w { store = s })
  unfolding unguarded
  unguarded-ok f w e = ground (arith, e)

  ignored-done :
      (r : Reply eng.Error (Unit {0})) → ((p : Payload) → r ≢ unwound p) → ignored r ≡ done tt
  ignored-done (done a) n = refl
  ignored-done (failed x) n = refl
  ignored-done (unwound p) n = absurd (n p refl)

  close_anyway-done :
      (db : eng.Db) (s : eng.State) {r : Reply eng.Error (Unit {0})} {st : eng.State}
      → eng.close db s ≡ (r, st)
      → ((p : Payload) → r ≢ unwound p)
      → close_anyway db s ≡ (done tt, st)
  close_anyway-done db s {r} {st} e n =
      ap (λ x. (ignored x.0, x.1)) e ∙ ap (λ x. (x, st)) (ignored-done r n)

  -- Freeing a live handle closes the database, drops the runtime and takes the box back, also when
  -- the close returns an error; the close does not panic.
  pub imbh_db_free-Live :
      (db : Ptr) (w : World) {h : ImbhDb} {r : Reply eng.Error (Unit {0})} {st : eng.State}
      → Live db_view w.store db h
      → eng.close h.db w.store.engine ≡ (r, st)
      → ((p : Payload) → r ≢ unwound p)
      → imbh_db_free db w ≡ (
        value tt,
        record w {
          store = record w.store {
            mem = update w.store.mem db none;
            engine = eng.drop_handle h.db h.rt st;
          };
        },
      )
  unfolding imbh_db_free free_handle drop_in
  imbh_db_free-Live db w {h} l e n =
      ap (λ b. unguarded (if b then pure tt else free_handle db) w) l.not_null
      ∙ unguarded-ok (free_handle db) w (
          step _ _ (take_back-live l)
            (step _ _ (block_on-done _ _ _ (close_anyway-done h.db w.store.engine e n)) refl))
