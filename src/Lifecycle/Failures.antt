-- ===== src/Lifecycle/Failures.antt =====
-- An open that fails (src/lib.rs).
use imbh_c.Common.{refl, ◌≡◌, Text, Option, ◌++◌, arith, codes}
use imbh_c.Engine.{Engine}
use imbh_c.Types.Imbh.{done, failed}
use imbh_c.Types.Ffi.{Ptr}
use imbh_c.Memory.{Store, CallError, db_out, err, holding, block_on}
use imbh_c.Memory.Steps.{step, stop, reject_if-false, block_on-done}
use imbh_c.Error.{World, ImbhError, value, set_last_error}
use imbh_c.Error.Laws.{guard-invalid_arg}
use imbh_c.Pointers.Live.{Live}
use imbh_c.Lifecycle.{imbh_db_open_memory, open_into, new_runtime}

module _ ⦃eng : Engine⦄ where
  new_runtime-failed :
      (f : eng.State → eng.State) (s : Store) {e : Text} {st : eng.State}
      → eng.new_current_thread s.engine ≡ (failed e, st)
      → holding f new_runtime s ≡ (
        err (CallError.invalid_arg (codes "failed to build runtime: " ++ e)),
        record s { engine = f st },
      )
  unfolding holding new_runtime block_on
  new_runtime-failed f s e = ground (arith, e)

  -- When an in-memory database opens but no runtime can be built, the database is dropped, the caller
  -- gets `InvalidArg` with the reason, though no argument is invalid, and the memory is as it was:
  -- no handle is made. The out-parameter is live.
  pub imbh_db_open_memory-failed :
      (out : Ptr) (w : World) {old : Option Ptr} {db : eng.Db} {e : Text} {st st' : eng.State}
      → Live db_out w.store out old
      → eng.open_db eng.in_memory w.store.engine ≡ (done db, st)
      → eng.new_current_thread st ≡ (failed e, st')
      → imbh_db_open_memory out w ≡ (
        value ImbhError.invalid_arg,
        set_last_error
            (codes "failed to build runtime: " ++ e)
            (record w { store = record w.store { engine = eng.drop_db db st' } }),
      )
  unfolding imbh_db_open_memory open_into
  imbh_db_open_memory-failed out w l e r = guard-invalid_arg _ w (
      step _ _ (reject_if-false _ _ l.not_null)
        (step _ _ (block_on-done _ _ _ e) (stop _ _ (new_runtime-failed _ _ r) refl)))
