-- ===== src/Lifecycle.antt =====
-- Opening, closing and freeing a database handle (src/lib.rs, "Lifecycle").
pub mod Handles
pub mod Failures
use imbh_c.Common.{Option, none, some, ◌++◌, codes, ◌==◌, if◌then◌else◌}
use imbh_c.Engine.{Engine}
use imbh_c.Types.Imbh.{Reply, done, failed, unwound, Async}
use imbh_c.Types.Ffi.{Ptr, ImbhOpenOptions}
use imbh_c.Memory.{
  CallError, Action, Call, pure, ◌>>=◌, ◌>>◌, reject_if, block_on, holding, drop_in, as_ref, alloc,
  store, take_back, db_view, db_out, options_view,
}
use imbh_c.Error.{Extern, ImbhError, guard, unguarded}
use imbh_c.Pointers.{invalid, handle, cstr}
use imbh_c.Options.{build_options}

module _ ⦃eng : Engine⦄ where
  unfoldable pub new_runtime : Call eng.Runtime
  unfolding block_on
  new_runtime =
      block_on (λ e. CallError.invalid_arg (codes "failed to build runtime: " ++ e))
        eng.new_current_thread

  -- From the builder on: open, build the runtime (the database is dropped if that fails), box the
  -- handle, and hand it out.
  unfoldable pub open_into : Ptr → eng.DbBuilder → Call (Unit {0})
  open_into out builder = do
    db ← block_on CallError.imbh (eng.open_db builder)
    rt ← holding (eng.drop_db db) new_runtime
    p ← alloc db_view (record { db = db; rt = rt })
    store db_out out (some p)

  unfoldable pub imbh_db_open_memory : Ptr → Extern ImbhError
  imbh_db_open_memory out =
      guard do reject_if (out == 0) (invalid "null out pointer"); open_into out eng.in_memory

  -- `if let Some(opts) = opts.as_ref() { builder = build_options(opts, builder)?; }`
  unfoldable pub with_options : Option ImbhOpenOptions → eng.DbBuilder → Call eng.DbBuilder
  unfolding build_options pure
  with_options none builder = pure builder
  with_options (some opts) builder = build_options opts builder

  unfoldable pub imbh_db_open : Ptr → Ptr → Ptr → Extern ImbhError
  imbh_db_open path opts out = guard do
    reject_if (out == 0) (invalid "null out pointer")
    path' ← cstr path
    opts' ← as_ref options_view opts
    builder ← with_options opts' (eng.builder path')
    open_into out builder

  unfoldable pub imbh_db_open_read_only : Ptr → Ptr → Extern ImbhError
  imbh_db_open_read_only path out = guard do
    reject_if (out == 0) (invalid "null out pointer")
    path' ← cstr path
    open_into out (eng.access_read_only (eng.builder path'))

  unfoldable pub imbh_db_close : Ptr → Extern ImbhError
  imbh_db_close db = guard do h ← handle db; block_on CallError.imbh (eng.close h.db)

  -- `let _ = …`: an error is dropped, a panic is not.
  abbrev pub ignored : {X A : Type 0} → Reply X A → Reply ⊥ (Unit {0})
  ignored (done a) = done tt
  ignored (failed x) = done tt
  ignored (unwound p) = unwound p

  abbrev pub close_anyway : eng.Db → Async eng.State ⊥ (Unit {0})
  close_anyway db st = (ignored (eng.close db st).0, (eng.close db st).1)

  unfoldable pub free_handle : Ptr → Action ⊥ (Unit {0})
  free_handle db = do
    boxed ← take_back db_view db
    block_on (λ e. e) (close_anyway boxed.db)
    drop_in (eng.drop_handle boxed.db boxed.rt)

  unfoldable pub imbh_db_free : Ptr → Extern (Unit {0})
  unfolding free_handle unguarded pure
  imbh_db_free db = unguarded (if db == 0 then pure tt else free_handle db)
