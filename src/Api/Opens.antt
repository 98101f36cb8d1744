-- ===== src/Api/Opens.antt =====
-- The three calls that open a database (src/lib.rs), and what a failed one leaves behind.
use imbh_c.Common.{◌≡◌, ◌≢◌, Option, none, some}
use imbh_c.Engine.{Engine}
use imbh_c.Types.Ffi.{Ptr, ImbhOpenOptions}
use imbh_c.Memory.Commits.{Quiet, Quiet-pure, Commits, reads}
use imbh_c.Error.{Extern, ImbhError, World, value, success}
use imbh_c.Pointers.Reads.{Quiet-read_promote_keys}
use imbh_c.Options.{build_options}
use imbh_c.Lifecycle.{
  new_runtime, open_into, with_options, imbh_db_open_memory, imbh_db_open, imbh_db_open_read_only,
}
use imbh_c.Api.Rules.{Atomic, atomic_rules}

-- A call that opens a database, with its pointers but for the out-parameter.
pub data OpenCall : Type 0 where
  in_memory : OpenCall
  on_disk : (path opts : Ptr) → OpenCall
  read_only : (path : Ptr) → OpenCall

module _ ⦃eng : Engine⦄ where
  unfoldable pub run_open : OpenCall → Ptr → Extern ImbhError
  run_open in_memory out = imbh_db_open_memory out
  run_open (on_disk path opts) out = imbh_db_open path opts out
  run_open (read_only path) out = imbh_db_open_read_only path out

  Quiet-new_runtime : Quiet new_runtime
  unfolding new_runtime
  Quiet-new_runtime = search reads

  Quiet-build_options : (opts : ImbhOpenOptions) (b : eng.DbBuilder) → Quiet (build_options opts b)
  unfolding build_options
  Quiet-build_options opts b = search (reads, Quiet-read_promote_keys)

  Quiet-with_options :
      (opts : Option ImbhOpenOptions) (b : eng.DbBuilder) → Quiet (with_options opts b)
  unfolding with_options
  Quiet-with_options none b = Quiet-pure b
  Quiet-with_options (some opts) b = Quiet-build_options opts b

  Commits-open_into : (out : Ptr) (b : eng.DbBuilder) → Commits (open_into out b)
  unfolding open_into
  Commits-open_into out b = search (atomic_rules, Quiet-new_runtime) depth 20

  run_open-Atomic : (call : OpenCall) (out : Ptr) → Atomic (run_open call out)
  unfolding run_open imbh_db_open_memory imbh_db_open imbh_db_open_read_only
  run_open-Atomic in_memory out = search (atomic_rules, Commits-open_into) depth 20
  run_open-Atomic (on_disk path opts) out =
      search (atomic_rules, Quiet-with_options, Commits-open_into) depth 20
  run_open-Atomic (read_only path) out = search (atomic_rules, Commits-open_into) depth 20

  -- Any of the three opens that returns an error code has boxed no handle and written nothing to
  -- the memory that it shares with the caller, the out-parameter included.
  pub run_open-undone :
      (call : OpenCall) (out : Ptr) (w : World) {c : ImbhError}
      → (run_open call out w).0 ≡ value c
      → c ≢ success
      → (run_open call out w).1.store.mem ≡ w.store.mem
  run_open-undone call out w h ne = (run_open-Atomic call out).undone w h ne
