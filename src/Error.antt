-- ===== src/Error.antt =====
-- src/error.rs: the error codes, the thread-local last error, and `guard`.
pub mod Laws
pub mod Message
use imbh_c.Common.{ℕ, Text, Option, none, some, ◌++◌, ◌==◌, if◌then◌else◌, codes}
use imbh_c.Common.Utf8.{replace_nul, has_nul}
use imbh_c.Engine.{Engine}
use imbh_c.Types.Imbh.{Payload, str_ref, string, opaque, Category}
use imbh_c.Memory.{Store, CallError, Outcome, ok, err, Action, Call}

-- `imbh_error`
pub data ImbhError : Type 0 where
  success invalid_arg panic not_found backpressure opening ingest query storage config closed :
      ImbhError

-- What the C caller sees: a value, an abort of the process, or undefined behaviour.
pub data Return (A : Type 0) : Type 0 where
  value : A → Return A
  aborted : Return A
  undefined : Return A

-- `CString::new(cleaned).unwrap_or_else(|_| CString::new("error").unwrap())`: the bytes before the
-- NUL.
c_string_or : Text → Text → Text
c_string_or fallback bytes = if has_nul bytes then fallback else bytes

-- The message that `set_last_error` keeps.
unfoldable pub stored_message : Text → Text
unfolding c_string_or
stored_message msg = c_string_or (codes "error") (replace_nul msg)

unfoldable pub panic_message : Payload → Text
panic_message (str_ref s) = s
panic_message (string s) = s
panic_message opaque = codes "unknown panic"

module _ ⦃eng : Engine⦄ where
  -- The process: the store, the thread that calls, and each thread's `LAST_ERROR`.
  pub record World : Type 0 where
    pub store : Store
    pub thread : ℕ
    pub last_error : ℕ → Option Text

  abbrev pub Extern : Type 0 → Type 0
  Extern A = World → Return A × World

  unfoldable pub put_last_error : Option Text → World → World
  put_last_error m w = record w { last_error = λ t. if t == w.thread then m else w.last_error t }

  unfoldable pub set_last_error : Text → World → World
  unfolding stored_message put_last_error
  set_last_error msg w = put_last_error (some (stored_message msg)) w

  unfoldable pub clear_last_error : World → World
  unfolding put_last_error
  clear_last_error w = put_last_error none w

  -- `NULL`, or the bytes of the C string.
  unfoldable pub imbh_last_error_message : Extern (Option Text)
  imbh_last_error_message w = (value (w.last_error w.thread), w)

  unfoldable pub of_category : Category → ImbhError
  of_category Category.opening = ImbhError.opening
  of_category Category.ingest = ImbhError.ingest
  of_category Category.query = ImbhError.query
  of_category Category.storage = ImbhError.storage
  of_category Category.config = ImbhError.config
  of_category Category.closed = ImbhError.closed
  of_category Category.other = ImbhError.storage

  unfoldable pub classify : eng.Error → ImbhError
  unfolding of_category
  classify e =
      if eng.is_backpressure e
      then backpressure
      else if eng.is_not_found e
      then not_found
      else of_category (eng.category e)

  -- How `guard` translates what the closure came to.
  unfoldable pub settle : Outcome CallError (Unit {0}) → World → Return ImbhError × World
  unfolding classify set_last_error clear_last_error panic_message
  settle (ok _) w = (value success, clear_last_error w)
  settle (err (CallError.invalid_arg msg)) w = (value ImbhError.invalid_arg, set_last_error msg w)
  settle (err (CallError.query msg)) w = (value ImbhError.query, set_last_error msg w)
  settle (err (CallError.imbh e)) w = (value (classify e), set_last_error (eng.error_to_string e) w)
  settle (Outcome.panic p) w =
      (value ImbhError.panic, set_last_error (codes "panic: " ++ panic_message p) w)
  settle Outcome.undefined w = (Return.undefined, w)

  unfoldable pub guard : Call (Unit {0}) → Extern ImbhError
  unfolding settle
  guard f w = settle (f w.store).0 (record w { store = (f w.store).1 })

  -- A body outside `guard`, which has no error to return. A panic at the boundary of an
  -- `extern "C"` function aborts the process.
  unfoldable pub unguarded : {A : Type 0} → Action ⊥ A → Extern A
  unguarded f w = elim (f w.store).0 [
    | ok a ↦ (value a, record w { store = (f w.store).1 })
    | err e ↦ absurd e
    | Outcome.panic p ↦ (aborted, record w { store = (f w.store).1 })
    | Outcome.undefined ↦ (Return.undefined, record w { store = (f w.store).1 })
  ]
