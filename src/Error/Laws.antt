-- ===== src/Error/Laws.antt =====
-- What `guard` promises the C caller.
use mathlib.Core.Path.{subst}
use imbh_c.Common.{
  ℕ, Text, true, false, Option, none, some, ◌≡◌, refl, ◌≢◌, ap, ◌↔◌, ◌⊎◌, ◌++◌, arith, codes,
}
use imbh_c.Common.Utf8.{replace_nul, has_nul, has_nul-replace_nul}
use imbh_c.Engine.{Engine}
use imbh_c.Types.Imbh.{Category}
use imbh_c.Types.Ffi.{Ptr}
use imbh_c.Memory.{CallError, Store, Outcome, ok, err, panic, undefined, Call, Cell}
use imbh_c.Memory.Commits.{Commits, Fails}
use imbh_c.Error.{
  ImbhError, success, backpressure, not_found, value, World, stored_message, set_last_error,
  clear_last_error, of_category, classify, settle, guard, panic_message,
}

-- The fallback of `set_last_error` is never taken.
pub stored_message-eq-replace_nul : (msg : Text) → stored_message msg ≡ replace_nul msg
unfolding stored_message
stored_message-eq-replace_nul msg = ground (arith, has_nul-replace_nul msg)

-- A message that the thread can read back as a C string.
abbrev pub IsReadable : Option Text → Type 0
IsReadable m = (t : Text) × (m ≡ some t) × (has_nul t ≡ false)

abbrev pub Reports : ImbhError → Option Text → Type 0
Reports success m = m ≡ none
Reports _ m = IsReadable m

Reports-failed : {c : ImbhError} {m : Option Text} → c ≢ success → IsReadable m → Reports c m
Reports-failed {c = success} ne r = absurd (ne refl)
Reports-failed {c = ImbhError.invalid_arg} ne r = r
Reports-failed {c = _} ne r = r

as_reported : (d : ImbhError) {c : ImbhError} (m : Option Text) → d ≡ c → Reports d m → Reports c m
as_reported d m e r = subst (λ k. Reports k m) e r

module _ ⦃eng : Engine⦄ where
  of_category-apart :
      (c : Category)
      → (of_category c ≢ success) × (of_category c ≢ backpressure) × (of_category c ≢ not_found)
  unfolding of_category
  of_category-apart Category.opening = (λ h. cc, λ h. cc, λ h. cc)
  of_category-apart _ = (λ h. cc, λ h. cc, λ h. cc)

  pub classify-ne-success : (e : eng.Error) → classify e ≢ success
  unfolding classify
  classify-ne-success e = ground (arith, of_category-apart (eng.category e))

  pub last_error-set :
      (msg : Text) (w : World) → (set_last_error msg w).last_error w.thread ≡ some (replace_nul msg)
  unfolding set_last_error
  last_error-set msg w = ground (arith, has_nul-replace_nul msg)

  last_error-clear : (w : World) → (clear_last_error w).last_error w.thread ≡ none
  unfolding clear_last_error
  last_error-clear w = ground arith

  IsReadable-set :
      (msg : Text) (w : World) → IsReadable ((set_last_error msg w).last_error w.thread)
  IsReadable-set msg w = (replace_nul msg, last_error-set msg w, has_nul-replace_nul msg)

  settle-Reports :
      (r : Outcome CallError (Unit {0})) (w : World) {c : ImbhError}
      → (settle r w).0 ≡ value c
      → Reports c ((settle r w).1.last_error w.thread)
  unfolding settle
  settle-Reports (ok x) w h =
      as_reported success ((clear_last_error w).last_error w.thread) (cc) (last_error-clear w)
  settle-Reports (err (CallError.invalid_arg msg)) w h =
      as_reported ImbhError.invalid_arg ((set_last_error msg w).last_error w.thread) (cc)
        (IsReadable-set msg w)
  settle-Reports (err (CallError.query msg)) w h =
      as_reported ImbhError.query ((set_last_error msg w).last_error w.thread) (cc)
        (IsReadable-set msg w)
  settle-Reports (err (CallError.imbh e)) w h =
      as_reported (classify e) ((set_last_error (eng.error_to_string e) w).last_error w.thread) (cc)
        (Reports-failed (classify-ne-success e) (IsReadable-set (eng.error_to_string e) w))
  settle-Reports (panic p) w h =
      as_reported ImbhError.panic
        ((set_last_error (codes "panic: " ++ panic_message p) w).last_error w.thread) (cc)
        (IsReadable-set (codes "panic: " ++ panic_message p) w)
  settle-Reports undefined w h = cc

  -- A call that returned success has cleared the calling thread's message; one that returned any
  -- other code has left a message there that holds no NUL byte.
  pub guard-Reports :
      (f : Call (Unit {0})) (w : World) {c : ImbhError}
      → (guard f w).0 ≡ value c
      → Reports c ((guard f w).1.last_error w.thread)
  unfolding guard
  guard-Reports f w h = settle-Reports (f w.store).0 (record w { store = (f w.store).1 }) h

  settle_catches :
      (r : Outcome CallError (Unit {0})) (w : World)
      → (r ≢ undefined → (c : ImbhError) × ((settle r w).0 ≡ value c))
        × (((settle r w).0 ≡ value success) ↔ (r ≡ ok tt))
  unfolding settle
  settle_catches (ok x) w = (λ _. (success, refl), (λ _. refl, λ _. refl))
  settle_catches (err (CallError.imbh e)) w =
      (λ _. (classify e, refl), (λ h. absurd (classify-ne-success e (cc)), λ h. cc))
  settle_catches (err (CallError.invalid_arg m)) w =
      (λ _. (ImbhError.invalid_arg, refl), (λ h. cc, λ h. cc))
  settle_catches (err (CallError.query m)) w = (λ _. (ImbhError.query, refl), (λ h. cc, λ h. cc))
  settle_catches (panic p) w = (λ _. (ImbhError.panic, refl), (λ h. cc, λ h. cc))
  settle_catches undefined w = (λ h. absurd (h refl), (λ h. cc, λ h. cc))

  -- `guard` returns a code if the body's behaviour is defined: no panic and no error leaves it
  -- another way, and the code is success exactly when the body returned `Ok`.
  pub guard_catches :
      (f : Call (Unit {0})) (w : World)
      → (f w.store).0 ≢ undefined
      → ((c : ImbhError) × ((guard f w).0 ≡ value c))
        × (((guard f w).0 ≡ value success) ↔ ((f w.store).0 ≡ ok tt))
  unfolding guard
  guard_catches f w d =
      let both = settle_catches (f w.store).0 (record w { store = (f w.store).1 }) in
      (both.0 d, both.1)

  settle_frame :
      (r : Outcome CallError (Unit {0})) (w : World) (t : ℕ)
      → t ≢ w.thread
      → ((settle r w).1.last_error t ≡ w.last_error t)
        × ((settle r w).1.store ≡ w.store)
        × ((settle r w).1.thread ≡ w.thread)
  unfolding settle
  settle_frame (ok x) w t ne = (ground arith, refl, refl)
  settle_frame (err (CallError.imbh e)) w t ne = (ground arith, refl, refl)
  settle_frame (err (CallError.invalid_arg m)) w t ne = (ground arith, refl, refl)
  settle_frame (err (CallError.query m)) w t ne = (ground arith, refl, refl)
  settle_frame (panic p) w t ne = (ground arith, refl, refl)
  settle_frame undefined w t ne = (refl, refl, refl)

  -- The other threads keep their messages, and the thread and the store are as the body left them.
  pub guard_frame :
      (f : Call (Unit {0})) (w : World) (t : ℕ)
      → t ≢ w.thread
      → ((guard f w).1.last_error t ≡ w.last_error t)
        × ((guard f w).1.store ≡ (f w.store).1)
        × ((guard f w).1.thread ≡ w.thread)
  unfolding guard
  guard_frame f w t ne = settle_frame (f w.store).0 (record w { store = (f w.store).1 }) t ne

  -- An engine error is never success. It is backpressure exactly when the engine says so, not-found
  -- exactly when the engine says that and does not say backpressure, and in all other cases the code
  -- of its category.
  pub classify_order :
      (e : eng.Error)
      → (classify e ≢ success)
        × ((classify e ≡ backpressure) ↔ (eng.is_backpressure e ≡ true))
        × ((classify e ≡ not_found)
            ↔ ((eng.is_backpressure e ≡ false) × (eng.is_not_found e ≡ true)))
        × ((eng.is_backpressure e ≡ true)
            ⊎ ((eng.is_not_found e ≡ true) ⊎ (classify e ≡ of_category (eng.category e))))
  unfolding classify
  classify_order e =
      let apart = of_category-apart (eng.category e) in
      (
        classify-ne-success e,
        (λ h. ground (arith, apart), λ h. ground arith),
        (λ h. ground (arith, apart), λ h. ground arith),
        ground arith,
      )

  settle-mem :
      (r : Outcome CallError (Unit {0})) (w : World) {c : ImbhError} {m : Ptr → Option Cell}
      → (settle r w).0 ≡ value c
      → c ≢ success
      → (Fails r → w.store.mem ≡ m)
      → (settle r w).1.store.mem ≡ m
  unfolding settle
  settle-mem (ok x) w h ne k = absurd (ne (cc))
  settle-mem (err (CallError.imbh e)) w h ne k = k tt
  settle-mem (err (CallError.invalid_arg m)) w h ne k = k tt
  settle-mem (err (CallError.query m)) w h ne k = k tt
  settle-mem (panic p) w h ne k = k tt
  settle-mem undefined w h ne k = cc

  pub guard-ok :
      (f : Call (Unit {0})) {s : Store} (w : World)
      → f w.store ≡ (ok tt, s)
      → guard f w ≡ (value success, clear_last_error (record w { store = s }))
  unfolding guard
  guard-ok f w e = ap (λ r. settle r.0 (record w { store = r.1 })) e

  pub guard-invalid_arg :
      (f : Call (Unit {0})) {s : Store} (w : World) {msg : Text}
      → f w.store ≡ (err (CallError.invalid_arg msg), s)
      → guard f w ≡ (value ImbhError.invalid_arg, set_last_error msg (record w { store = s }))
  unfolding guard
  guard-invalid_arg f w e = ap (λ r. settle r.0 (record w { store = r.1 })) e

  -- A body that commits: an error code means that the memory is as it was.
  pub guard-Commits :
      {f : Call (Unit {0})} (w : World) {c : ImbhError}
      → Commits f
      → (guard f w).0 ≡ value c
      → c ≢ success
      → (guard f w).1.store.mem ≡ w.store.mem
  unfolding guard
  guard-Commits {f} w q h ne =
      settle-mem (f w.store).0 (record w { store = (f w.store).1 }) h ne (q.undone w.store)
