-- ===== src/Memory/Body.antt =====
-- The body of an entry point: it reads and changes the store, and ends in a value, an error, a
-- panic or undefined behaviour.
use imbh_c.Common.{suc, Text, Bool, true, false, Option, none, some, ◌==◌, if◌then◌else◌}
use imbh_c.Engine.{Engine}
use imbh_c.Types.Imbh.{Reply, done, failed, unwound, Payload, Async}
use imbh_c.Types.Ffi.{Ptr, null}
use imbh_c.Memory.Cells.{Cell, View}

module _ ⦃eng : Engine⦄ where
  -- `last` is the last address that was given out.
  pub record Store : Type 0 where
    pub mem : Ptr → Option Cell
    pub last : Ptr
    pub engine : eng.State

  -- `CallError` of src/error.rs
  pub data CallError : Type 0 where
    imbh : eng.Error → CallError
    invalid_arg : Text → CallError
    query : Text → CallError

pub data Outcome (E A : Type 0) : Type 0 where
  ok : A → Outcome E A
  err : E → Outcome E A
  panic : Payload → Outcome E A
  undefined : Outcome E A

module _ ⦃eng : Engine⦄ where
  abbrev pub Action : Type 0 → Type 0 → Type 0
  Action E A = Store → Outcome E A × Store

  -- `Result<A, CallError>`
  abbrev pub Call : Type 0 → Type 0
  Call A = Action CallError A

  unfoldable pub pure : {E A : Type 0} → A → Action E A
  pure a s = (ok a, s)

  unfoldable pub throw : {E A : Type 0} → E → Action E A
  throw e s = (err e, s)

  unfoldable pub fault : {E A : Type 0} → Action E A
  fault s = (undefined, s)

  abbrev pub and_then :
      {E A B : Type 0} → Outcome E A × Store → (A → Action E B) → Outcome E B × Store
  and_then (ok a, s) k = k a s
  and_then (err e, s) k = (err e, s)
  and_then (panic p, s) k = (panic p, s)
  and_then (undefined, s) k = (undefined, s)

  -- `if test { return Err(e); }`
  unfoldable pub reject_if : {E : Type 0} → Bool → E → Action E (Unit {0})
  reject_if test e s = (if test then err e else ok tt, s)

  -- A call of the engine, its error mapped by `f` (`?` with `From`, or `map_err`).
  abbrev pub ended : {E X A : Type 0} → (X → E) → Reply X A → Outcome E A
  ended f (done a) = ok a
  ended f (failed x) = err (f x)
  ended f (unwound p) = panic p

  unfoldable pub compute : {E X A : Type 0} → (X → E) → Reply X A → Action E A
  compute f r s = (ended f r, s)

  -- The `?` operator.
  infixl 5 ◌>>=◌ ◌>>◌
  unfoldable pub ◌>>=◌ : {E A B : Type 0} → Action E A → (A → Action E B) → Action E B
  unfolding pure throw fault reject_if compute
  ◌>>=◌ m k s = and_then (m s) k

  abbrev pub ◌>>◌ : {E A B : Type 0} → Action E A → Action E B → Action E B
  m >> k = m >>= λ _. k

  unfoldable pub block_on : {E X A : Type 0} → (X → E) → Async eng.State X A → Action E A
  block_on f m s = (ended f (m s.engine).0, record s { engine = (m s.engine).1 })

  -- A change of the engine alone, such as a `drop`.
  unfoldable pub drop_in : {E : Type 0} → (eng.State → eng.State) → Action E (Unit {0})
  drop_in f s = (ok tt, record s { engine = f s.engine })

  unfoldable pub update : (Ptr → Option Cell) → Ptr → Option Cell → Ptr → Option Cell
  update m p c q = if q == p then c else m q

  -- What a pointer names, if it names an object of this kind.
  unfoldable pub peek : {A : Type 0} → View A → Store → Ptr → Option A
  peek v s p = elim (s.mem p) [ none ↦ none | some c ↦ v.read c ]

  -- `&*p`
  unfoldable pub deref : {E A : Type 0} → View A → Ptr → Action E A
  unfolding peek
  deref v p s = elim (peek v s p) [ none ↦ (undefined, s) | some a ↦ (ok a, s) ]

  -- `p.as_ref()` and `p.as_mut()`
  unfoldable pub as_ref : {E A : Type 0} → View A → Ptr → Action E (Option A)
  unfolding deref ◌>>=◌
  as_ref v p s = elim (p == null) [
    | true ↦ (ok none, s)
    | false ↦ (deref v p >>= λ a. pure (some a)) s
  ]

  -- `*p = a` and `ptr::write(p, a)`
  unfoldable pub store : {E A : Type 0} → View A → Ptr → A → Action E (Unit {0})
  unfolding peek update
  store v p a s = elim (peek v s p) [
    | none ↦ (undefined, s)
    | some _ ↦ (ok tt, record s { mem = update s.mem p (some (v.wrap a)) })
  ]

  -- `Box::into_raw(Box::new(a))`: a new address, which is not null.
  unfoldable pub alloc : {E A : Type 0} → View A → A → Action E Ptr
  unfolding update
  alloc v a s = (
    ok (suc s.last),
    record s { mem = update s.mem (suc s.last) (some (v.wrap a)); last = suc s.last },
  )

  -- `drop(Box::from_raw(p))`, which hands out what was there.
  unfoldable pub take_back : {E A : Type 0} → View A → Ptr → Action E A
  unfolding peek update
  take_back v p s = elim (peek v s p) [
    | none ↦ (undefined, s)
    | some a ↦ (ok a, record s { mem = update s.mem p none })
  ]

  -- `m.map_err(f)`
  unfoldable pub map_err : {E F A : Type 0} → (E → F) → Action E A → Action F A
  map_err f m s = elim (m s).0 [
    | ok a ↦ (ok a, (m s).1)
    | err e ↦ (err (f e), (m s).1)
    | panic p ↦ (panic p, (m s).1)
    | undefined ↦ (undefined, (m s).1)
  ]

  -- Run `m` while a local value is held whose `drop` is `f`: it is dropped if `m` does not return.
  unfoldable pub holding : {E A : Type 0} → (eng.State → eng.State) → Action E A → Action E A
  holding f m s = elim (m s).0 [
    | ok a ↦ (ok a, (m s).1)
    | err e ↦ (err e, record (m s).1 { engine = f (m s).1.engine })
    | panic p ↦ (panic p, record (m s).1 { engine = f (m s).1.engine })
    | undefined ↦ (undefined, (m s).1)
  ]

  -- `if !p.is_null() { *p = a; }`
  unfoldable pub store_if : {E A : Type 0} → View (Option A) → Ptr → A → Action E (Unit {0})
  unfolding store pure
  store_if v p a = if p == null then pure tt else store v p (some a)
