-- ===== src/Memory/Commits.antt =====
-- Bodies that write to the caller's memory only when they succeed.
-- `Quiet`: the memory is the same after the body, however it ends. `Sure`: the body ends neither in
-- an error nor in a panic. `Commits`: if it does end in one, the memory is as it was.
use imbh_c.Common.{Bool, true, false, ◌≡◌, refl, ◌∙◌, if◌then◌else◌, arith, Option, some, ◌==◌}
use imbh_c.Engine.{Engine}
use imbh_c.Types.Imbh.{Reply}
use imbh_c.Types.Ffi.{Ptr, null}
use imbh_c.Memory.Cells.{View}
use imbh_c.Memory.Body.{
  Store, Outcome, ok, err, panic, undefined, Action, pure, throw, fault, and_then, ◌>>=◌, compute,
  reject_if, block_on, deref, as_ref, store, alloc, map_err, holding, store_if,
}

abbrev pub Fails : {E A : Type 0} → Outcome E A → Type 0
Fails (err e) = Unit
Fails (panic p) = Unit
Fails _ = ⊥

module _ ⦃eng : Engine⦄ where
  pub record Quiet {E A : Type 0} (m : Action E A) : Type 0 where
    pub same : (s : Store) → (m s).1.mem ≡ s.mem

  pub record Sure {E A : Type 0} (m : Action E A) : Type 0 where
    pub never : (s : Store) → ¬ Fails (m s).0

  pub record Commits {E A : Type 0} (m : Action E A) : Type 0 where
    pub undone : (s : Store) → Fails (m s).0 → (m s).1.mem ≡ s.mem

  module _ {E A : Type 0} where
    pub Commits-Quiet : {m : Action E A} → Quiet m → Commits m
    Commits-Quiet q = record { undone = λ s f. q.same s }

    pub Commits-Sure : {m : Action E A} → Sure m → Commits m
    Commits-Sure q = record { undone = λ s f. absurd (q.never s f) }

    pub Quiet-pure : (a : A) → Quiet (pure {E = E} a)
    unfolding pure
    Quiet-pure a = record { same = λ s. refl }

    pub Sure-pure : (a : A) → Sure (pure {E = E} a)
    unfolding pure
    Sure-pure a = record { never = λ s f. f }

    pub Quiet-throw : (e : E) → Quiet (throw {A = A} e)
    unfolding throw
    Quiet-throw e = record { same = λ s. refl }

    pub Quiet-fault : Quiet (fault {E = E} {A = A})
    unfolding fault
    Quiet-fault = record { same = λ s. refl }

    pub Sure-fault : Sure (fault {E = E} {A = A})
    unfolding fault
    Sure-fault = record { never = λ s f. f }

    pub Quiet-if : (b : Bool) {m n : Action E A} → Quiet m → Quiet n → Quiet (if b then m else n)
    Quiet-if true p q = p
    Quiet-if false p q = q

    pub Sure-if : (b : Bool) {m n : Action E A} → Sure m → Sure n → Sure (if b then m else n)
    Sure-if true p q = p
    Sure-if false p q = q

    pub Commits-if :
        (b : Bool) {m n : Action E A} → Commits m → Commits n → Commits (if b then m else n)
    Commits-if true p q = p
    Commits-if false p q = q

    pub Quiet-deref : (v : View A) (p : Ptr) → Quiet (deref {E = E} v p)
    unfolding deref
    Quiet-deref v p = record { same = λ s. ground arith }

    pub Quiet-as_ref : (v : View A) (p : Ptr) → Quiet (as_ref {E = E} v p)
    unfolding as_ref
    Quiet-as_ref v p = record { same = λ s. ground arith }

    pub Sure-store : (v : View A) (p : Ptr) (a : A) → Sure (store {E = E} v p a)
    unfolding store
    Sure-store v p a = record { never = λ s f. ground arith }

    pub Sure-alloc : (v : View A) (a : A) → Sure (alloc {E = E} v a)
    unfolding alloc
    Sure-alloc v a = record { never = λ s f. f }

    module _ {X : Type 0} where
      pub Quiet-compute : (f : X → E) (r : Reply X A) → Quiet (compute f r)
      unfolding compute
      Quiet-compute f r = record { same = λ s. refl }

      pub Quiet-block_on : (f : X → E) (m : _) → Quiet (block_on {A = A} f m)
      unfolding block_on
      Quiet-block_on f m = record { same = λ s. refl }

  pub Sure-store_if :
      {E A : Type 0} (v : View (Option A)) (p : Ptr) (a : A) → Sure (store_if {E = E} v p a)
  unfolding store_if
  Sure-store_if v p a = Sure-if (p == null) (Sure-pure tt) (Sure-store v p (some a))

  pub Quiet-map_err : {E F A : Type 0} (f : E → F) {m : Action E A} → Quiet m → Quiet (map_err f m)
  unfolding map_err
  Quiet-map_err f {m} q = record { same = λ s. ground (arith, q.same s) }

  pub Quiet-holding :
      {E A : Type 0} (f : eng.State → eng.State) {m : Action E A} → Quiet m → Quiet (holding f m)
  unfolding holding
  Quiet-holding f {m} q = record { same = λ s. ground (arith, q.same s) }

  pub Quiet-reject_if : {E : Type 0} (b : Bool) (e : E) → Quiet (reject_if b e)
  unfolding reject_if
  Quiet-reject_if b e = record { same = λ s. refl }

  module _ {E A B : Type 0} where
    Quiet-after :
        (r : Outcome E A) (s : Store) (k : A → Action E B)
        → ((a : A) → Quiet (k a))
        → (and_then (r, s) k).1.mem ≡ s.mem
    Quiet-after (ok a) s k q = (q a).same s
    Quiet-after (err e) s k q = refl
    Quiet-after _ s k q = refl

    pub Quiet-bind :
        {m : Action E A} {k : A → Action E B} → Quiet m → ((a : A) → Quiet (k a)) → Quiet (m >>= k)
    unfolding ◌>>=◌
    Quiet-bind {m} {k} p q = record { same = λ s. Quiet-after (m s).0 (m s).1 k q ∙ p.same s }

    Sure-after :
        (r : Outcome E A) (s : Store) (k : A → Action E B)
        → ¬ Fails r
        → ((a : A) → Sure (k a))
        → ¬ Fails (and_then (r, s) k).0
    Sure-after (ok a) s k p q f = (q a).never s f
    Sure-after (err e) s k p q f = p f
    Sure-after (panic e) s k p q f = p f
    Sure-after undefined s k p q f = f

    pub Sure-bind :
        {m : Action E A} {k : A → Action E B} → Sure m → ((a : A) → Sure (k a)) → Sure (m >>= k)
    unfolding ◌>>=◌
    Sure-bind {m} {k} p q = record { never = λ s. Sure-after (m s).0 (m s).1 k (p.never s) q }

    Commits-after :
        (r : Outcome E A) (s : Store) (k : A → Action E B)
        → ((a : A) → Commits (k a))
        → Fails (and_then (r, s) k).0
        → (and_then (r, s) k).1.mem ≡ s.mem
    Commits-after (ok a) s k q f = (q a).undone s f
    Commits-after (err e) s k q f = refl
    Commits-after _ s k q f = refl

    -- First read, then write.
    pub Commits-bind :
        {m : Action E A} {k : A → Action E B}
        → Quiet m
        → ((a : A) → Commits (k a))
        → Commits (m >>= k)
    unfolding ◌>>=◌
    Commits-bind {m} {k} p q = record {
      undone = λ s f. Commits-after (m s).0 (m s).1 k q f ∙ p.same s;
    }

pub ruleset reads = (
  Quiet-pure, Quiet-throw, Quiet-fault, Quiet-if, Quiet-deref, Quiet-as_ref, Quiet-compute,
  Quiet-block_on, Quiet-bind, Quiet-reject_if, Quiet-map_err, Quiet-holding,
)

pub ruleset writes =
    (Sure-pure, Sure-fault, Sure-if, Sure-store, Sure-store_if, Sure-alloc, Sure-bind)
