-- ===== src/Memory/Steps.antt =====
-- Running a body step by step: each action that returns hands its value and store to the rest.
use imbh_c.Common.{Bool, false, ◌≡◌, ◌∙◌, ap, arith}
use imbh_c.Engine.{Engine}
use imbh_c.Types.Imbh.{Reply, done, Async}
use imbh_c.Memory.Body.{
  Store, Outcome, ok, err, Action, and_then, ◌>>=◌, compute, block_on, reject_if, ended,
}

module _ ⦃eng : Engine⦄ where
  module _ {E A B : Type 0} (m : Action E A) (k : A → Action E B) {s s' : Store}
      {r : Outcome E B × Store} where
    pub step : {a : A} → m s ≡ (ok a, s') → k a s' ≡ r → (m >>= k) s ≡ r
    unfolding ◌>>=◌
    step e rest = ap (λ x. and_then x k) e ∙ rest

    pub stop : {e : E} → m s ≡ (err e, s') → (err e, s') ≡ r → (m >>= k) s ≡ r
    unfolding ◌>>=◌
    stop e rest = ap (λ x. and_then x k) e ∙ rest

  pub reject_if-false :
      {E : Type 0} {b : Bool} (e : E) (s : Store) → b ≡ false → reject_if b e s ≡ (ok tt, s)
  unfolding reject_if
  reject_if-false e s h = ground arith

  module _ {E X A : Type 0} where
    pub compute-done :
        (f : X → E) {m : Reply X A} {a : A} (s : Store) → m ≡ done a → compute f m s ≡ (ok a, s)
    unfolding compute
    compute-done f s h = ap (λ r. (ended f r, s)) h

    pub block_on-done :
        (f : X → E) (m : Async eng.State X A) {a : A} {st : eng.State} (s : Store)
        → m s.engine ≡ (done a, st)
        → block_on f m s ≡ (ok a, record s { engine = st })
    unfolding block_on
    block_on-done f m s h = ap (λ r. (ended f r.0, record s { engine = r.1 })) h
