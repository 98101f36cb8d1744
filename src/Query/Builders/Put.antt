-- ===== src/Query/Builders/Put.antt =====
-- What a setter of a builder does on a live builder, by the number of strings that it reads.
use imbh_c.Common.{ℕ, List, Text, String, ◌≡◌, some}
use imbh_c.Engine.{Engine}
use imbh_c.Types.Ffi.{Ptr}
use imbh_c.Memory.{ok, View, store, update, ◌>>=◌}
use imbh_c.Memory.Steps.{step}
use imbh_c.Error.{World, value, success, guard, clear_last_error}
use imbh_c.Error.Laws.{guard-ok}
use imbh_c.Pointers.{read_str, read_str_array, builder_ref}
use imbh_c.Pointers.Live.{Live, builder_ref-live, store-live}
use imbh_c.Pointers.Arrays.{Str, read_str-Str}

module _ ⦃eng : Engine⦄ where
  -- The world with another value in the builder, after a call that succeeded.
  abbrev pub edited : {A : Type 0} → View A → Ptr → A → World → World
  edited v q a w =
      clear_last_error
        (record w { store = record w.store { mem = update w.store.mem q (some (v.wrap a)) } })

module _ ⦃eng : Engine⦄ {A : Type 0} {v : View A} where
  pub put :
      (msg : String) (f : A → A) (q : Ptr) (w : World) {a : A}
      → Live v w.store q a
      → guard (builder_ref v msg q >>= λ b. store v q (f b)) w ≡ (value success, edited v q (f a) w)
  put msg f q w l = guard-ok _ w (step _ _ (builder_ref-live l msg) (store-live l _))

  pub put_one :
      (msg : String) (f : A → Text → A) (q : Ptr) (w : World) {a : A} {p : Ptr} {t : Text}
      → Live v w.store q a
      → Str w.store p t
      → guard (builder_ref v msg q >>= λ b. read_str p >>= λ x. store v q (f b x)) w
        ≡ (value success, edited v q (f a t) w)
  put_one msg f q w l r =
      guard-ok _ w (step _ _ (builder_ref-live l msg) (step _ _ (read_str-Str r) (store-live l _)))

  pub put_two :
      (msg : String) (f : A → Text → Text → A) (q : Ptr) (w : World) {a : A} {p p' : Ptr}
      {t t' : Text}
      → Live v w.store q a
      → Str w.store p t
      → Str w.store p' t'
      → guard
          (builder_ref v msg q >>= λ b.
            read_str p >>= λ x. read_str p' >>= λ y. store v q (f b x y))
          w
        ≡ (value success, edited v q (f a t t') w)
  put_two msg f q w l r r' = guard-ok _ w (
      step _ _ (builder_ref-live l msg)
        (step _ _ (read_str-Str r) (step _ _ (read_str-Str r') (store-live l _))))

  pub put_array :
      (msg : String) (f : A → Text → List Text → A) (q : Ptr) (w : World) (vs : Ptr) (n : ℕ) {a : A}
      {p : Ptr} {t : Text} {ts : List Text}
      → Live v w.store q a
      → Str w.store p t
      → read_str_array vs n w.store ≡ (ok ts, w.store)
      → guard
          (builder_ref v msg q >>= λ b.
            read_str p >>= λ x. read_str_array vs n >>= λ y. store v q (f b x y))
          w
        ≡ (value success, edited v q (f a t ts) w)
  put_array msg f q w vs n l r e =
      guard-ok _ w (
        step _ _ (builder_ref-live l msg) (step _ _ (read_str-Str r) (step _ _ e (store-live l _))))
