-- ===== src/Query/Builders/Life.antt =====
-- A query builder from the call that makes it to the one that frees it (src/query.rs).
use imbh_c.Common.{◌≡◌, arith}
use imbh_c.Engine.{Engine}
use imbh_c.Types.Ffi.{Ptr}
use imbh_c.Memory.{View, update, peek, alloc}
use imbh_c.Error.{World, value, unguarded}
use imbh_c.Pointers.Live.{Live}
use imbh_c.Query.Builders.{new_builder}

module _ ⦃eng : Engine⦄ {A : Type 0} (v : View A) (a : A) where
  pub new_builder-Live :
      (w : World) {w' : World} {p : Ptr} → new_builder v a w ≡ (value p, w') → Live v w'.store p a
  unfolding new_builder unguarded alloc peek update
  new_builder-Live w e =
      let rw_a = v.read-wrap a in
      record { not_null = ground (arith, e); holds = ground (arith, e, rw_a) }
