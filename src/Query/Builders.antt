-- ===== src/Query/Builders.antt =====
-- What the five builders of src/query.rs share.
pub mod Caller
pub mod Life
pub mod Put
use imbh_c.Common.{Text, ◌==◌, if◌then◌else◌}
use imbh_c.Engine.{Engine}
use imbh_c.Types.Proto
use imbh_c.Types.Ffi.{Ptr}
use imbh_c.Memory.{View, alloc, take_back, pure, ◌>>=◌}
use imbh_c.Error.{Extern, unguarded}

abbrev pub kv : Text → Text → Proto.KeyValue
kv key value = record { key = key; value = value }

module _ ⦃eng : Engine⦄ where
  -- `Box::into_raw(Box::new(…))`
  unfoldable pub new_builder : {A : Type 0} → View A → A → Extern Ptr
  unfolding alloc unguarded
  new_builder v a = unguarded (alloc v a)

  -- `if !q.is_null() { drop(Box::from_raw(q)); }`
  unfoldable pub free_builder : {A : Type 0} → View A → Ptr → Extern (Unit {0})
  unfolding take_back pure ◌>>=◌ unguarded
  free_builder v q = unguarded (if q == 0 then pure tt else (take_back v q >>= λ _. pure tt))
