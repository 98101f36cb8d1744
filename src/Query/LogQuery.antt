-- ===== src/Query/LogQuery.antt =====
-- The `imbh_log_query_*` builder functions of src/query.rs.
use imbh_c.Common.{ℕ, some, [], ◌∷◌, ◌++◌}
use imbh_c.Common.Int.{ℤ}
use imbh_c.Engine.{Engine}
use imbh_c.Types.Proto
use imbh_c.Types.Discriminant
use imbh_c.Types.Ffi.{Ptr, ImbhDirection, ImbhNumOp}
use imbh_c.Memory.{◌>>=◌, store, log_view}
use imbh_c.Error.{Extern, ImbhError, guard}
use imbh_c.Pointers.{read_str, read_str_array, builder_ref}
use imbh_c.Query.Builders.{kv, new_builder, free_builder}

module _ ⦃eng : Engine⦄ where
  unfoldable pub new : Extern Ptr
  unfolding new_builder
  new = new_builder log_view Proto.log_query_default

  unfoldable pub free : Ptr → Extern (Unit {0})
  unfolding free_builder
  free = free_builder log_view

  unfoldable pub set_service : Ptr → Ptr → Extern ImbhError
  set_service q service = guard do
    b ← builder_ref log_view "null imbh_log_query" q
    service' ← read_str service
    store log_view q (record b { service = some service' })

  unfoldable pub set_min_severity : Ptr → ℕ → Extern ImbhError
  set_min_severity q min = guard do
    b ← builder_ref log_view "null imbh_log_query" q
    store log_view q (record b { min_severity = some min })

  unfoldable pub set_text : Ptr → Ptr → Extern ImbhError
  set_text q text = guard do
    b ← builder_ref log_view "null imbh_log_query" q
    text' ← read_str text
    store log_view q (record b { text = some text' })

  unfoldable pub set_range : Ptr → ℤ → ℤ → Extern ImbhError
  set_range q start end = guard do
    b ← builder_ref log_view "null imbh_log_query" q
    store log_view q (record b { range = some (record { start = start; end = end }) })

  unfoldable pub set_limit : Ptr → ℕ → Extern ImbhError
  set_limit q limit = guard do
    b ← builder_ref log_view "null imbh_log_query" q
    store log_view q (record b { limit = limit })

  unfoldable pub set_direction : Ptr → ImbhDirection → Extern ImbhError
  set_direction q direction = guard do
    b ← builder_ref log_view "null imbh_log_query" q
    store log_view q (record b { direction = Discriminant.direction direction })

  unfoldable pub set_offset : Ptr → ℕ → Extern ImbhError
  set_offset q offset = guard do
    b ← builder_ref log_view "null imbh_log_query" q
    store log_view q (record b { offset = offset })

  unfoldable pub add_attr_eq : Ptr → Ptr → Ptr → Extern ImbhError
  add_attr_eq q key value = guard do
    b ← builder_ref log_view "null imbh_log_query" q
    key' ← read_str key
    value' ← read_str value
    store log_view q (record b { attr_eq = b.attr_eq ++ (kv key' value' ∷ []) })

  unfoldable pub add_attr_exists : Ptr → Ptr → Extern ImbhError
  add_attr_exists q key = guard do
    b ← builder_ref log_view "null imbh_log_query" q
    key' ← read_str key
    store log_view q (record b { attr_exists = b.attr_exists ++ (key' ∷ []) })

  unfoldable pub add_attr_matches : Ptr → Ptr → Ptr → Extern ImbhError
  add_attr_matches q key value = guard do
    b ← builder_ref log_view "null imbh_log_query" q
    key' ← read_str key
    value' ← read_str value
    store log_view q (record b { attr_matches = b.attr_matches ++ (kv key' value' ∷ []) })

  unfoldable pub add_attr_regex : Ptr → Ptr → Ptr → Extern ImbhError
  add_attr_regex q key value = guard do
    b ← builder_ref log_view "null imbh_log_query" q
    key' ← read_str key
    value' ← read_str value
    store log_view q (record b { attr_regex = b.attr_regex ++ (kv key' value' ∷ []) })

  unfoldable pub add_attr_in : Ptr → Ptr → Ptr → ℕ → Extern ImbhError
  add_attr_in q key values n = guard do
    b ← builder_ref log_view "null imbh_log_query" q
    key' ← read_str key
    values' ← read_str_array values n
    store log_view q
        (record b { attr_in = b.attr_in ++ (record { key = key'; values = values' } ∷ []) })

  unfoldable pub add_attr_not_in : Ptr → Ptr → Ptr → ℕ → Extern ImbhError
  add_attr_not_in q key values n = guard do
    b ← builder_ref log_view "null imbh_log_query" q
    key' ← read_str key
    values' ← read_str_array values n
    store log_view q
        (record b { attr_not_in = b.attr_not_in ++ (record { key = key'; values = values' } ∷ []) })

  unfoldable pub add_attr_num : Ptr → Ptr → ImbhNumOp → eng.F64 → Extern ImbhError
  add_attr_num q key op value = guard do
    b ← builder_ref log_view "null imbh_log_query" q
    key' ← read_str key
    store log_view q (record b {
      attr_num =
          b.attr_num ++ (record { key = key'; op = Discriminant.num_op op; value = value } ∷ []);
    })
