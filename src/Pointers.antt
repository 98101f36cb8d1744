-- ===== src/Pointers.antt =====
-- The pointer helpers of src/lib.rs and src/query.rs: what an entry point reads from its raw
-- arguments before it calls the engine.
pub mod Reads
pub mod Live
pub mod Arrays
pub mod Bytes
use imbh_c.Common.{
  ℕ, Text, ◌&&◌, ◌||◌, not, Option, none, some, List, [], ◌∷◌, ◌++◌, ltb, leb, ◌==◌, if◌then◌else◌,
  String, codes, length, take,
}
use imbh_c.Common.Utf8.{is_utf8}
use imbh_c.Engine.{Engine}
use imbh_c.Types.Ffi.{Ptr, null, ImbhBytes}
use imbh_c.Memory.{
  CallError, Action, Call, pure, throw, fault, ◌>>=◌, ◌>>◌, reject_if, View, ImbhDb, db_view,
  str_view, ptrs_view, bytes_view, deref, as_ref, alloc, take_back,
}
use imbh_c.Error.{Extern, unguarded}

-- `(p, len).len == 0` and a dangling pointer: what an empty boxed slice points to.
abbrev dangling : Ptr
dangling = 1

module _ ⦃eng : Engine⦄ where
  -- `Err(CallError::InvalidArg(msg.into()))`
  abbrev pub invalid : String → CallError
  invalid msg = CallError.invalid_arg (codes msg)

  -- `o.ok_or_else(|| e)?`
  unfoldable pub ok_or : {A : Type 0} → CallError → Option A → Call A
  unfolding throw pure
  ok_or e none s = throw e s
  ok_or e (some a) s = pure a s

  unfoldable pub handle : Ptr → Call ImbhDb
  unfolding as_ref ok_or
  handle p = do h ← as_ref db_view p; ok_or (invalid "null imbh_db handle") h

  unfoldable pub cstr : Ptr → Call Text
  unfolding deref ◌>>=◌
  cstr p = do
    reject_if (p == null) (invalid "null string pointer")
    bytes ← deref str_view p
    reject_if (not (is_utf8 bytes)) (invalid "string is not valid UTF-8")
    pure bytes

  -- `slice::from_raw_parts(p, len)`: the first `len` items of an array at least that long.
  unfoldable pub from_raw_parts : {E A : Type 0} → View (List A) → Ptr → ℕ → Action E (List A)
  unfolding deref ◌>>=◌
  from_raw_parts v p len = do
    items ← deref v p
    (if leb len (length items) then pure (take len items) else fault)

  unfoldable pub bytes : Ptr → ℕ → Call (List ℕ)
  unfolding from_raw_parts
  bytes p len =
      if len == 0
      then pure []
      else do reject_if (p == null) (invalid "null buffer pointer"); from_raw_parts bytes_view p len

  -- `unsafe { cstr(p) }?.to_owned()`
  unfoldable pub read_str : Ptr → Call Text
  unfolding cstr
  read_str p = cstr p

  -- `for &p in items { out.push(read_str(p)?) }`
  unfoldable pub push_strs : List Text → List Ptr → Call (List Text)
  unfolding read_str ◌>>=◌
  push_strs out [] = pure out
  push_strs out (p ∷ items) = read_str p >>= λ t. push_strs (out ++ (t ∷ [])) items

  unfoldable pub read_str_array : Ptr → ℕ → Call (List Text)
  unfolding push_strs from_raw_parts
  read_str_array ptr n = if n == 0 then pure [] else do
    reject_if (ptr == null) (invalid "null values array")
    items ← from_raw_parts ptrs_view ptr n
    push_strs [] items

  unfoldable pub read_promote_keys : Ptr → ℕ → Call (List Text)
  unfolding push_strs from_raw_parts
  read_promote_keys ptr n =
      if (n == 0) || (ptr == null)
      then pure []
      else do items ← from_raw_parts ptrs_view ptr n; push_strs [] items

  -- `builder_mut!` and the `ok_or_else` of the query entry points.
  unfoldable pub builder_ref : {A : Type 0} → View A → String → Ptr → Call A
  unfolding as_ref ok_or
  builder_ref v null_message p = do q ← as_ref v p; ok_or (invalid null_message) q

  unfoldable pub make_bytes : {E : Type 0} → List ℕ → Action E ImbhBytes
  unfolding alloc ◌>>=◌
  make_bytes [] s = pure (record { bytes = dangling; len = 0 }) s
  make_bytes (b ∷ v) s =
      (alloc bytes_view (b ∷ v) >>= λ p. pure (record { bytes = p; len = length (b ∷ v) })) s

  -- `drop(Box::from_raw(slice_from_raw_parts_mut(data, len)))`: the allocation has that length.
  unfoldable pub drop_slice : Ptr → ℕ → Action ⊥ (Unit {0})
  unfolding take_back ◌>>=◌
  drop_slice p len = do v ← take_back bytes_view p; (if length v == len then pure tt else fault)

  unfoldable pub imbh_bytes_free : ImbhBytes → Extern (Unit {0})
  unfolding drop_slice
  imbh_bytes_free buf =
      unguarded
        (if not (buf.bytes == null) && ltb 0 buf.len then drop_slice buf.bytes buf.len else pure tt)
