-- ===== src/Pointers/Reads.antt =====
-- The pointer helpers write nothing.
use imbh_c.Common.{ℕ, Text, List, [], ◌∷◌, ◌++◌, none, some, Option, String}
use imbh_c.Engine.{Engine}
use imbh_c.Types.Ffi.{Ptr}
use imbh_c.Memory.{CallError, View}
use imbh_c.Memory.Commits.{
  Quiet, Quiet-throw, Quiet-pure, Quiet-bind, reads, Sure, Sure-bind, Sure-pure, Sure-alloc,
}
use imbh_c.Pointers.{
  ok_or, handle, cstr, from_raw_parts, bytes, read_str, push_strs, read_str_array,
  read_promote_keys, builder_ref, make_bytes,
}

module _ ⦃eng : Engine⦄ where
  pub Quiet-ok_or : {A : Type 0} (e : CallError) (o : Option A) → Quiet (ok_or e o)
  unfolding ok_or
  Quiet-ok_or e none = Quiet-throw e
  Quiet-ok_or e (some a) = Quiet-pure a

  pub Quiet-handle : (p : Ptr) → Quiet (handle p)
  unfolding handle
  Quiet-handle p = search (reads, Quiet-ok_or)

  pub Quiet-builder_ref :
      {A : Type 0} (v : View A) (msg : String) (p : Ptr) → Quiet (builder_ref v msg p)
  unfolding builder_ref
  Quiet-builder_ref v msg p = search (reads, Quiet-ok_or)

  pub Quiet-cstr : (p : Ptr) → Quiet (cstr p)
  unfolding cstr
  Quiet-cstr p = search reads

  pub Quiet-from_raw_parts :
      {E A : Type 0} (v : View (List A)) (p : Ptr) (n : ℕ) → Quiet (from_raw_parts {E = E} v p n)
  unfolding from_raw_parts
  Quiet-from_raw_parts v p n = search reads

  pub Quiet-bytes : (p : Ptr) (n : ℕ) → Quiet (bytes p n)
  unfolding bytes
  Quiet-bytes p n = search (reads, Quiet-from_raw_parts)

  pub Quiet-read_str : (p : Ptr) → Quiet (read_str p)
  unfolding read_str
  Quiet-read_str p = Quiet-cstr p

  pub Quiet-push_strs : (out : List Text) (items : List Ptr) → Quiet (push_strs out items)
  unfolding push_strs
  Quiet-push_strs out [] = Quiet-pure out
  Quiet-push_strs out (p ∷ items) =
      Quiet-bind (Quiet-read_str p) (λ t. Quiet-push_strs (out ++ (t ∷ [])) items)

  pub Quiet-read_str_array : (p : Ptr) (n : ℕ) → Quiet (read_str_array p n)
  unfolding read_str_array
  Quiet-read_str_array p n = search (reads, Quiet-from_raw_parts, Quiet-push_strs)

  pub Quiet-read_promote_keys : (p : Ptr) (n : ℕ) → Quiet (read_promote_keys p n)
  unfolding read_promote_keys
  Quiet-read_promote_keys p n = search (reads, Quiet-from_raw_parts, Quiet-push_strs)

  pub Sure-make_bytes : {E : Type 0} (v : List ℕ) → Sure (make_bytes {E = E} v)
  unfolding make_bytes
  Sure-make_bytes [] = record { never = λ s f. f }
  Sure-make_bytes (b ∷ v) = record { never = λ s f. f }

pub ruleset pointer_reads = (
  reads, Quiet-ok_or, Quiet-handle, Quiet-builder_ref, Quiet-cstr, Quiet-from_raw_parts,
  Quiet-bytes, Quiet-read_str, Quiet-read_str_array, Quiet-read_promote_keys,
)
