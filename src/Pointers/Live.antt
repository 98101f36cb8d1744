-- ===== src/Pointers/Live.antt =====
-- What the pointer helpers do at a pointer that names an object of the right kind.
use imbh_c.Common.{Text, true, false, ◌≡◌, Option, none, some, String, arith, ◌==◌, if◌then◌else◌}
use imbh_c.Common.Utf8.{is_utf8}
use imbh_c.Engine.{Engine}
use imbh_c.Types.Ffi.{Ptr, null}
use imbh_c.Memory.{
  Store, View, ImbhDb, ok, peek, update, as_ref, store, store_if, db_view, str_view, take_back,
}
use imbh_c.Pointers.{handle, cstr, builder_ref}

module _ ⦃eng : Engine⦄ where
  -- `p` is not null and names an object of the kind, which holds `a`.
  pub record Live {A : Type 0} (v : View A) (s : Store) (p : Ptr) (a : A) : Type 0 where
    pub not_null : (p == null) ≡ false
    pub holds : peek v s p ≡ some a

  module _ {A : Type 0} {v : View A} {s : Store} {p : Ptr} {a : A} (l : Live v s p a) where
    pub as_ref-live : {E : Type 0} → as_ref {E = E} v p s ≡ (ok (some a), s)
    unfolding as_ref
    as_ref-live = ground arith

    pub builder_ref-live : (msg : String) → builder_ref v msg p s ≡ (ok a, s)
    unfolding builder_ref
    builder_ref-live msg = ground arith

    pub store-live :
        {E : Type 0} (b : A)
        → store {E = E} v p b s ≡ (ok tt, record s { mem = update s.mem p (some (v.wrap b)) })
    unfolding store
    store-live b = ground arith

    pub take_back-live :
        {E : Type 0} → take_back {E = E} v p s ≡ (ok a, record s { mem = update s.mem p none })
    unfolding take_back
    take_back-live = ground arith

  pub store_if-live :
      {E A : Type 0} {v : View (Option A)} {s : Store} {p : Ptr} {a : Option A}
      → Live v s p a
      → (b : A)
      → store_if {E = E} v p b s
        ≡ (ok tt, record s { mem = update s.mem p (some (v.wrap (some b))) })
  unfolding store_if
  store_if-live l b = ground arith

  pub handle-live : {s : Store} {p : Ptr} {h : ImbhDb} → Live db_view s p h → handle p s ≡ (ok h, s)
  unfolding handle
  handle-live l = ground arith

  pub cstr-live :
      {s : Store} {p : Ptr} {t : Text}
      → Live str_view s p t
      → is_utf8 t ≡ true
      → cstr p s ≡ (ok t, s)
  unfolding cstr
  cstr-live l u = ground arith

  -- Objects outlive what the engine does.
  pub Live-engine :
      {A : Type 0} {v : View A} {s : Store} {p : Ptr} {a : A}
      → Live v s p a
      → (e : eng.State) → Live v (record s { engine = e }) p a
  unfolding peek
  Live-engine l e = record { not_null = l.not_null; holds = l.holds }

  -- A write at `p` is seen at `p` and nowhere else.
  pub peek-update :
      {A B : Type 0} (v : View A) (w : View B) (s : Store) (p q : Ptr) (b : B)
      → peek v (record s { mem = update s.mem p (some (w.wrap b)) }) q
        ≡ (if q == p then v.read (w.wrap b) else peek v s q)
  unfolding peek update
  peek-update v w s p q b = ground arith

  pub Live-update_self :
      {A : Type 0} {v : View A} {s : Store} {p : Ptr} {a : A}
      → Live v s p a
      → (b : A) → Live v (record s { mem = update s.mem p (some (v.wrap b)) }) p b
  unfolding peek update
  Live-update_self {v} l b = record { not_null = l.not_null; holds = ground (arith, v.read-wrap b) }

  pub Live-update_ne :
      {A B : Type 0} {v : View A} {s : Store} {q : Ptr} {a : A} (w : View B) (p : Ptr) (b : B)
      → Live v s q a
      → (q == p) ≡ false
      → Live v (record s { mem = update s.mem p (some (w.wrap b)) }) q a
  unfolding peek update
  Live-update_ne w p b l ne = record { not_null = l.not_null; holds = ground arith }
