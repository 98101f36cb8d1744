-- ===== src/Query/Builders/Caller.antt =====
-- What a caller of a builder keeps in memory, and the builder's calls one after another.
use mathlib.Core.Path.{subst}
use imbh_c.Common.{map, length, ◌≤◌, ℕ, Text, false, ◌≡◌, refl, ap, sym, some, List, [], ◌∷◌, ◌==◌}
use imbh_c.Engine.{Engine}
use imbh_c.Types.Ffi.{Ptr}
use imbh_c.Memory.{Store, View, ptrs_view, update}
use imbh_c.Error.{Return, ImbhError, World, Extern, value, success, clear_last_error}
use imbh_c.Pointers.Live.{Live, Live-update_self, Live-update_ne}
use imbh_c.Pointers.Arrays.{Str, Strs}
use imbh_c.Query.Builders.Put.{edited}

module _ ⦃eng : Engine⦄ where
  -- The caller's strings and arrays of strings, by address.
  pub record Contents : Type 0 where
    pub text : Ptr → Text
    pub items : Ptr → List Ptr

  -- The strings are where the caller says, are valid, and are none of the builder.
  abbrev pub Readable : Contents → Store → Ptr → List Ptr → Type 0
  Readable mem s q [] = Unit {0}
  Readable mem s q (p ∷ ps) = Str s p (mem.text p) × ((p == q) ≡ false) × Readable mem s q ps

  -- The arrays are where the caller says and at least as long as the call says.
  abbrev pub Arrays : Contents → Store → Ptr → List (Ptr × ℕ) → Type 0
  Arrays mem s q [] = Unit {0}
  Arrays mem s q ((p, n) ∷ vs) =
      Live ptrs_view s p (mem.items p)
      × (n ≤ length (mem.items p))
      × ((p == q) ≡ false)
      × Arrays mem s q vs

  pub Readable-Strs :
      (mem : Contents) (s : Store) (q : Ptr) (ps : List Ptr)
      → Readable mem s q ps
      → Strs s ps (map mem.text ps)
  Readable-Strs mem s q [] r = Strs.none
  Readable-Strs mem s q (p ∷ ps) (r, _, rs) = Strs.more r (Readable-Strs mem s q ps rs)

  module _ {A : Type 0} (v : View A) (mem : Contents) (s : Store) (q : Ptr) (a : A) where
    Str-edited :
        {p : Ptr} {t : Text}
        → Str s p t
        → (p == q) ≡ false
        → Str (record s { mem = update s.mem q (some (v.wrap a)) }) p t
    Str-edited r ne = record { live = Live-update_ne v _ _ r.live ne; valid = r.valid }

    Readable-edited :
        (ps : List Ptr)
        → Readable mem s q ps
        → Readable mem (record s { mem = update s.mem q (some (v.wrap a)) }) q ps
    Readable-edited [] r = tt
    Readable-edited (p ∷ ps) (r, ne, rs) = (Str-edited r ne, ne, Readable-edited ps rs)

    Arrays-edited :
        (vs : List (Ptr × ℕ))
        → Arrays mem s q vs
        → Arrays mem (record s { mem = update s.mem q (some (v.wrap a)) }) q vs
    Arrays-edited [] r = tt
    Arrays-edited ((p, n) ∷ vs) (l, h, ne, rs) =
        (Live-update_ne v _ _ l ne, h, ne, Arrays-edited vs rs)

  abbrev pub all_success : {C : Type 0} → List C → List (Return ImbhError)
  all_success [] = []
  all_success (c ∷ cs) = value success ∷ all_success cs

  -- The setters and adders of a builder: each call, what it is to do to the value, the strings
  -- and the arrays that it reads, and that on a live builder it does just that.
  pub record Setters {A : Type 0} (v : View A) (C : Type 0) : Type 0 where
    pub call : C → Ptr → Extern ImbhError
    pub edit : Contents → C → A → A
    pub strings : Contents → C → List Ptr
    pub arrays : C → List (Ptr × ℕ)
    pub call-edit :
        (mem : Contents) (c : C) (q : Ptr) (w : World) {a : A}
        → Live v w.store q a
        → Readable mem w.store q (strings mem c)
        → Arrays mem w.store q (arrays c)
        → call c q w ≡ (value success, edited v q (edit mem c a) w)

  module _ {A : Type 0} {v : View A} {C : Type 0} (d : Setters v C) where
    -- The calls one after another, with their codes.
    unfoldable pub session : List C → Ptr → World → List (Return ImbhError) × World
    session [] q w = ([], w)
    session (c ∷ cs) q w =
        let first = d.call c q w in let rest = session cs q first.1 in (first.0 ∷ rest.0, rest.1)

    unfoldable pub edits : Contents → List C → A → A
    edits mem [] a = a
    edits mem (c ∷ cs) a = edits mem cs (d.edit mem c a)

    abbrev pub AllReadable : Contents → Store → Ptr → List C → Type 0
    AllReadable mem s q [] = Unit {0}
    AllReadable mem s q (c ∷ cs) =
        Readable mem s q (d.strings mem c) × Arrays mem s q (d.arrays c) × AllReadable mem s q cs

    AllReadable-edited :
        (mem : Contents) (s : Store) (q : Ptr) (a : A) (cs : List C)
        → AllReadable mem s q cs
        → AllReadable mem (record s { mem = update s.mem q (some (v.wrap a)) }) q cs
    AllReadable-edited mem s q a [] r = tt
    AllReadable-edited mem s q a (c ∷ cs) (r, m, rs) = (
      Readable-edited v mem s q a (d.strings mem c) r,
      Arrays-edited v mem s q a (d.arrays c) m,
      AllReadable-edited mem s q a cs rs,
    )

    pub session-setters :
        (mem : Contents) (cs : List C) (q : Ptr) (w : World) {a : A}
        → Live v w.store q a
        → AllReadable mem w.store q cs
        → ((session cs q w).0 ≡ all_success cs) × Live v (session cs q w).1.store q (edits mem cs a)
    unfolding session edits clear_last_error
    session-setters mem [] q w l rs = (refl, l)
    session-setters mem (c ∷ cs) q w {a} l (r, m, rs) =
        let e = d.call-edit mem c q w l r m in
        let w' = edited v q (d.edit mem c a) w in
        let ih =
          session-setters mem cs q w' (Live-update_self l _)
            (AllReadable-edited mem w.store q (d.edit mem c a) cs rs) in
        subst
          (λ x.
            (x.0 ∷ (session cs q x.1).0 ≡ all_success (c ∷ cs))
            × Live v (session cs q x.1).1.store q (edits mem cs (d.edit mem c a)))
          (sym e) (ap (λ l. value success ∷ l) ih.0, ih.1)
