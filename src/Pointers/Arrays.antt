-- ===== src/Pointers/Arrays.antt =====
-- The two readers of an array of C strings: `read_str_array` of src/query.rs and
-- `read_promote_keys` of src/lib.rs.
use imbh_c.Common.{
  codes, false, append-nil, append-one, ℕ, zero, suc, Text, true, ◌≡◌, refl, ◌∙◌, ap, sym, List, [],
  ◌∷◌, ◌++◌, arith, ◌≤◌, length, take,
}
use imbh_c.Common.Utf8.{is_utf8}
use imbh_c.Engine.{Engine}
use imbh_c.Types.Ffi.{Ptr, null}
use imbh_c.Memory.{
  Store, View, ok, err, pure, ptrs_view, str_view, deref, ◌>>=◌, CallError, reject_if,
}
use imbh_c.Memory.Steps.{step, stop}
use imbh_c.Pointers.{cstr, from_raw_parts, read_str, push_strs, read_str_array, read_promote_keys}
use imbh_c.Pointers.Live.{Live, cstr-live}

module _ ⦃eng : Engine⦄ where
  -- A pointer to a C string whose bytes are valid UTF-8.
  pub record Str (s : Store) (p : Ptr) (t : Text) : Type 0 where
    pub live : Live str_view s p t
    pub valid : is_utf8 t ≡ true

  -- Pointers to strings, one by one.
  pub data Strs (s : Store) : List Ptr → List Text → Type 0 where
    none : Strs s [] []
    more :
        {p : Ptr} {t : Text} {ps : List Ptr} {ts : List Text}
        → Str s p t
        → Strs s ps ts
        → Strs s (p ∷ ps) (t ∷ ts)

  pub read_str-Str : {s : Store} {p : Ptr} {t : Text} → Str s p t → read_str p s ≡ (ok t, s)
  unfolding read_str
  read_str-Str r = cstr-live r.live r.valid

  push_strs-Strs :
      {s : Store} (out : List Text) {ps : List Ptr} {ts : List Text}
      → Strs s ps ts
      → push_strs out ps s ≡ (ok (out ++ ts), s)
  unfolding push_strs pure
  push_strs-Strs {s} out Strs.none = ap (λ l. (ok l, s)) (sym (append-nil out))
  push_strs-Strs {s} out (Strs.more {p} {t} {ps} {ts} r rs) =
      step (read_str p) (λ t'. push_strs (out ++ (t' ∷ [])) ps) {s = s} (read_str-Str r)
        (push_strs-Strs (out ++ (t ∷ [])) rs)
      ∙ ap (λ l. (ok l, s)) (append-one out t ts)

  from_raw_parts-live :
      {A : Type 0} {v : View (List A)} {s : Store} {p : Ptr} {items : List A} (n : ℕ)
      → Live v s p items
      → n ≤ length items
      → from_raw_parts {E = CallError} v p n s ≡ (ok (take n items), s)
  unfolding from_raw_parts deref pure ◌>>=◌
  from_raw_parts-live n l h = ground arith

  -- An array of at least `n` pointers whose first `n` name UTF-8 strings is read in order by both
  -- readers; the memory is as it was.
  pub read_str_array-Strs :
      (s : Store) (p : Ptr) (n : ℕ) {items : List Ptr} {ts : List Text}
      → Live ptrs_view s p items
      → n ≤ length items
      → Strs s (take n items) ts
      → (read_str_array p n s ≡ (ok ts, s)) × (read_promote_keys p n s ≡ (ok ts, s))
  unfolding read_str_array read_promote_keys pure ◌>>=◌ reject_if
  read_str_array-Strs s p zero l h Strs.none = (refl, refl)
  read_str_array-Strs s p (suc n) {items} l h rs =
      let body =
        step (from_raw_parts ptrs_view p (suc n)) (push_strs []) {s = s}
          (from_raw_parts-live (suc n) l h) (push_strs-Strs [] rs) in
      (ground (arith, body), ground (arith, body))

  -- Why a pointer cannot be read as a string: it is null, or its bytes are not UTF-8.
  pub data BadStr (s : Store) : Ptr → Text → Type 0 where
    null_pointer : {p : Ptr} → p ≡ null → BadStr s p (codes "null string pointer")
    not_utf8 :
        {p : Ptr} {bytes : Text}
        → Live str_view s p bytes
        → is_utf8 bytes ≡ false
        → BadStr s p (codes "string is not valid UTF-8")

  -- The first `n` pointers are strings up to one that is not.
  pub data FirstBad (s : Store) (msg : Text) : List Ptr → Type 0 where
    here : {p : Ptr} {ps : List Ptr} → BadStr s p msg → FirstBad s msg (p ∷ ps)
    later :
        {p : Ptr} {t : Text} {ps : List Ptr}
        → Str s p t
        → FirstBad s msg ps
        → FirstBad s msg (p ∷ ps)

  read_str-BadStr :
      {s : Store} {p : Ptr} {msg : Text}
      → BadStr s p msg
      → read_str p s ≡ (err (CallError.invalid_arg msg), s)
  unfolding read_str cstr reject_if ◌>>=◌ deref pure
  read_str-BadStr (null_pointer e) = ground (arith, e)
  read_str-BadStr (not_utf8 l u) = ground (arith, l, u)

  push_strs-FirstBad :
      {s : Store} {msg : Text} (out : List Text) {ps : List Ptr}
      → FirstBad s msg ps
      → push_strs out ps s ≡ (err (CallError.invalid_arg msg), s)
  unfolding push_strs
  push_strs-FirstBad {s} out (FirstBad.here {p} {ps} b) =
      stop (read_str p) (λ t'. push_strs (out ++ (t' ∷ [])) ps) {s = s} (read_str-BadStr b) refl
  push_strs-FirstBad {s} out (FirstBad.later {p} {t} {ps} r f) =
      step (read_str p) (λ t'. push_strs (out ++ (t' ∷ [])) ps) {s = s} (read_str-Str r)
        (push_strs-FirstBad (out ++ (t ∷ [])) f)

  -- When one of the first `n` pointers of the array is null or names bytes that are not UTF-8, both
  -- readers give `InvalidArg` with the message of the first such pointer, however many strings stand
  -- before it, and whatever stands after it, which is not read; the memory is as it was. The array
  -- is live and has at least `n` pointers.
  pub read_str_array-FirstBad :
      (s : Store) (p : Ptr) (n : ℕ) {items : List Ptr} {msg : Text}
      → Live ptrs_view s p items
      → n ≤ length items
      → FirstBad s msg (take n items)
      → (read_str_array p n s ≡ (err (CallError.invalid_arg msg), s))
        × (read_promote_keys p n s ≡ (err (CallError.invalid_arg msg), s))
  unfolding read_str_array read_promote_keys pure ◌>>=◌ reject_if
  read_str_array-FirstBad s p zero l h f = elim f [ ]
  read_str_array-FirstBad s p (suc n) {items} l h f =
      let body =
        step (from_raw_parts ptrs_view p (suc n)) (push_strs []) {s = s}
          (from_raw_parts-live (suc n) l h) (push_strs-FirstBad [] f) in
      (ground (arith, body), ground (arith, body))
