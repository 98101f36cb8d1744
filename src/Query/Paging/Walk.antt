-- ===== src/Query/Paging/Walk.antt =====
-- A client of `imbh_db_logs_page` that asks for page after page.
use imbh_c.Common.{
  ℕ, suc, zero, ◌+◌, ◌≤◌, ◌<◌, Bool, true, false, ◌≡◌, refl, ◌∙◌, sym, ap, Option, none, some, List,
  [], ◌∷◌, ◌++◌, arith, u64_mod, length, take, drop, Bool-cases, inl, inr, take-append-drop,
  length-take, length-drop, drop-drop,
}
use imbh_c.Engine.{Engine}
use imbh_c.Types.Proto
use imbh_c.Types.Imbh.{QueryStats}
use imbh_c.Types.Ffi.{Ptr, null}
use imbh_c.Memory.{ImbhDb, stream_out, u64_out, bool_out, peek}
use imbh_c.Error.{World, ImbhError, Return, value, success, clear_last_error}
use imbh_c.Arrow.{export_batches_infer}
use imbh_c.Query.Paging.{has_next, next_cursor, imbh_db_logs_page}
use imbh_c.Query.Paging.Page.{PagesBy, page-Ready}
use imbh_c.Query.Paging.Slots.{Ready, Apart, page_memory, page_memory-Ready, page_memory-Slots}

module _ {ℓ} {R : Type ℓ} where
  take-all : (n : ℕ) (xs : List R) → length xs ≤ n → take n xs ≡ xs
  take-all zero [] h = refl
  take-all zero (x ∷ xs) h = absurd (omega arith)
  take-all (suc n) [] h = refl
  take-all (suc n) (x ∷ xs) h = ap (λ l. x ∷ l) (take-all n xs (omega arith))

  module _ (limit after : ℕ) (rows : List R) (qs : QueryStats)
      (count : qs.rows_returned ≡ length (take limit (drop after rows)))
      (positive : 0 < limit) where
    -- A page that is not the last is full, and the cursor moves on by the limit.
    full_page :
        has_next limit qs ≡ true
        → after ≤ length rows
        → length rows < u64_mod
        → (next_cursor after qs ≡ after + limit) × (after + limit ≤ length rows)
    unfolding has_next next_cursor
    full_page h a b =
        let e : limit ≤ qs.rows_returned = ground arith in
        let f = length-take limit (drop after rows) in
        let g = length-drop after rows in
        let k : qs.rows_returned ≡ limit = omega (arith, count, f, g, e) in
        (omega (arith, k, f, g, e, count), omega (arith, f, g, e, count))

    -- The last page is all that was left.
    last_page : has_next limit qs ≡ false → take limit (drop after rows) ≡ drop after rows
    unfolding has_next
    last_page h =
        let e : qs.rows_returned < limit = ground arith in
        take-all limit (drop after rows)
          (omega (arith, length-take limit (drop after rows), e, count))

module _ ⦃eng : Engine⦄ where
  -- A page as the client reads it: the stream, the next offset, and whether there is more.
  unfoldable pub page_of :
      Return ImbhError
      → Option (Option eng.Stream)
      → Option (Option ℕ)
      → Option (Option Bool)
      → Option (eng.Stream × ℕ × Bool)
  page_of (value success) (some (some stream)) (some (some next)) (some (some more)) =
      some (stream, next, more)
  page_of _ _ _ _ = none

  module _ {R : Type 0} (decode : eng.Stream → List R) where
    -- The rows of a page and those of the pages after it.
    unfoldable pub and_rest :
        (ℕ → Option (List R)) → Option (eng.Stream × ℕ × Bool) → Option (List R)
    and_rest rest none = none
    and_rest rest (some (stream, next, false)) = some (decode stream)
    and_rest rest (some (stream, next, true)) = elim (rest next) [
      | none ↦ none
      | some rows ↦ some (decode stream ++ rows)
    ]

    -- Ask for the page at `after`, and go on from the offset it hands back while there is more. At
    -- most `fuel` pages are asked for.
    unfoldable pub walk :
        (fuel : ℕ) (db query out next more : Ptr) (after : ℕ) → World → Option (List R)
    unfolding page_of and_rest
    walk zero db query out next more after w = none
    walk (suc fuel) db query out next more after w =
        let r = imbh_db_logs_page db query after out null next more w in
        and_rest (λ n. walk fuel db query out next more n r.1)
          (page_of r.0 (peek stream_out r.1.store out) (peek u64_out r.1.store next)
            (peek bool_out r.1.store more))

  page_of-written :
      {s : eng.Stream} {a : Option (Option eng.Stream)} {b : Option (Option ℕ)}
      {c : Option (Option Bool)} {n : ℕ} {m : Bool}
      → a ≡ some (some s)
      → b ≡ some (some n)
      → c ≡ some (some m)
      → page_of (value success) a b c ≡ some (s, n, m)
  unfolding page_of
  page_of-written e f g = ground (arith, e, f, g)

  module _ {R : Type 0} {h : ImbhDb} {q : Proto.LogQuery eng.F64} {rows : List R}
      {decode : eng.Stream → List R} (p : PagesBy h q rows decode)
      (db query out next more : Ptr) where
    and_rest-more :
        (rest : ℕ → Option (List R)) {stream : eng.Stream} {n n' : ℕ} {b : Bool} {xs ys : List R}
        → b ≡ true
        → decode stream ≡ xs
        → n ≡ n'
        → rest n' ≡ some ys
        → and_rest decode rest (some (stream, n, b)) ≡ some (xs ++ ys)
    unfolding and_rest
    and_rest-more rest e f g k = ground arith

    and_rest-last :
        (rest : ℕ → Option (List R)) (n : ℕ) {stream : eng.Stream} {b : Bool} {xs : List R}
        → b ≡ false
        → decode stream ≡ xs
        → and_rest decode rest (some (stream, n, b)) ≡ some xs
    unfolding and_rest
    and_rest-last rest n e f = ground arith

    -- The world after the page at an offset.
    abbrev page_world : ℕ → World → World
    page_world after w = clear_last_error (record w {
      store = record w.store {
        mem =
            page_memory out next more (next_cursor after (p.stats after w.store.engine))
              (has_next q.limit (p.stats after w.store.engine))
              (export_batches_infer (p.batches after w.store.engine)) w.store.mem;
        engine = p.then_state after w.store.engine;
      };
    })

    walk-page :
        (fuel after : ℕ) (w : World)
        → Ready w.store db query out next more h q
        → walk decode (suc fuel) db query out next more after w
          ≡ and_rest decode
              (λ n. walk decode fuel db query out next more n (page_world after w))
              (some (
                export_batches_infer (p.batches after w.store.engine),
                next_cursor after (p.stats after w.store.engine),
                has_next q.limit (p.stats after w.store.engine),
              ))
    unfolding walk clear_last_error peek
    walk-page fuel after w r =
        let slots =
          page_memory-Slots (next_cursor after (p.stats after w.store.engine))
            (has_next q.limit (p.stats after w.store.engine))
            (export_batches_infer (p.batches after w.store.engine)) r.slots in
        ap
          (λ x.
            and_rest decode (λ n. walk decode fuel db query out next more n x.1)
              (page_of x.0 (peek stream_out x.1.store out) (peek u64_out x.1.store next)
                (peek bool_out x.1.store more)))
          (page-Ready p after w r)
        ∙ ap (and_rest decode (λ n. walk decode fuel db query out next more n (page_world after w)))
            (page_of-written slots.stream_slot.holds slots.offset_slot.holds slots.flag_slot.holds)

    walk-pages :
        (fuel after : ℕ) (w : World)
        → 0 < q.limit
        → length rows < u64_mod
        → after ≤ length rows
        → length rows < fuel + after
        → Apart db out next more
        → Apart query out next more
        → Ready w.store db query out next more h q
        → walk decode fuel db query out next more after w ≡ some (drop after rows)
    unfolding clear_last_error
    walk-pages zero after w pos bound a enough d u r = absurd (omega arith)
    walk-pages (suc fuel) after w pos bound a enough d u r =
        let st = w.store.engine in
        let qs = p.stats after st in
        walk-page fuel after w r ∙ elim (Bool-cases (has_next q.limit qs)) [
          | inr last ↦
              and_rest-last _ _ last
                (p.decodes after st ∙ last_page q.limit after rows qs (p.counts after st) pos last)
          | inl full ↦
              let f = full_page q.limit after rows qs (p.counts after st) pos full a bound in
              and_rest-more _ full (p.decodes after st) f.0 (
                walk-pages fuel (after + q.limit) (page_world after w) pos bound f.1
                  (omega (arith, pos, enough)) d u (page_memory-Ready _ _ _ r d u _))
              ∙ ap some (
                  ap (λ l. take q.limit (drop after rows) ++ l) (sym (drop-drop q.limit after rows))
                  ∙ take-append-drop q.limit (drop after rows))
        ]

    -- A client that starts at 0 and asks for the next page while `has_more` is set, at the offset
    -- the last call handed back, gets all the matching rows in order, each once, in at most one
    -- page more than there are rows. The engine pages by offset over fixed rows and does not fail,
    -- the limit is positive, there are fewer than 2^64 rows, no statistics are asked for, and the
    -- caller's pointers are live and apart.
    pub walk-all :
        (fuel : ℕ) (w : World)
        → 0 < q.limit
        → length rows < u64_mod
        → length rows < fuel
        → Apart db out next more
        → Apart query out next more
        → Ready w.store db query out next more h q
        → walk decode fuel db query out next more 0 w ≡ some rows
    walk-all fuel w pos bound enough d u r =
        walk-pages fuel 0 w pos bound (omega arith) (omega (arith, enough)) d u r
