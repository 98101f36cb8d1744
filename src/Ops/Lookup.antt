-- ===== src/Ops/Lookup.antt =====
-- What `imbh_db_table_stats` reports (src/lib.rs).
use imbh_c.Common.{
  true, false, Option, none, some, arith, List, [], ◌∷◌, ◌≡◌, refl, ◌∙◌, ap, sym, ◌≢◌, Bool-cases,
  inl, inr, ◌⊎◌, codes, unwrap_or, is_some, ◌&&◌, if◌then◌else◌,
}
use imbh_c.Common.Int.{ℤ}
use imbh_c.Engine.{Engine}
use imbh_c.Types.Imbh.{done, DbStats, TableStats, Table}
use imbh_c.Types.Ffi.{Ptr, ImbhTable, ImbhTableStats}
use imbh_c.Memory.{Store, pure, throw, ImbhDb, ok, err, db_view, table_stats_out, update, CallError}
use imbh_c.Memory.Steps.{step, stop, reject_if-false, block_on-done}
use imbh_c.Error.{World, Return, ImbhError, value, success, clear_last_error, set_last_error}
use imbh_c.Error.Laws.{guard-ok, guard-invalid_arg}
use imbh_c.Pointers.{ok_or}
use imbh_c.Pointers.Live.{Live, handle-live, store-live, Live-engine}
use imbh_c.Tables.{into_table, table_to_c, same_table, eq_of_same_table, table_to_c-into_table}
use imbh_c.Ops.{find_table, table_stats_of, imbh_db_table_stats}

-- The first entry for a table.
pub data First (want : Table) (t : TableStats) : List TableStats → Type 0 where
  here : {ts : List TableStats} → t.table ≡ want → First want t (t ∷ ts)
  later :
      {u : TableStats} {ts : List TableStats}
      → u.table ≢ want
      → First want t ts
      → First want t (u ∷ ts)

abbrev pub Missing : Table → List TableStats → Type 0
Missing want [] = Unit {0}
Missing want (t ∷ ts) = (t.table ≢ want) × Missing want ts

-- The time bounds are reported when the engine has both; a bound that it does not have is 0.
pub data Bounds : Option ℤ → Option ℤ → ImbhTableStats → Type 0 where
  both :
      {a b : ℤ} {c : ImbhTableStats}
      → c.min_time_unix_nano ≡ a
      → c.max_time_unix_nano ≡ b
      → c.has_time_bounds ≡ true
      → Bounds (some a) (some b) c
  only_min :
      {a : ℤ} {c : ImbhTableStats}
      → c.min_time_unix_nano ≡ a
      → c.max_time_unix_nano ≡ ℤ.pos 0
      → c.has_time_bounds ≡ false
      → Bounds (some a) none c
  only_max :
      {b : ℤ} {c : ImbhTableStats}
      → c.min_time_unix_nano ≡ ℤ.pos 0
      → c.max_time_unix_nano ≡ b
      → c.has_time_bounds ≡ false
      → Bounds none (some b) c
  neither :
      {c : ImbhTableStats}
      → c.min_time_unix_nano ≡ ℤ.pos 0
      → c.max_time_unix_nano ≡ ℤ.pos 0
      → c.has_time_bounds ≡ false
      → Bounds none none c

-- The C struct reports this entry under this selector.
pub record Describes (want : ImbhTable) (t : TableStats) (c : ImbhTableStats) : Type 0 where
  pub table : c.table ≡ want
  pub segment_count : c.segment_count ≡ t.segment_count
  pub segment_rows : c.segment_rows ≡ t.segment_rows
  pub buffer_rows : c.buffer_rows ≡ t.buffer_rows
  pub bounds : Bounds t.min_time_unix_nano t.max_time_unix_nano c

same_table_refl : (t : Table) → same_table t t ≡ true
unfolding same_table
same_table_refl Table.logs = refl
same_table_refl _ = refl

differ : {t : Table} (u : Table) → same_table t u ≡ false → t ≢ u
differ u h e =
    let c : true ≡ false = sym (same_table_refl u) ∙ (ap (λ x. same_table x u) (sym e) ∙ h) in cc

First-table :
    {want : Table} {t : TableStats} {ts : List TableStats} → First want t ts → t.table ≡ want
First-table (here e) = e
First-table (later n f) = First-table f

-- The search finds the first entry, or there is none.
find_table-First :
    (want : Table) (ts : List TableStats)
    → ((t : TableStats) × First want t ts × (find_table want ts ≡ some t))
      ⊎ (Missing want ts × (find_table want ts ≡ none))
unfolding find_table
find_table-First want [] = inr (tt, refl)
find_table-First want (t ∷ ts) = elim (Bool-cases (same_table t.table want)) [
  | inl h ↦ inl (
    t,
    here (eq_of_same_table t.table want h),
    ap (λ b. if b then some t else find_table want ts) h,
  )
  | inr h ↦
      let skip = ap (λ b. if b then some t else find_table want ts) h in
      elim (find_table-First want ts) [
        | inl (u, f, e) ↦ inl (u, later (differ want h) f, skip ∙ e)
        | inr (m, e) ↦ inr ((differ want h, m), skip ∙ e)
      ]
]

Bounds-unwrap_or :
    (a b : Option ℤ) {c : ImbhTableStats}
    → c.min_time_unix_nano ≡ unwrap_or (ℤ.pos 0) a
    → c.max_time_unix_nano ≡ unwrap_or (ℤ.pos 0) b
    → c.has_time_bounds ≡ (is_some a && is_some b)
    → Bounds a b c
Bounds-unwrap_or (some a) (some b) e f g = both e f g
Bounds-unwrap_or (some a) none e f g = only_min e f g
Bounds-unwrap_or none (some b) e f g = only_max e f g
Bounds-unwrap_or none none e f g = neither e f g

table_stats_of-Describes :
    (want : ImbhTable) (t : TableStats)
    → t.table ≡ into_table want
    → Describes want t (table_stats_of t)
unfolding table_stats_of
table_stats_of-Describes want t e = record {
  table = ap table_to_c e ∙ table_to_c-into_table want;
  segment_count = refl;
  segment_rows = refl;
  buffer_rows = refl;
  bounds = Bounds-unwrap_or t.min_time_unix_nano t.max_time_unix_nano refl refl refl;
}

module _ ⦃eng : Engine⦄ where
  -- What the call comes to: the first entry for the table in the out-parameter, or an error.
  abbrev pub Answers :
      ImbhTable → DbStats → Ptr → eng.State → World → Return ImbhError × World → Type 0
  Answers want s out st w r =
      ((t : TableStats) × (c : ImbhTableStats) × First (into_table want) t s.tables
        × Describes want t c
        × (r ≡ (
          value success,
          clear_last_error (record w {
            store = record w.store {
              mem = update w.store.mem out (some (table_stats_out.wrap (some c)));
              engine = st;
            };
          }),
        )))
      ⊎ (Missing (into_table want) s.tables
          × (r ≡ (
            value ImbhError.invalid_arg,
            set_last_error (codes "unknown table")
                (record w { store = record w.store { engine = st } }),
          )))

  ok_or-some :
      {A : Type 0} (e : CallError) {o : Option A} {a : A} (s : Store)
      → o ≡ some a
      → ok_or e o s ≡ (ok a, s)
  unfolding ok_or pure
  ok_or-some e s h = ground (arith, h)

  ok_or-none :
      {A : Type 0} (e : CallError) {o : Option A} (s : Store) → o ≡ none → ok_or e o s ≡ (err e, s)
  unfolding ok_or throw
  ok_or-none e s h = ground (arith, h)

  -- On a live handle and a live out-parameter, when the engine has its statistics: the call writes
  -- the first entry for the table that was asked for, with its counts, its time bounds and the
  -- selector, and returns success; or the engine has no entry for that table, and the call returns
  -- `InvalidArg` with the message "unknown table" and leaves the memory as it was.
  pub imbh_db_table_stats-Answers :
      (db : Ptr) (want : ImbhTable) (out : Ptr) (w : World) {h : ImbhDb}
      {old : Option ImbhTableStats} {s : DbStats} {st : eng.State}
      → Live db_view w.store db h
      → Live table_stats_out w.store out old
      → eng.stats h.db w.store.engine ≡ (done s, st)
      → Answers want s out st w (imbh_db_table_stats db want out w)
  unfolding imbh_db_table_stats
  imbh_db_table_stats-Answers db want out w {s} {st} l o e =
      elim (find_table-First (into_table want) s.tables) [
        | inl (t, f, g) ↦ inl (
          t,
          table_stats_of t,
          f,
          table_stats_of-Describes want t (First-table f),
          guard-ok _ w (
              step _ _ (handle-live l) (
                step _ _ (reject_if-false _ _ o.not_null) (
                  step _ _ (block_on-done _ _ _ e)
                    (step _ _ (ok_or-some _ _ g) (store-live (Live-engine o st) _))))),
        )
        | inr (m, g) ↦ inr (
          m,
          guard-invalid_arg _ w (
              step _ _ (handle-live l) (
                step _ _ (reject_if-false _ _ o.not_null)
                  (step _ _ (block_on-done _ _ _ e) (stop _ _ (ok_or-none _ _ g) refl)))),
        )
      ]
