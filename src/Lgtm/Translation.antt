-- ===== src/Lgtm/Translation.antt =====
-- What the PromQL translator is told of the catalog (src/lgtm.rs).
use mathlib.Core.Path.{subst}
use imbh_c.Common.{
  true, ◌≢◌, codes, text_eq, if◌then◌else◌, ◌↔◌, sym, ◌∙◌, ℕ, Text, Bool, false, List, [], ◌∷◌, map,
  length, ◌≡◌, refl, ap, ◌==◌, arith, ◌||◌,
}
use imbh_c.Types.Imbh.{MetricMeta}
use imbh_c.Lgtm.Interface.{
  MetricResolution, MetricKind, cumulative_counter, cumulative_histogram, gauge,
}
use imbh_c.Lgtm.Context.{replace_dots, kind_of, resolution, promql_context}

unfoldable pub has_dot : Text → Bool
has_dot [] = false
has_dot (c ∷ s) = (c == b'.') || has_dot s

has_dot-replace_dots : (s : Text) → has_dot (replace_dots s) ≡ false
unfolding has_dot replace_dots
has_dot-replace_dots [] = refl
has_dot-replace_dots (c ∷ s) = ground (arith, has_dot-replace_dots s)

length-replace_dots : (s : Text) → length (replace_dots s) ≡ length s
unfolding replace_dots
length-replace_dots [] = refl
length-replace_dots (c ∷ s) = ap Prim.Native.Nat.suc (length-replace_dots s)

replace_dots_id : (s : Text) → has_dot s ≡ false → replace_dots s ≡ s
unfolding replace_dots has_dot
replace_dots_id [] h = refl
replace_dots_id (c ∷ s) h = ground (arith, replace_dots_id s)

-- Each dot is an underscore, and every other byte is itself.
pub data Underscored : Text → Text → Type 0 where
  nil : Underscored [] []
  dot : {s t : Text} → Underscored s t → Underscored (b'.' ∷ s) (b'_' ∷ t)
  same : {c : ℕ} {s t : Text} → c ≢ b'.' → Underscored s t → Underscored (c ∷ s) (c ∷ t)

-- The kinds of the catalog: sums and histograms are cumulative, all else is a gauge.
pub data KindOf : Text → MetricKind → Type 0 where
  sum : KindOf (codes "sum") cumulative_counter
  histogram : KindOf (codes "histogram") cumulative_histogram
  other : {k : Text} → k ≢ codes "sum" → k ≢ codes "histogram" → KindOf k gauge

-- The entry that the translator is to have for a metric of the catalog.
pub record Resolves (m : MetricMeta) (r : MetricResolution) : Type 0 where
  pub query_name : Underscored m.metric r.query_name
  pub storage_name : r.storage_name ≡ m.metric
  pub kind : KindOf m.kind r.kind

-- One entry for each metric, in the catalog's order.
pub data ResolvesAll : List MetricMeta → List MetricResolution → Type 0 where
  nil : ResolvesAll [] []
  more :
      {m : MetricMeta} {r : MetricResolution} {ms : List MetricMeta} {rs : List MetricResolution}
      → Resolves m r
      → ResolvesAll ms rs
      → ResolvesAll (m ∷ ms) (r ∷ rs)

byte-Underscored :
    (c : ℕ) {s t : Text} (b : Bool)
    → (c == b'.') ≡ b
    → Underscored s t
    → Underscored (c ∷ s) ((if b then b'_' else c) ∷ t)
byte-Underscored c {s} {t} true h u =
    subst (λ d. Underscored (d ∷ s) (b'_' ∷ t)) (let e : b'.' ≡ c = ground arith in e)
      (Underscored.dot u)
byte-Underscored c false h u = Underscored.same (ground arith) u

replace_dots-Underscored : (s : Text) → Underscored s (replace_dots s)
unfolding replace_dots
replace_dots-Underscored [] = Underscored.nil
replace_dots-Underscored (c ∷ s) = byte-Underscored c (c == b'.') refl (replace_dots-Underscored s)

text_eq_sound : (s t : Text) → text_eq s t ≡ true → s ≡ t
unfolding text_eq
text_eq_sound [] [] h = refl
text_eq_sound [] (b ∷ t) h = cc
text_eq_sound (a ∷ s) [] h = cc
text_eq_sound (a ∷ s) (b ∷ t) h = ground (arith, text_eq_sound s t)

text_eq_refl : (s : Text) → text_eq s s ≡ true
unfolding text_eq
text_eq_refl [] = refl
text_eq_refl (a ∷ s) = ground (arith, text_eq_refl s)

text_eq_differ : (s t : Text) → text_eq s t ≡ false → s ≢ t
text_eq_differ s t h e =
    let c : true ≡ false = sym (text_eq_refl t) ∙ (ap (λ x. text_eq x t) (sym e) ∙ h) in cc

kind_of-KindOf : (k : Text) → KindOf k (kind_of k)
unfolding kind_of
kind_of-KindOf k = test (text_eq k (codes "sum")) (text_eq k (codes "histogram")) refl refl
  where
    test :
        (a b : Bool)
        → text_eq k (codes "sum") ≡ a
        → text_eq k (codes "histogram") ≡ b
        → KindOf k (if a then cumulative_counter else if b then cumulative_histogram else gauge)
    test true b h g =
        subst (λ x. KindOf x cumulative_counter) (sym (text_eq_sound k (codes "sum") h)) KindOf.sum
    test false true h g =
        subst (λ x. KindOf x cumulative_histogram) (sym (text_eq_sound k (codes "histogram") g))
          KindOf.histogram
    test false false h g =
        KindOf.other (text_eq_differ k (codes "sum") h) (text_eq_differ k (codes "histogram") g)

map-resolution-ResolvesAll : (ms : List MetricMeta) → ResolvesAll ms (map resolution ms)
unfolding resolution
map-resolution-ResolvesAll [] = ResolvesAll.nil
map-resolution-ResolvesAll (m ∷ ms) =
    ResolvesAll.more
      (record {
        query_name = replace_dots-Underscored m.metric;
        storage_name = refl;
        kind = kind_of-KindOf m.kind;
      })
      (map-resolution-ResolvesAll ms)

-- The translator is told of the catalog's metrics one for one and in order: each under its stored
-- name, to be queried by that name with underscores for the dots, as a cumulative counter for a
-- "sum", a cumulative histogram for a "histogram", and a gauge for any other kind.
pub promql_context-ResolvesAll :
    (catalog : List MetricMeta) → ResolvesAll catalog (promql_context catalog).metrics
unfolding promql_context
promql_context-ResolvesAll catalog = map-resolution-ResolvesAll catalog

-- The name to query a metric by has no dot and as many bytes as the stored name; it is the stored
-- name exactly when that has no dot.
pub resolution-query_name :
    (m : MetricMeta)
    → (has_dot (resolution m).query_name ≡ false)
      × (length (resolution m).query_name ≡ length m.metric)
      × (((resolution m).query_name ≡ m.metric) ↔ (has_dot m.metric ≡ false))
unfolding resolution
resolution-query_name m = (
  has_dot-replace_dots m.metric,
  length-replace_dots m.metric,
  (λ h. sym (ap has_dot h) ∙ has_dot-replace_dots m.metric, λ h. replace_dots_id m.metric h),
)
