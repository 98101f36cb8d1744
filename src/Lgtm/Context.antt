-- ===== src/Lgtm/Context.antt =====
-- `promql_context` of src/lgtm.rs: how a PromQL name reaches a stored metric.
use imbh_c.Common.{Text, List, [], ◌∷◌, map, ◌==◌, if◌then◌else◌, codes, text_eq}
use imbh_c.Types.Imbh.{MetricMeta}
use imbh_c.Lgtm.Interface.{
  MetricKind, cumulative_counter, cumulative_histogram, gauge, MetricResolution, TranslateContext,
}

-- `m.metric.replace('.', "_")`
unfoldable pub replace_dots : Text → Text
replace_dots [] = []
replace_dots (c ∷ s) = (if c == b'.' then b'_' else c) ∷ replace_dots s

-- `match m.kind.as_str() { … }`
unfoldable pub kind_of : Text → MetricKind
kind_of kind =
    if text_eq kind (codes "sum")
    then cumulative_counter
    else if text_eq kind (codes "histogram")
    then cumulative_histogram
    else gauge

unfoldable pub resolution : MetricMeta → MetricResolution
unfolding replace_dots kind_of
resolution m = record {
  query_name = replace_dots m.metric;
  storage_name = m.metric;
  kind = kind_of m.kind;
}

unfoldable pub promql_context : List MetricMeta → TranslateContext
unfolding resolution
promql_context catalog = record { metrics = map resolution catalog }
