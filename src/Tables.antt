-- ===== src/Tables.antt =====
-- The table selector of src/lib.rs and its two conversions.
use imbh_c.Common.{◌≡◌, refl, Bool, true, false, arith}
use imbh_c.Types.Imbh.{Table}
use imbh_c.Types.Ffi.{ImbhTable}

-- `impl From<imbh_table> for Table`
unfoldable pub into_table : ImbhTable → Table
into_table ImbhTable.logs = Table.logs
into_table ImbhTable.spans = Table.spans
into_table ImbhTable.metrics_gauge = Table.metrics_gauge
into_table ImbhTable.metrics_sum = Table.metrics_sum
into_table ImbhTable.metrics_histogram = Table.metrics_histogram
into_table ImbhTable.metrics_exp_histogram = Table.metrics_exp_histogram
into_table ImbhTable.metrics_summary = Table.metrics_summary

unfoldable pub table_to_c : Table → ImbhTable
table_to_c Table.logs = ImbhTable.logs
table_to_c Table.spans = ImbhTable.spans
table_to_c Table.metrics_gauge = ImbhTable.metrics_gauge
table_to_c Table.metrics_sum = ImbhTable.metrics_sum
table_to_c Table.metrics_histogram = ImbhTable.metrics_histogram
table_to_c Table.metrics_exp_histogram = ImbhTable.metrics_exp_histogram
table_to_c Table.metrics_summary = ImbhTable.metrics_summary

-- `t == want`
unfoldable pub same_table : Table → Table → Bool
same_table Table.logs Table.logs = true
same_table Table.spans Table.spans = true
same_table Table.metrics_gauge Table.metrics_gauge = true
same_table Table.metrics_sum Table.metrics_sum = true
same_table Table.metrics_histogram Table.metrics_histogram = true
same_table Table.metrics_exp_histogram Table.metrics_exp_histogram = true
same_table Table.metrics_summary Table.metrics_summary = true
same_table _ _ = false

pub into_table-table_to_c : (t : Table) → into_table (table_to_c t) ≡ t
unfolding into_table table_to_c
into_table-table_to_c Table.logs = refl
into_table-table_to_c _ = refl

pub table_to_c-into_table : (t : ImbhTable) → table_to_c (into_table t) ≡ t
unfolding into_table table_to_c
table_to_c-into_table ImbhTable.logs = refl
table_to_c-into_table _ = refl

pub eq_of_same_table : (t u : Table) → same_table t u ≡ true → t ≡ u
unfolding same_table
eq_of_same_table t u h = ground arith
