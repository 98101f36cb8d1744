-- ===== src/Types/Discriminant.antt =====
-- The discriminants of the `#[repr(C)]` enums of src/query.rs: what `direction as i32` gives.
use imbh_c.Common.{ℕ}
use imbh_c.Types.Ffi.{
  ImbhDirection, backward, forward, ImbhNumOp, gt, ge, lt, le, ImbhLabelOp, eq, ne, regex,
  not_regex, ImbhAggregation, ImbhRateMode, ImbhMetricTable,
}

abbrev pub direction : ImbhDirection → ℕ
direction backward = 0
direction forward = 1

abbrev pub num_op : ImbhNumOp → ℕ
num_op gt = 0
num_op ge = 1
num_op lt = 2
num_op le = 3

abbrev pub label_op : ImbhLabelOp → ℕ
label_op eq = 0
label_op ne = 1
label_op regex = 2
label_op not_regex = 3

abbrev pub aggregation : ImbhAggregation → ℕ
aggregation ImbhAggregation.sum = 0
aggregation ImbhAggregation.avg = 1
aggregation ImbhAggregation.min = 2
aggregation ImbhAggregation.max = 3
aggregation ImbhAggregation.count = 4

abbrev pub rate_mode : ImbhRateMode → ℕ
rate_mode ImbhRateMode.off = 0
rate_mode ImbhRateMode.delta = 1
rate_mode ImbhRateMode.counter = 2

abbrev pub metric_table : ImbhMetricTable → ℕ
metric_table ImbhMetricTable.gauge = 0
metric_table ImbhMetricTable.sum = 1
