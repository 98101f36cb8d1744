-- ===== src/Types/Proto.antt =====
-- The query messages of proto/imbh/v1, which the builders of src/query.rs hold. `F` is `f64`.
-- An enum field is an `i32`; a default message is all zero, empty and absent.
use imbh_c.Common.{ℕ, Text, Option, none, List, []}
use imbh_c.Common.Int.{ℤ}

pub record TimeRange : Type 0 where
  pub start : ℤ
  pub end : ℤ

pub record KeyValue : Type 0 where
  pub key : Text
  pub value : Text

pub record KeyValues : Type 0 where
  pub key : Text
  pub values : List Text

pub record NumFilter (F : Type 0) : Type 0 where
  pub key : Text
  pub op : ℕ
  pub value : F

pub record LabelFilter : Type 0 where
  pub key : Text
  pub op : ℕ
  pub value : Text

pub record LogQuery (F : Type 0) : Type 0 where
  pub service : Option Text
  pub min_severity : Option ℕ
  pub text : Option Text
  pub attr_eq : List KeyValue
  pub attr_exists : List Text
  pub attr_matches : List KeyValue
  pub attr_in : List KeyValues
  pub attr_not_in : List KeyValues
  pub attr_num : List (NumFilter F)
  pub attr_regex : List KeyValue
  pub range : Option TimeRange
  pub limit : ℕ
  pub direction : ℕ
  pub offset : ℕ

pub record TraceQuery (F : Type 0) : Type 0 where
  pub service : Option Text
  pub name : Option Text
  pub text : Option Text
  pub min_duration_ns : Option ℕ
  pub max_duration_ns : Option ℕ
  pub status : Option Text
  pub kind : Option Text
  pub attr_eq : List KeyValue
  pub attr_exists : List Text
  pub attr_matches : List KeyValue
  pub attr_in : List KeyValues
  pub attr_not_in : List KeyValues
  pub attr_num : List (NumFilter F)
  pub attr_regex : List KeyValue
  pub range : Option TimeRange
  pub limit : ℕ

pub record SpanMetricsQuery : Type 0 where
  pub service : Option Text
  pub name : Option Text
  pub kind : Option Text
  pub status : Option Text
  pub attr_eq : List KeyValue
  pub group_by : List Text
  pub range : Option TimeRange
  pub step_nanos : Option ℤ

pub record MetricQuery : Type 0 where
  pub table : ℕ
  pub metric : Text
  pub aggregation : Option ℕ
  pub group_by : List Text
  pub filters : List LabelFilter
  pub range : Option TimeRange
  pub step_nanos : Option ℤ
  pub rate : ℕ

-- `Default::default()` of each message.
abbrev pub log_query_default : {F : Type 0} → LogQuery F
log_query_default = record {
  service = none;
  min_severity = none;
  text = none;
  attr_eq = [];
  attr_exists = [];
  attr_matches = [];
  attr_in = [];
  attr_not_in = [];
  attr_num = [];
  attr_regex = [];
  range = none;
  limit = 0;
  direction = 0;
  offset = 0;
}

abbrev pub trace_query_default : {F : Type 0} → TraceQuery F
trace_query_default = record {
  service = none;
  name = none;
  text = none;
  min_duration_ns = none;
  max_duration_ns = none;
  status = none;
  kind = none;
  attr_eq = [];
  attr_exists = [];
  attr_matches = [];
  attr_in = [];
  attr_not_in = [];
  attr_num = [];
  attr_regex = [];
  range = none;
  limit = 0;
}

abbrev pub span_metrics_query_default : SpanMetricsQuery
span_metrics_query_default = record {
  service = none;
  name = none;
  kind = none;
  status = none;
  attr_eq = [];
  group_by = [];
  range = none;
  step_nanos = none;
}

abbrev pub metric_query_default : MetricQuery
metric_query_default = record {
  table = 0;
  metric = [];
  aggregation = none;
  group_by = [];
  filters = [];
  range = none;
  step_nanos = none;
  rate = 0;
}
