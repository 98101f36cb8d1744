-- ===== src/Query.antt =====
-- src/query.rs: the typed query builders, one module for each opaque handle, and the entry points
-- that run them. `LogQuery.set_service` is `imbh_log_query_set_service`, and so on.
pub mod Builders
pub mod LogQuery
pub mod MetricQuery
pub mod SpanMetricsQuery
pub mod TraceQuery
pub mod MetricPointsQuery
pub mod Run
pub mod Paging
pub mod Session
pub mod TraceSession
pub mod MetricSession
pub mod SpanMetricsSession
pub mod PointsSession
