-- ===== src/Lgtm.antt =====
-- src/lgtm.rs: PromQL, LogQL and TraceQL.
pub mod Interface
pub mod Context
pub mod Queries
pub mod Translation
