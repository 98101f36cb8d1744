-- ===== src/Discovery.antt =====
-- src/discovery.rs: the record batches that the binding builds by hand, and the catalog lookups.
pub mod Batches
pub mod Lookups
pub mod Schema
