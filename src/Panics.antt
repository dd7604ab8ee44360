-- ===== src/Panics.antt =====
-- Which parts of a reconciliation never panic, over all paths.
pub mod Calls
pub mod Status
pub mod Removal
pub mod Prometheus
pub mod Alerts
pub mod Resources
pub mod Whole
pub mod Handlers
