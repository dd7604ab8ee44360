-- ===== src/Templates.antt =====
-- templates/: the objects that the operator starts from, as constants.
pub mod Text
pub mod Alerts
pub mod Metrics
pub mod Network
pub mod Storage
