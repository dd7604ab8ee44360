-- ===== src/Safety.antt =====
-- Which requests the operator sends to the API server, and which it never sends.
pub mod Within
pub mod Kinds
pub mod Monitoring
pub mod Upkeep
pub mod Reads
pub mod Removal
pub mod Phases
pub mod Waiting
pub mod Deletion
pub mod Finalizer
pub mod Whole
pub mod StatusWrite
pub mod Resources
pub mod Claims
pub mod Release
