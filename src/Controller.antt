-- ===== src/Controller.antt =====
-- controllers/: the reconciler of the ManagedMCG resource.
pub mod Reconciler
pub mod Calls
pub mod Status
pub mod Bucket
pub mod Uninstall
pub mod Storage
pub mod Plugin
pub mod Monitoring
pub mod Phases
pub mod Setup
pub mod Access
pub mod Shared
pub mod Callbacks
