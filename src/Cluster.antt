-- ===== src/Cluster.antt =====
-- The Kubernetes objects that the operator handles, and its access to the API server.
pub mod Meta
pub mod Api
pub mod Monitoring
pub mod Objects
pub mod Zero
pub mod Platform
