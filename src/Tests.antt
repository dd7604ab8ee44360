-- ===== src/Tests.antt =====
-- A concrete server for tests, and the theorems at concrete data.
pub mod Server
pub mod Data
mod Requests
mod States
mod Helpers
mod Lives
mod Objects
mod Calm
mod Races
mod Drifts
