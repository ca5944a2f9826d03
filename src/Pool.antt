-- ===== src/Pool.antt =====
-- The worker pool of serve mode: leases, hot reload and shutdown (internal/server/worker.go and
-- internal/server/server.go), as steps of threads over shared state.
--
-- Each atomic operation of the source is a step of its own where another thread can come between.
-- What `workerMu` protects is enabled only while no reload holds it.
pub mod State
pub mod Steps
pub mod Invariant
pub mod Keeps
pub mod Leases
pub mod Count
pub mod Races
pub mod Shutdown
mod Tests
