-- ===== src/Serve.antt =====
-- The parts of internal/server that the workers and the handlers of connections share, but for the
-- pool of workers.
pub mod Shared
pub mod Hub
pub mod Mode
mod Tests
