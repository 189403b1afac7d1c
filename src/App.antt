-- ===== src/App.antt =====
-- internal/app: the worker that drains the outbox of notifications; cmd/dapi: the shutdown.
pub mod Drain
pub mod Tests
pub mod Worker
