-- ===== src/Ops.antt =====
-- internal/ops: the incident state machine, the monitor's queues, the probe's caches.
pub mod Incident
pub mod Paths
pub mod Pending
pub mod Tests
