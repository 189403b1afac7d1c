-- ===== src/Store.antt =====
-- internal/store: the caches, the rows of upstreams and of notifications, and the prices.
pub mod Cache
pub mod Health
pub mod Balance
pub mod LoadGate
pub mod Outbox
pub mod OutboxTests
pub mod Pricing
pub mod Tests
