-- ===== src/Alerts.antt =====
-- internal/alerts: the evaluation of alert rules.
pub mod Engine
pub mod States
pub mod Tests
