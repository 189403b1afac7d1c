-- ===== src/Admin.antt =====
-- internal/httpapi: the limit on attempts to log in.
pub mod Login
pub mod Tests
