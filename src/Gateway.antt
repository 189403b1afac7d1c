-- ===== src/Gateway.antt =====
-- internal/gateway: admission, the loop over upstreams, relays and headers, budgets, the log recorder.
pub mod Budget
pub mod Gate
pub mod Proxy
pub mod Handler
pub mod HandlerTests
pub mod Headers
pub mod HealthLocks
pub mod Limits
pub mod Models
pub mod AdmissionTests
pub mod ProxyTests
pub mod Rate
pub mod Sse
pub mod Recorder
pub mod Relay
pub mod RecorderTests
pub mod Transport
pub mod Usage
pub mod StreamTests
pub mod Tests
