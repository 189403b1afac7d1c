-- ===== src/Store/Health/Recovery.antt =====
-- internal/store/upstreams.go, `saveHealth`: how reports in a row take an upstream out of service and
-- back.
use d_api.Base.{
  ℕ, ◌+◌, ◌<◌, ◌≤◌, ◌≡◌, ◌↔◌, String, Bool, true, false, none, List, [], ◌∷◌, length, arith,
}
use d_api.Core.{HealthStatus}
use d_api.Store.Health.{Row, succeed, fail}
use d_api.Store.Health.Rows.{IsWell}

-- What a caller of `SaveHealth` reports: a request that went well, or a failure.
pub data Report : Type 0 where
  request : ℕ → Report
  failure : String → Bool → ℕ → Report

pub report_all : List Report → Row → Row
report_all [] r = r
report_all (Report.request now ∷ rest) r = report_all rest (succeed false now r)
report_all (Report.failure message auth now ∷ rest) r = report_all rest (fail message auth now r)

succeed-stays :
    (now : ℕ) (r : Row)
    → r.health_status ≡ HealthStatus.unhealthy
    → ((succeed false now r).health_status ≡ HealthStatus.unhealthy)
      × ((succeed false now r).circuit_open_until ≡ r.circuit_open_until)
unfolding succeed
succeed-stays now r h = ground (arith, h)

fail-stays :
    (message : String) (auth : Bool) (now : ℕ) (r : Row)
    → r.health_status ≡ HealthStatus.unhealthy
    → (fail message auth now r).health_status ≡ HealthStatus.unhealthy
unfolding fail
fail-stays message auth now r h = ground (arith, h)

-- Requests that go well and failures, in any order and number, leave an unhealthy upstream
-- unhealthy.
pub report_all-stays :
    (rs : List Report) (r : Row)
    → r.health_status ≡ HealthStatus.unhealthy
    → (report_all rs r).health_status ≡ HealthStatus.unhealthy
unfolding report_all
report_all-stays [] r h = h
report_all-stays (Report.request now ∷ rest) r h =
    report_all-stays rest (succeed false now r) (succeed-stays now r h).0
report_all-stays (Report.failure message auth now ∷ rest) r h =
    report_all-stays rest (fail message auth now r) (fail-stays message auth now r h)

-- Failures that are not about the credentials, one after the other at the given times.
pub fail_all : String → List ℕ → Row → Row
fail_all message [] r = r
fail_all message (now ∷ rest) r = fail_all message rest (fail message false now r)

fail-counts :
    (message : String) (now : ℕ) (r : Row)
    → ((r.health_status ≡ HealthStatus.unhealthy) ↔ (r.failure_threshold ≤ r.consecutive_failures))
    → let s = fail message false now r in
      ((s.health_status ≡ HealthStatus.unhealthy) ↔ (s.failure_threshold ≤ s.consecutive_failures))
      × (s.failure_threshold ≡ r.failure_threshold)
      × (s.consecutive_failures ≡ r.consecutive_failures + 1)
unfolding fail
fail-counts message now r h = ground (arith, h)

-- If an upstream is unhealthy exactly when its failures in a row have reached the threshold, then
-- after more failures in a row it is unhealthy exactly when all of them together have reached it.
pub fail_all-trips :
    (message : String) (ts : List ℕ) (r : Row)
    → ((r.health_status ≡ HealthStatus.unhealthy) ↔ (r.failure_threshold ≤ r.consecutive_failures))
    → ((fail_all message ts r).health_status ≡ HealthStatus.unhealthy)
      ↔ (r.failure_threshold ≤ r.consecutive_failures + length ts)
unfolding fail_all
fail_all-trips message [] r h = ground (arith, h)
fail_all-trips message (now ∷ rest) r h =
    let one = fail-counts message now r h in
    ground (arith, fail_all-trips message rest (fail message false now r) one.0, one)

-- Probes that go well, of an unhealthy upstream whose recovery has not begun: after the first it is
-- unhealthy; after the second it is healthy exactly when two minutes have passed since the first;
-- otherwise the third makes it healthy, closes the circuit and clears the counts.
pub recovery_lem :
    (first second third : ℕ) (r : Row)
    → IsWell r
    → r.health_status ≡ HealthStatus.unhealthy
    → r.consecutive_successes ≡ 0
    → let a = succeed true first r in
      let b = succeed true second a in
      let c = succeed true third b in
      (a.health_status ≡ HealthStatus.unhealthy)
      × ((b.health_status ≡ HealthStatus.healthy) ↔ (first + 120000000000 ≤ second))
      × (second < first + 120000000000
          → (c.health_status ≡ HealthStatus.healthy)
            × (c.circuit_open_until ≡ none)
            × (c.consecutive_failures ≡ 0)
            × (c.consecutive_successes ≡ 0))
unfolding succeed
recovery_lem first second third r w u z = ground (arith, w.counted.1, u, z)
