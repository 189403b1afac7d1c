-- ===== src/Store/Health/Rows.antt =====
-- internal/store/upstreams.go, `saveHealth`: what holds of every row, and when routes are dropped.
use d_api.Base.{
  ℕ, ◌<◌, ◌≡◌, subst, Bool-cases, inl, inr, ◌≢◌, ◌↔◌, String, Bool, true, false, none, some, arith,
}
use d_api.Core.{HealthStatus}
use d_api.Store.Health.{Row, succeed, fail, save_row, save_health, selects, changed}

pub record IsWell (r : Row) : Type 0 where
  pub tripped : r.health_status ≡ HealthStatus.unhealthy → r.circuit_open_until ≢ none
  pub closed : r.health_status ≢ HealthStatus.unhealthy → r.circuit_open_until ≡ none
  pub clean : r.health_status ≡ HealthStatus.healthy → r.consecutive_failures ≡ 0
  pub counted : (r.recovery_started_at ≡ none) ↔ (r.consecutive_successes ≡ 0)
  pub few : r.consecutive_successes < 3
  pub only_unhealthy : 0 < r.consecutive_successes → r.health_status ≡ HealthStatus.unhealthy

succeed-IsWell : (confirm : Bool) (now : ℕ) (r : Row) → IsWell r → IsWell (succeed confirm now r)
unfolding succeed
succeed-IsWell confirm now r w =
    ground (arith, w.tripped, w.closed, w.clean, w.counted.0, w.counted.1, w.few, w.only_unhealthy)

fail-IsWell :
    (message : String) (auth_failure : Bool) (now : ℕ) (r : Row)
    → IsWell r
    → IsWell (fail message auth_failure now r)
unfolding fail
fail-IsWell message auth_failure now r w = ground (arith, w.tripped, w.closed)

save_row-IsWell :
    (healthy : Bool) (message : String) (auth_failure confirm : Bool) (now : ℕ) (r s : Row)
    → IsWell r
    → (save_row healthy message auth_failure confirm now r).row ≡ some s
    → IsWell s
unfolding save_row
save_row-IsWell true message auth_failure confirm now r s w e =
    subst IsWell (cc e) (succeed-IsWell confirm now r w)
save_row-IsWell false message auth_failure confirm now r s w e =
    subst IsWell (cc e) (fail-IsWell message auth_failure now r w)

-- In every report of an upstream's health, a row keeps its invariant: an unhealthy row and no other
-- has an open circuit, a healthy row has no failures, and the successes counted towards a recovery
-- are fewer than three, began at a known time, and belong to an unhealthy row.
pub save_health-IsWell :
    (healthy : Bool) (message : String) (auth_failure confirm : Bool) (version now : ℕ) (r s : Row)
    → IsWell r
    → (save_health healthy message auth_failure confirm version now (some r)).row ≡ some s
    → IsWell s
unfolding save_health
save_health-IsWell healthy message auth_failure confirm version now r s w e =
    elim (Bool-cases (selects version r)) [
      | inl yours ↦
          save_row-IsWell healthy message auth_failure confirm now r s w (ground (arith, yours))
      | inr other ↦ subst IsWell (ground (arith, other)) w
    ]

unchanged :
    (old r : Row)
    → changed old r ≡ false
    → (r.health_status ≡ old.health_status)
      × (r.consecutive_failures ≡ old.consecutive_failures)
      × (r.circuit_open_until ≡ old.circuit_open_until)
unchanged old r h = ground arith

-- A report that drops no cached route leaves the columns that routing reads as they were.
pub save_health_unseen :
    (healthy : Bool) (message : String) (auth_failure confirm : Bool) (version now : ℕ) (r s : Row)
    → (save_health healthy message auth_failure confirm version now (some r)).row ≡ some s
    → (save_health healthy message auth_failure confirm version now (some r)).invalidated ≡ false
    → (s.health_status ≡ r.health_status)
      × (s.consecutive_failures ≡ r.consecutive_failures)
      × (s.circuit_open_until ≡ r.circuit_open_until)
unfolding save_health save_row
save_health_unseen true message auth_failure confirm version now r s e h =
    ground (arith, unchanged r (succeed confirm now r))
save_health_unseen false message auth_failure confirm version now r s e h = ground arith
