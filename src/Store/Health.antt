-- ===== src/Store/Health.antt =====
-- internal/store/upstreams.go, `SaveHealth`, `SaveProbeHealth` and `AcknowledgeHealthNotification`:
-- the columns that keep an upstream's health, updated as the SQL statements say. `now` is the time of
-- the statement.
pub mod Recovery
pub mod Rows
use d_api.Base.{
  ℕ, ◌+◌, ◌*◌, String, Bool, true, false, not, ◌&&◌, ◌||◌, Option, none, some, ltb, leb, nat_beq,
  if◌then◌else◌,
}
use d_api.Core.{HealthStatus, same_status}

pub record Row : Type 0 where
  pub config_version : ℕ
  pub failure_threshold : ℕ
  pub cooldown_seconds : ℕ
  pub health_status : HealthStatus
  pub health_notified_status : HealthStatus
  pub consecutive_failures : ℕ
  pub consecutive_successes : ℕ
  pub recovery_started_at : Option ℕ
  pub circuit_open_until : Option ℕ
  pub last_check_at : ℕ
  pub last_error : String

pub data Failure : Type 0 where
  not_found upstream_config_changed invalid_status : Failure

-- What the method returns: the status and the notification that is due, if any.
pub data Reply : Type 0 where
  saved : HealthStatus → Option HealthStatus → Reply
  failed : Failure → Reply

abbrev pub is_unhealthy : HealthStatus → Bool
is_unhealthy HealthStatus.unhealthy = true
is_unhealthy _ = false

abbrev pub same_time : Option ℕ → Option ℕ → Bool
same_time none none = true
same_time (some s) (some t) = nat_beq s t
same_time _ _ = false

-- `recovery_started_at IS NULL OR recovery_started_at > now()-interval '2 minutes'`.
abbrev pub recent : Option ℕ → ℕ → Bool
recent none now = true
recent (some t) now = ltb now (t + 120000000000)

-- `consecutive_successes + 1 < 3 AND (...)`: one more success does not end the recovery.
abbrev pub recovering : Row → ℕ → Bool
recovering r now = ltb (r.consecutive_successes + 1) 3 && recent r.recovery_started_at now

-- The row stays unhealthy after a success.
abbrev pub held : Bool → ℕ → Row → Bool
held confirm now r = is_unhealthy r.health_status && (not confirm || recovering r now)

abbrev pub coalesce : Option ℕ → ℕ → ℕ
coalesce none now = now
coalesce (some t) now = t

-- The update for a success.
unfoldable pub succeed : Bool → ℕ → Row → Row
succeed confirm now r = record {
  config_version = r.config_version;
  failure_threshold = r.failure_threshold;
  cooldown_seconds = r.cooldown_seconds;
  health_status = if held confirm now r then HealthStatus.unhealthy else HealthStatus.healthy;
  health_notified_status = r.health_notified_status;
  consecutive_failures = 0;
  consecutive_successes =
      if is_unhealthy r.health_status && not confirm
      then r.consecutive_successes
      else (if is_unhealthy r.health_status && recovering r now
          then r.consecutive_successes + 1
          else 0);
  recovery_started_at =
      if is_unhealthy r.health_status && not confirm
      then r.recovery_started_at
      else (if is_unhealthy r.health_status && recovering r now
          then some (coalesce r.recovery_started_at now)
          else none);
  circuit_open_until = if held confirm now r then r.circuit_open_until else none;
  last_check_at = now;
  last_error = if held confirm now r then r.last_error else "";
}

-- The row becomes or stays unhealthy after a failure.
abbrev pub trips : Bool → Row → Bool
trips auth_failure r =
    is_unhealthy r.health_status
    || (auth_failure || leb r.failure_threshold (r.consecutive_failures + 1))

-- The update for a failure.
unfoldable pub fail : String → Bool → ℕ → Row → Row
fail message auth_failure now r = record {
  config_version = r.config_version;
  failure_threshold = r.failure_threshold;
  cooldown_seconds = r.cooldown_seconds;
  health_status = if trips auth_failure r then HealthStatus.unhealthy else HealthStatus.degraded;
  health_notified_status = r.health_notified_status;
  consecutive_failures = r.consecutive_failures + 1;
  consecutive_successes = 0;
  recovery_started_at = none;
  circuit_open_until =
      if trips auth_failure r
      then some (now + r.cooldown_seconds * 1000000000)
      else r.circuit_open_until;
  last_check_at = now;
  last_error = message;
}

unfoldable pub pending_health_notification : HealthStatus → HealthStatus → Option HealthStatus
pending_health_notification status notified =
    if is_unhealthy status && not (is_unhealthy notified)
    then some HealthStatus.unhealthy
    else (if same_status status HealthStatus.healthy && is_unhealthy notified
        then some HealthStatus.healthy
        else none)

-- `WHERE id=$1 AND ($3=0 OR config_version=$3)`.
abbrev pub selects : ℕ → Row → Bool
selects version r = nat_beq version 0 || nat_beq r.config_version version

abbrev pub missing : ℕ → Failure
missing version = if ltb 0 version then Failure.upstream_config_changed else Failure.not_found

-- `IS DISTINCT FROM` the columns of before.
abbrev pub changed : Row → Row → Bool
changed old r =
    not (same_status r.health_status old.health_status)
    || (not (nat_beq r.consecutive_failures old.consecutive_failures)
        || not (same_time r.circuit_open_until old.circuit_open_until))

pub record Outcome : Type 0 where
  pub row : Option Row
  pub reply : Reply
  -- `invalidateRouteCache` was called.
  pub invalidated : Bool

abbrev pub reply_of : Row → Reply
reply_of r =
    Reply.saved r.health_status
      (pending_health_notification r.health_status r.health_notified_status)

unfoldable pub save_row : Bool → String → Bool → Bool → ℕ → Row → Outcome
save_row true message auth_failure confirm now r =
    let new = succeed confirm now r in
    record { row = some new; reply = reply_of new; invalidated = changed r new }
save_row false message auth_failure confirm now r =
    let new = fail message auth_failure now r in
    record { row = some new; reply = reply_of new; invalidated = true }

unfoldable pub save_health : Bool → String → Bool → Bool → ℕ → ℕ → Option Row → Outcome
save_health healthy message auth_failure confirm version now none = record {
  row = none;
  reply = Reply.failed (missing version);
  invalidated = false;
}
save_health healthy message auth_failure confirm version now (some r) =
    if selects version r
    then save_row healthy message auth_failure confirm now r
    else record { row = some r; reply = Reply.failed (missing version); invalidated = false }

unfoldable pub acknowledge_health_notification :
    HealthStatus → Option Row → Option Row × Option Failure
acknowledge_health_notification HealthStatus.degraded row = (row, some Failure.invalid_status)
acknowledge_health_notification HealthStatus.unknown row = (row, some Failure.invalid_status)
acknowledge_health_notification status none = (none, some Failure.not_found)
acknowledge_health_notification status (some r) =
    (some (record r { health_notified_status = status }), none)
