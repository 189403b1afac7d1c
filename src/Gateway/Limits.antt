-- ===== src/Gateway/Limits.antt =====
-- internal/gateway/handler.go, `newHandler`: the limits in force. A value that is not positive is 0
-- here; durations are nanoseconds.
use d_api.Base.{ℕ, ◌≤◌, ◌<◌, ◌≡◌, Option, none, some, ltb, if◌then◌else◌, arith}

-- `Limits`, with every field.
pub record Configured : Type 0 where
  pub max_concurrent_requests : ℕ
  pub max_concurrent_per_key : ℕ
  pub max_requests_per_minute : ℕ
  pub max_request_duration : ℕ
  pub downstream_write_timeout : ℕ
  pub max_buffered_request_bytes : ℕ
  pub max_buffered_response_bytes : ℕ

abbrev pub defaults : Configured
defaults = record {
  max_concurrent_requests = 256;
  max_concurrent_per_key = 32;
  max_requests_per_minute = 600;
  max_request_duration = 900000000000;
  downstream_write_timeout = 30000000000;
  max_buffered_request_bytes = 536870912;
  max_buffered_response_bytes = 536870912;
}

-- `if configured > 0 { limit = configured }`.
abbrev pub given_or : ℕ → ℕ → ℕ
given_or limit configured = if ltb 0 configured then configured else limit

-- `if limit > bound { limit = bound }`.
abbrev pub capped : ℕ → ℕ → ℕ
capped bound limit = if ltb bound limit then bound else limit

unfoldable pub configure : Option Configured → Configured
configure none = defaults
configure (some c) = record {
  max_concurrent_requests = given_or defaults.max_concurrent_requests c.max_concurrent_requests;
  max_concurrent_per_key = given_or defaults.max_concurrent_per_key c.max_concurrent_per_key;
  max_requests_per_minute = given_or defaults.max_requests_per_minute c.max_requests_per_minute;
  max_request_duration = given_or defaults.max_request_duration c.max_request_duration;
  downstream_write_timeout = given_or defaults.downstream_write_timeout c.downstream_write_timeout;
  max_buffered_request_bytes =
      given_or defaults.max_buffered_request_bytes c.max_buffered_request_bytes;
  max_buffered_response_bytes =
      given_or defaults.max_buffered_response_bytes c.max_buffered_response_bytes;
}

unfoldable pub new_limits : Option Configured → Configured
new_limits configured =
    let c = configure configured in
    record c {
      max_concurrent_requests = capped 10000 c.max_concurrent_requests;
      max_concurrent_per_key = capped 1000 c.max_concurrent_per_key;
      max_requests_per_minute = capped 100000 c.max_requests_per_minute;
      max_request_duration = capped 86400000000000 c.max_request_duration;
    }

-- Whatever is configured, the handler's limits on requests, on each key, on the rate and on the
-- duration are positive and at most 10000, 1000, 100000 and a day, and the write timeout and the two
-- byte budgets are positive; a configured limit on requests within its bounds is the one in force.
pub new_limits_lem :
    (configured : Option Configured) (c : Configured)
    → let l = new_limits configured in
      ((0 < l.max_concurrent_requests) × (l.max_concurrent_requests ≤ 10000))
      × ((0 < l.max_concurrent_per_key) × (l.max_concurrent_per_key ≤ 1000))
      × ((0 < l.max_requests_per_minute) × (l.max_requests_per_minute ≤ 100000))
      × ((0 < l.max_request_duration) × (l.max_request_duration ≤ 86400000000000))
      × (0 < l.downstream_write_timeout)
      × ((0 < l.max_buffered_request_bytes) × (0 < l.max_buffered_response_bytes))
      × (configured ≡ some c
          → 0 < c.max_concurrent_requests
          → c.max_concurrent_requests ≤ 10000
          → l.max_concurrent_requests ≡ c.max_concurrent_requests)
unfolding new_limits configure
new_limits_lem none c = ground arith
new_limits_lem (some d) c = ground arith
