-- ===== src/Gateway/Rate.antt =====
-- internal/gateway/limits.go, `requestRateLimiter`: the fixed one-minute window of each API key.
-- Times are nanoseconds since the zero `time.Time`, so `IsZero` is a comparison with 0.
pub mod Window
use d_api.Base.{
  ℕ, ◌+◌, ◌-◌, ◌*◌, ◌%◌, Bool, true, false, not, ◌||◌, Option, none, some, [], leb, ltb, nat_beq,
  if◌then◌else◌, nat_key,
}
use d_api.Base.Maps.{Map, lookup, insert, retain}

abbrev pub minute : ℕ
minute = 60000000000

pub record RequestRate : Type 0 where
  pub window : ℕ
  pub count : ℕ

pub record RequestRateLimiter : Type 0 where
  pub entries : Map ℕ RequestRate
  pub last_cleanup : ℕ

abbrev pub zero_rate : RequestRate
zero_rate = record { window = 0; count = 0 }

abbrev pub rate_or_zero : Option RequestRate → RequestRate
rate_or_zero none = zero_rate
rate_or_zero (some r) = r

unfoldable pub empty : RequestRateLimiter
empty = record { entries = []; last_cleanup = 0 }

-- `now.UTC().Truncate(time.Minute)`.
abbrev pub window_of : ℕ → ℕ
window_of now = now - now % minute

-- The sweep of entries of earlier windows, at most once a minute.
unfoldable pub cleanup : ℕ → RequestRateLimiter → RequestRateLimiter
cleanup now l =
    if nat_beq l.last_cleanup 0 || leb (l.last_cleanup + minute) now
    then record {
      entries = retain (λ id r. not (ltb r.window (window_of now))) l.entries;
      last_cleanup = now;
    }
    else l

unfoldable pub current : ℕ → ℕ → RequestRateLimiter → RequestRate
current key window l =
    let entry = rate_or_zero (lookup key l.entries) in
    if nat_beq entry.window window then entry else record { window = window; count = 0 }

unfoldable pub allow : ℕ → ℕ → ℕ → RequestRateLimiter → RequestRateLimiter × Bool
allow key max now l =
    let swept = cleanup now l in
    let entry = current key (window_of now) swept in
    if leb max entry.count
    then (record swept { entries = insert key entry swept.entries }, false)
    else (
      record swept {
        entries = insert key (record entry { count = entry.count + 1 }) swept.entries;
      },
      true,
    )
