-- ===== src/Admin/Login.antt =====
-- internal/httpapi/admin.go: `loginLimiter` and the part of `login` that decides whether a password is
-- checked. Each call of the limiter reads the clock; a wait that is over is 0.
pub mod Bound
pub mod Race
use d_api.Base.{
  ℕ, ◌+◌, ◌-◌, ◌*◌, String, Bool, true, false, not, ◌&&◌, ◌||◌, Option, none, some, ltb, leb,
  nat_beq, length, string_key, if◌then◌else◌,
}
use d_api.Base.Maps.{Map, lookup, insert, delete, retain}

pub record LoginAttempt : Type 0 where
  pub count : ℕ
  pub window_start : ℕ
  pub blocked_till : ℕ

pub record LoginLimiter : Type 0 where
  pub attempts : Map String LoginAttempt
  pub last_cleanup : ℕ

abbrev pub minute : ℕ
minute = 60000000000

abbrev pub quarter : ℕ
quarter = 15 * minute

abbrev pub max_attempts : ℕ
max_attempts = 4096

abbrev pub attempt_or_zero : Option LoginAttempt → LoginAttempt
attempt_or_zero none = record { count = 0; window_start = 0; blocked_till = 0 }
attempt_or_zero (some e) = e

abbrev pub is_absent : Option LoginAttempt → Bool
is_absent none = true
is_absent (some e) = false

abbrev pub is_stale : ℕ → LoginAttempt → Bool
is_stale now e = ltb (e.window_start + quarter) now && ltb e.blocked_till now

-- `cleanupLocked`.
unfoldable pub cleanup : ℕ → LoginLimiter → LoginLimiter
cleanup now l =
    if not (nat_beq l.last_cleanup 0) && ltb now (l.last_cleanup + minute)
    then l
    else record { attempts = retain (λ ip e. not (is_stale now e)) l.attempts; last_cleanup = now }

-- No place is left for another key.
abbrev pub is_full : String → LoginLimiter → Bool
is_full key l = is_absent (lookup key l.attempts) && leb max_attempts (length l.attempts)

unfoldable pub wait : String → ℕ → LoginLimiter → LoginLimiter × ℕ
wait key now l =
    let l' = cleanup now l in
    (
      l',
      if is_full key l'
          then minute
          else (attempt_or_zero (lookup key l'.attempts)).blocked_till - now,
    )

-- The attempt after one more failure.
abbrev pub failed_again : ℕ → LoginAttempt → LoginAttempt
failed_again now e =
    let e' : LoginAttempt =
      if ltb (e.window_start + quarter) now
      then record { count = 0; window_start = now; blocked_till = 0 }
      else e in
    record {
      count = e'.count + 1;
      window_start = e'.window_start;
      blocked_till = if leb 5 (e'.count + 1) then now + quarter else e'.blocked_till;
    }

unfoldable pub fail : String → ℕ → LoginLimiter → LoginLimiter × Bool
fail key now l =
    let l' = cleanup now l in
    if is_full key l'
    then (l', true)
    else (let e = failed_again now (attempt_or_zero (lookup key l'.attempts)) in
        (record l' { attempts = insert key e l'.attempts }, leb 5 e.count))

unfoldable pub success : String → LoginLimiter → LoginLimiter
success key l = record l { attempts = delete key l.attempts }

-- Where a request to log in stands between its calls of the limiter. In `checking` its password is
-- compared; `refusing` is a text that is too long; the last three are its ends.
pub data Phase : Type 0 where
  arrived ip_free refusing checking failing forgiving turned_away failed logged_in : Phase

-- A request to log in, with what it brings: whether its body decodes, is too long, and has the right
-- password.
pub record Login : Type 0 where
  pub ip : String
  pub account_key : String
  pub decodes : Bool
  pub too_long : Bool
  pub correct : Bool
  pub phase : Phase

-- The next call that `login` makes of the limiter, which locks it, and what follows up to the one
-- after it. Calls of other requests may come between.
unfoldable pub next_call : Phase → ℕ → Login → LoginLimiter → LoginLimiter × Phase
next_call Phase.arrived now r l =
    let (l', left) = wait r.ip now l in
    (l', if ltb 0 left || not r.decodes then Phase.turned_away else Phase.ip_free)
next_call Phase.ip_free now r l =
    let (l', left) = wait r.account_key now l in
    (
      l',
      if ltb 0 left
          then Phase.turned_away
          else (if r.too_long then Phase.refusing else Phase.checking),
    )
next_call Phase.refusing now r l = ((fail r.ip now l).0, Phase.turned_away)
next_call Phase.checking now r l =
    if r.correct then (success r.ip l, Phase.forgiving) else ((fail r.ip now l).0, Phase.failing)
next_call Phase.failing now r l = ((fail r.account_key now l).0, Phase.failed)
next_call Phase.forgiving now r l = (success r.account_key l, Phase.logged_in)
next_call Phase.turned_away now r l = (l, Phase.turned_away)
next_call Phase.failed now r l = (l, Phase.failed)
next_call Phase.logged_in now r l = (l, Phase.logged_in)
