-- ===== src/Admin/Tests.antt =====
-- Two guesses of a password whose calls of the limiter come in turn.
use d_api.Base.{ℕ, ◌≤◌, refl, arith, true, false, List, [], ◌∷◌, string_key}
use d_api.Base.Maps.{lookup, retain}
use d_api.Admin.Login.{LoginLimiter, Login, Phase, next_call, wait, cleanup}
use d_api.Admin.Login.Race.{IsGuess, Reach, checks, in_flight}
use d_api.Admin.Login.Race.Checks.{Reach-checks}

abbrev attempt : Login
attempt = record {
  ip = "192.0.2.7";
  account_key = "account:admin";
  decodes = true;
  too_long = false;
  correct = false;
  phase = Phase.arrived;
}

-- The same login in a later phase.
abbrev attempt_in : Phase → Login
attempt_in p = record attempt { phase = p }

abbrev no_attempts : LoginLimiter
no_attempts = record { attempts = []; last_cleanup = 0 }

abbrev quiet_at : ℕ → LoginLimiter
quiet_at t = record { attempts = []; last_cleanup = t }

abbrev Run : List Login → LoginLimiter → Type 0
Run = Reach 2 900000000001 "account:admin" no_attempts

attempt-IsGuess : (p : Phase) → IsGuess "account:admin" (attempt_in p)
attempt-IsGuess p = (refl, λ _. refl)

two_arrived : Run (attempt ∷ attempt ∷ []) no_attempts
two_arrived = Reach.arrives attempt _ _ (Reach.arrives attempt _ _ Reach.starts refl) refl

first_waits : Run (attempt_in Phase.ip_free ∷ attempt ∷ []) (quiet_at 900000000001)
unfolding next_call wait cleanup lookup retain in_flight
first_waits =
    Reach.calls 900000000001 attempt [] (attempt ∷ []) no_attempts two_arrived
      (attempt-IsGuess Phase.arrived) (omega arith) (omega arith) (omega arith) (omega arith)

second_waits :
    Run (attempt_in Phase.ip_free ∷ attempt_in Phase.ip_free ∷ []) (quiet_at 900000000001)
unfolding next_call wait cleanup lookup retain in_flight
second_waits =
    Reach.calls 900000000002 attempt (attempt_in Phase.ip_free ∷ []) [] (quiet_at 900000000001)
      first_waits (attempt-IsGuess Phase.arrived) (omega arith) (omega arith) (omega arith)
      (omega arith)

first_checks :
    Run (attempt_in Phase.checking ∷ attempt_in Phase.ip_free ∷ []) (quiet_at 900000000001)
unfolding next_call wait cleanup lookup retain in_flight
first_checks =
    Reach.calls 900000000003 (attempt_in Phase.ip_free) [] (attempt_in Phase.ip_free ∷ [])
      (quiet_at 900000000001) second_waits (attempt-IsGuess Phase.ip_free) (omega arith)
      (omega arith) (omega arith) (omega arith)

both_check :
    Run (attempt_in Phase.checking ∷ attempt_in Phase.checking ∷ []) (quiet_at 900000000001)
unfolding next_call wait cleanup lookup retain in_flight
both_check =
    Reach.calls 900000000004 (attempt_in Phase.ip_free) (attempt_in Phase.checking ∷ []) []
      (quiet_at 900000000001) first_checks (attempt-IsGuess Phase.ip_free) (omega arith)
      (omega arith) (omega arith) (omega arith)

Reach-checks_example :
    checks "account:admin" (attempt_in Phase.checking ∷ attempt_in Phase.checking ∷ []) ≤ 6
unfolding lookup
Reach-checks_example =
    Reach-checks 2 900000000001 "account:admin" no_attempts
      (attempt_in Phase.checking ∷ attempt_in Phase.checking ∷ []) (quiet_at 900000000001)
      (omega arith) tt refl both_check
