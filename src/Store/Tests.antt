-- ===== src/Store/Tests.antt =====
-- Runs of the caches and of the rows of internal/store on small inputs.
use d_api.Base.{
  ℕ, ◌+◌, ◌≡◌, refl, String, true, false, Option, none, some, List, [], ◌∷◌, arith, string_key,
  nat_key, ltb, leb,
}
use d_api.Base.Maps.{lookup, insert}
use d_api.Core.{ApiKey, HealthStatus}
use d_api.Store.Cache.{
  Caches, no_attempts, cached_api_key, cache_api_key, invalidate_auth_cache, cached_max_attempts,
  cache_max_attempts,
}
use d_api.Store.Cache.Fresh.{World, Step, Reach, served_is_current}
use d_api.Store.Cache.Bounds.{Call}
use d_api.Store.Health.{Row, succeed, fail}
use d_api.Store.Health.Rows.{IsWell}
use d_api.Store.Health.Recovery.{Report, recovery_lem}
use d_api.Store.Balance.{
  Balance, BalanceRow, Signs, Steps, no_balance, balance_protection_state, save_balance,
  write_balance, carry,
}
use d_api.Store.Balance.Suspension.{
  Call as Save, transitions-balance, suspensions_of, resumptions_of, save_all, one_if,
  row_suspended, Empty,
}

abbrev alice : ApiKey
alice = record { id = 1; group_id = 3; enabled = true; protocols = []; models = [] }

abbrev revoked : ApiKey
revoked = record { id = 1; group_id = 4; enabled = true; protocols = []; models = [] }

abbrev cold : Caches
cold = record {
  auth_cache = [];
  auth_gen = 7;
  route_cache = [];
  route_gen = 0;
  max_attempts = no_attempts;
  max_attempts_gen = 0;
}

abbrev rows_before : String → Option ApiKey
rows_before hash = some alice

abbrev rows_after : String → Option ApiKey
rows_after hash = some revoked

abbrev world : World
world = record { caches = cold; rows = rows_before; unannounced = 0; misses = []; loads = [] }

abbrev missed : World
missed = record world { misses = record { hash = "k"; generation = 7 } ∷ [] }

abbrev loaded : World
loaded = record world { loads = record { hash = "k"; key = alice; generation = 7 } ∷ [] }

abbrev stored : World
stored = record world { caches = cache_api_key "k" alice 100 7 cold }

-- A lookup misses, reads the row, and fills the cache.
filled : Reach world stored
unfolding cached_api_key lookup
filled =
    Reach.next
      (Reach.next (Reach.next Reach.here (Step.miss world "k" 90 refl))
        (Step.query missed [] (record { hash = "k"; generation = 7 }) [] alice refl refl))
      (Step.cache loaded [] (record { hash = "k"; key = alice; generation = 7 }) [] 100 refl)

stored_hit : (cached_api_key "k" 200 stored.caches).0 ≡ some alice
unfolding cached_api_key cache_api_key lookup insert
stored_hit = refl

served_is_current_example : rows_before "k" ≡ some alice
served_is_current_example = served_is_current "k" 200 alice refl refl refl filled refl stored_hit

-- The result of a query from before the invalidation is not cached.
late_result :
    (cached_api_key "k" 200 (cache_api_key "k" alice 100 7 (invalidate_auth_cache cold))).0 ≡ none
unfolding cached_api_key cache_api_key invalidate_auth_cache lookup insert
late_result = refl

attempts_expire : (cached_max_attempts 30000000005 (cache_max_attempts 4 5 0 cold)).0 ≡ (4, false)
unfolding cached_max_attempts cache_max_attempts
attempts_expire = refl

abbrev calls : List Call
calls = Call.keep_key "k" alice 100 7 ∷ Call.forget_keys ∷ Call.keep_attempts 3 100 0 ∷ []

abbrev fine : Row
fine = record {
  config_version = 2;
  failure_threshold = 3;
  cooldown_seconds = 60;
  health_status = HealthStatus.healthy;
  health_notified_status = HealthStatus.healthy;
  consecutive_failures = 0;
  consecutive_successes = 0;
  recovery_started_at = none;
  circuit_open_until = none;
  last_check_at = 0;
  last_error = "";
}

abbrev down : Row
down = record fine {
  health_status = HealthStatus.unhealthy;
  consecutive_failures = 3;
  circuit_open_until = some 90;
}

fine-IsWell : IsWell fine
fine-IsWell = ground arith

down-IsWell : IsWell down
down-IsWell = ground arith

abbrev fine_failed : Row
fine_failed = fail "timeout" false 50 fine

abbrev traffic : List Report
traffic = Report.request 100 ∷ Report.failure "refused" true 110 ∷ Report.request 120 ∷ []

recovery_lem_example :
    (succeed true 30 (succeed true 20 (succeed true 10 down))).health_status ≡ HealthStatus.healthy
recovery_lem_example = ((recovery_lem 10 20 30 down down-IsWell refl refl).2 (omega arith)).0

-- Amounts in cents.
abbrev cents : Signs ℕ
cents = record { at_most_zero = λ n. leb n 0; above_zero = λ n. ltb 0 n }

abbrev all_well : Steps
all_well = record {
  query = true;
  decode = true;
  encode = true;
  update = true;
  audit = true;
  alert = true;
  commit = true;
}

abbrev broke : Balance ℕ
broke = record no_balance { status = "ok"; available = some 0 }

abbrev topped_up : Balance ℕ
topped_up = record no_balance { status = "ok"; available = some 500 }

abbrev guarded : BalanceRow ℕ
guarded = record {
  protection = true;
  suspended = false;
  zero_checks = 0;
  balance = none;
  config_version = 1;
}

abbrev month : List (Save ℕ)
month =
    record { now = 1; expected = 0; reading = broke; immediate = false; steps = all_well }
    ∷ record { now = 2; expected = 0; reading = broke; immediate = false; steps = all_well }
    ∷ record { now = 3; expected = 0; reading = topped_up; immediate = false; steps = all_well }
    ∷ []

month_transitions : suspensions_of cents month (some guarded) ≡ 1
unfolding suspensions_of save_balance write_balance balance_protection_state carry
month_transitions = refl

transitions-balance_example :
    suspensions_of cents month (some guarded) + one_if false
    ≡ resumptions_of cents month (some guarded)
      + one_if (row_suspended (save_all cents month (some guarded)))
transitions-balance_example = transitions-balance cents month (some guarded)

broke_twice : Empty cents (broke ∷ broke ∷ [])
unfolding Empty
broke_twice = ground arith
