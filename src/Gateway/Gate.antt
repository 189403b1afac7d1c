-- ===== src/Gateway/Gate.antt =====
-- internal/gateway/limits.go, `requestGate`: the bound on concurrent requests, in all and for each
-- API key. The mutex makes each method one step.
pub mod Restore
pub mod Trace
use d_api.Base.{
  ℕ, ◌+◌, ◌-◌, Bool, true, false, ◌||◌, Option, none, some, leb, ltb, [], if◌then◌else◌, nat_key,
}
use d_api.Base.Maps.{Map, lookup, insert, delete}

-- The two fields of `Limits` that the gate reads.
pub record Limits : Type 0 where
  pub max_concurrent_requests : ℕ
  pub max_concurrent_per_key : ℕ

pub record RequestGate : Type 0 where
  pub active : ℕ
  pub by_key : Map ℕ ℕ

-- A missing key reads as 0.
abbrev pub count_or_zero : Option ℕ → ℕ
count_or_zero none = 0
count_or_zero (some n) = n

unfoldable pub empty : RequestGate
empty = record { active = 0; by_key = [] }

unfoldable pub acquire : ℕ → Limits → RequestGate → RequestGate × Bool
acquire key limits g =
    let held = count_or_zero (lookup key g.by_key) in
    if leb limits.max_concurrent_requests g.active || leb limits.max_concurrent_per_key held
    then (g, false)
    else (record { active = g.active + 1; by_key = insert key (held + 1) g.by_key }, true)

-- `byKey[key] - 1` is negative on a missing key, which takes the same branch as 0.
unfoldable pub release : ℕ → RequestGate → RequestGate
release key g =
    let count = count_or_zero (lookup key g.by_key) - 1 in
    record {
      active = if ltb 0 g.active then g.active - 1 else g.active;
      by_key = if ltb 0 count then insert key count g.by_key else delete key g.by_key;
    }
