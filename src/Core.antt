-- ===== src/Core.antt =====
-- internal/core/types.go: what the gateway knows of an upstream and of an API key, and the tests by
-- which it routes. `trim` stands for `strings.TrimSpace`. Times are nanoseconds since the zero time.
pub mod Routing
use d_api.Base.{
  ℕ, String, Bool, true, false, not, ◌&&◌, ◌||◌, Option, none, some, List, [], ◌∷◌, ltb, ◌==◌,
  string_key, if◌then◌else◌,
}
use d_api.Base.Maps.{Map, lookup}

pub data HealthStatus : Type 0 where
  healthy degraded unhealthy unknown : HealthStatus

abbrev pub same_status : HealthStatus → HealthStatus → Bool
same_status HealthStatus.healthy HealthStatus.healthy = true
same_status HealthStatus.degraded HealthStatus.degraded = true
same_status HealthStatus.unhealthy HealthStatus.unhealthy = true
same_status HealthStatus.unknown HealthStatus.unknown = true
same_status _ _ = false

-- `core.Upstream`, in the fields that routing and health keeping read.
pub record Upstream : Type 0 where
  pub id : ℕ
  pub name : String
  pub config_version : ℕ
  pub enabled : Bool
  pub balance_suspended : Bool
  pub priority : ℕ
  pub protocols : List String
  pub models : List String
  pub model_aliases : Map String String
  pub circuit_open_until : Option ℕ
  pub health_status : HealthStatus
  pub consecutive_failures : ℕ

pub record ApiKey : Type 0 where
  pub id : ℕ
  pub group_id : ℕ
  pub enabled : Bool
  pub protocols : List String
  pub models : List String

unfoldable pub contains : List String → String → Bool
contains [] value = false
contains (x ∷ xs) value = let rest = contains xs value in if x == value then true else rest

-- A missing alias reads as the empty text.
abbrev pub alias : Upstream → String → String
alias u model = elim (lookup model u.model_aliases) [ none ↦ "" | some m ↦ m ]

abbrev pub is_nil : List String → Bool
is_nil [] = true
is_nil (_ ∷ _) = false

abbrev pub circuit_open : Upstream → ℕ → Bool
circuit_open u now = elim u.circuit_open_until [ none ↦ false | some t ↦ ltb now t ]

unfoldable pub supports : Upstream → String → String → ℕ → Bool
supports u protocol model now =
    if not u.enabled || (u.balance_suspended || circuit_open u now)
    then false
    else (if not (contains u.protocols protocol)
        then false
        else is_nil u.models || (contains u.models model || not (alias u model == "")))

unfoldable pub upstream_model : (String → String) → Upstream → String → String
upstream_model trim u model =
    let mapped = trim (alias u model) in if not (mapped == "") then mapped else model

unfoldable pub allows : ApiKey → String → String → Bool
allows k protocol model =
    k.enabled
    && ((is_nil k.protocols || contains k.protocols protocol)
        && (is_nil k.models || contains k.models model))
