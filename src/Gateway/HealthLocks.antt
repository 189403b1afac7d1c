-- ===== src/Gateway/HealthLocks.antt =====
-- internal/gateway/handler.go: the states of the upstreams' health that `markSuccess` and
-- `markFailure` share, and `lockUpstreamHealth`, `unlockUpstreamHealth` and `releaseUpstreamHealth`.
-- A pointer to a state is an address in `states`; `healthMu` makes each access one step.
pub mod Threads
pub mod Steps
pub mod Order
pub mod Tests
use d_api.Base.{
  ℕ, ◌+◌, ◌-◌, String, Bool, true, false, not, ◌&&◌, ◌||◌, Option, none, some, nat_beq, ltb,
  if◌then◌else◌, nat_key,
}
use d_api.Base.Maps.{Map, lookup, insert, delete}
use d_api.Core.{Upstream, HealthStatus, same_status}

-- `lock` is a channel of one place; `true` says that it is taken.
pub record UpstreamHealthState : Type 0 where
  pub lock : Bool
  pub references : ℕ
  pub pending_failure : Bool

-- `next` is the first address that was not used.
pub record Health : Type 0 where
  pub states : ℕ → UpstreamHealthState
  pub health : Map ℕ ℕ
  pub next : ℕ

abbrev pub set_state : ℕ → UpstreamHealthState → (ℕ → UpstreamHealthState) → ℕ → UpstreamHealthState
set_state a s states b = if nat_beq a b then s else states b

-- One more reference to the state at an address.
abbrev pub refer : ℕ → Health → Health
refer a h =
    let s = h.states a in
    record h { states = set_state a (record s { references = s.references + 1 }) h.states }

-- The first part of `lockUpstreamHealth`: the state of the upstream, made if there is none.
unfoldable pub enter : ℕ → Health → Health × ℕ
enter id h = elim (lookup id h.health) [
  | some a ↦ (refer a h, a)
  | none ↦ (
    record {
      states =
          set_state h.next (record { lock = false; references = 1; pending_failure = false })
            h.states;
      health = insert id h.next h.health;
      next = h.next + 1;
    },
    h.next,
  )
]

-- `state.lock <- struct{}{}` and `<-state.lock`.
abbrev pub set_lock : Bool → ℕ → Health → Health
set_lock taken a h = record h {
  states = set_state a (record (h.states a) { lock = taken }) h.states;
}

abbrev pub is_at : ℕ → Option ℕ → Bool
is_at a none = false
is_at a (some b) = nat_beq b a

-- `releaseUpstreamHealth`.
unfoldable pub release : ℕ → ℕ → Health → Health
release id a h =
    let s = h.states a in
    let left = s.references - 1 in
    let h' : Health = record h { states = set_state a (record s { references = left }) h.states } in
    if (nat_beq left 0 && not s.pending_failure) && is_at a (lookup id h.health)
    then record h' { health = delete id h.health }
    else h'

-- What the repository answers to a mark.
pub data Written : Type 0 where
  accepted config_changed broken : Written

unfoldable pub needs_success_write : Upstream → Bool
needs_success_write u =
    (not (same_status u.health_status HealthStatus.healthy)
      && not (same_status u.health_status HealthStatus.unhealthy))
    || (same_status u.health_status HealthStatus.healthy && ltb 0 u.consecutive_failures)

abbrev pub after_mark : Bool → Written → UpstreamHealthState → UpstreamHealthState
after_mark failure Written.accepted s = record s { pending_failure = failure }
after_mark failure Written.config_changed s = s
after_mark failure Written.broken s = s

-- `markSuccess` with the lock: the state after it, and whether the repository was called.
unfoldable pub mark_success : Upstream → Written → UpstreamHealthState → UpstreamHealthState × Bool
mark_success u answer s =
    if not (needs_success_write u) && not s.pending_failure
    then (s, false)
    else (after_mark false answer s, true)

-- `markFailure` with the lock, which always calls the repository.
unfoldable pub mark_failure : Written → UpstreamHealthState → UpstreamHealthState
mark_failure answer s = after_mark true answer s
