-- ===== src/Ops/Incident/Signals.antt =====
-- What each call of `observe` may send, and how the signals of a history follow one another.
use d_api.Base.{ℕ, ◌<◌, ◌≡◌, ◌⊎◌, Bool, true, false, arith, if◌then◌else◌}
use d_api.Ops.Incident.{
  firing, IncidentState, IncidentPolicy, Reading, before_option, arrive, observe_active,
  observe_normal, decide, observe, in_cooldown,
}

-- The conditions under which a state may send "firing" at a time.
abbrev pub MayFire : {V : Type 0} → IncidentPolicy → ℕ → IncidentState V → Type 0
MayFire p now s =
    (s.active ≡ true)
    × (before_option now s.incident.retry_after ≡ false)
    × (in_cooldown p now s.incident ≡ false)
    × ((p.max_notifications ≡ 0) ⊎ (s.notification_count < p.max_notifications))

module _ {V : Type 0} where
  decide_firing :
      (p : IncidentPolicy) (now : ℕ) (active : Bool) (s : IncidentState V)
      → decide p now active s ≡ firing
      → (active ≡ true) × (MayFire p now s)
  unfolding decide
  decide_firing p now active s h = ground arith

  -- "firing" is sent only for an active reading that is neither ignored nor held, with the state
  -- confirmed active, a notification left in the budget, no retry pending, and the last firing, if
  -- there is one, at least the cooldown ago and either resolved or to be repeated.
  pub observe_firing :
      (p : IncidentPolicy) (r : Reading) (s : IncidentState V)
      → (observe p r s).1 ≡ firing
      → (r.active ≡ true)
        × (r.ignore ≡ false)
        × (r.hold ≡ false)
        × (MayFire p r.now (observe p r s).0)
  unfolding observe
  observe_firing p r s h =
      let s' =
        if r.active
        then observe_active p r.now (arrive p r.now s)
        else observe_normal p r.now (arrive p r.now s) in
      ground (arith, decide_firing p r.now r.active s')
