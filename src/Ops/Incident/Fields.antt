-- ===== src/Ops/Incident/Fields.antt =====
-- What each part of `Observe` does to the fields that the properties of histories are about.
use d_api.Base.{ℕ, ◌+◌, ◌≤◌, ◌<◌, ◌≡◌, Bool, true, false, Option, none, some, arith, if◌then◌else◌}
use d_api.Ops.Incident.{
  resolved, IncidentState, IncidentPolicy, Reading, is_true, arrive, observe_active, observe_normal,
  decide, observe,
}

-- A normal period, if one is running, began no earlier than `t`.
abbrev pub NormalFrom : ℕ → Option ℕ → Type 0
NormalFrom t none = Unit
NormalFrom t (some n) = t ≤ n

-- The last firing that the state remembers, once it knows what was notified.
abbrev pub HasNotified : {V : Type 0} → IncidentState V → Bool → Type 0
HasNotified s b = s.incident.notified_active ≡ some b

module _ {V : Type 0} where
  -- A reading before the stable period has passed keeps the count of notifications.
  pub observe-count :
      (p : IncidentPolicy) (r : Reading) (s : IncidentState V) (t : ℕ)
      → NormalFrom t s.incident.normal_since
      → t ≤ r.now
      → r.now < t + p.stable_for
      → ((observe p r s).0.notification_count ≡ s.notification_count)
        × (NormalFrom t (observe p r s).0.incident.normal_since)
  unfolding observe arrive observe_active observe_normal
  observe-count p r s t n h k = ground arith

  -- What was notified last is not changed by a reading.
  pub observe-notified :
      (p : IncidentPolicy) (r : Reading) (s : IncidentState V) (b : Bool)
      → HasNotified s b
      → HasNotified (observe p r s).0 b
  unfolding observe arrive observe_active observe_normal
  observe-notified p r s b h = ground arith

  -- With a stable period, the time of the last firing is not changed by a reading either.
  pub observe-last_firing :
      (p : IncidentPolicy) (r : Reading) (s : IncidentState V) (b : Bool)
      → HasNotified s b
      → 0 < p.stable_for
      → (observe p r s).0.incident.last_firing_at ≡ s.incident.last_firing_at
  unfolding observe arrive observe_active observe_normal
  observe-last_firing p r s b h k = ground arith

  decide_resolved :
      (p : IncidentPolicy) (now : ℕ) (active : Bool) (s : IncidentState V)
      → decide p now active s ≡ resolved
      → (s.active ≡ false) × (active ≡ false) × (is_true s.incident.notified_active ≡ true)
  unfolding decide
  decide_resolved p now active s h = ground arith

  -- "resolved" is sent only for a normal reading in an inactive state, after a notified firing.
  pub observe_resolved :
      (p : IncidentPolicy) (r : Reading) (s : IncidentState V)
      → (observe p r s).1 ≡ resolved
      → (r.active ≡ false)
        × (r.ignore ≡ false)
        × (r.hold ≡ false)
        × ((observe p r s).0.active ≡ false)
        × (is_true (observe p r s).0.incident.notified_active ≡ true)
  unfolding observe
  observe_resolved p r s h =
      let s' =
        if r.active
        then observe_active p r.now (arrive p r.now s)
        else observe_normal p r.now (arrive p r.now s) in
      ground (arith, decide_resolved p r.now r.active s')
