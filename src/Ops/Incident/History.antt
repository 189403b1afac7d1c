-- ===== src/Ops/Incident/History.antt =====
-- Histories of an incident: readings, each with the outcome of the delivery that it may ask for.
use d_api.Base.{
  ℕ, ◌+◌, ◌≤◌, ◌<◌, ◌≡◌, refl, Bool, true, false, ◌&&◌, Option, none, some, List, [], ◌∷◌, arith,
  leb,
}
use d_api.Ops.Incident.{
  Signal, quiet, resolved, firing, IncidentState, IncidentPolicy, Reading, accepted, enqueue_failed,
  settle, turn,
}
use d_api.Ops.Incident.Fields.{
  NormalFrom, HasNotified, observe-count, observe-notified, observe-last_firing, observe_resolved,
}
use d_api.Ops.Incident.Signals.{observe_firing}

abbrev pub firing_count : Signal → ℕ
firing_count firing = 1
firing_count _ = 0

-- All readings lie in the period of length `d` that begins at `t`.
abbrev pub IsWithin : ℕ → ℕ → List (Reading × Bool) → Type 0
IsWithin t d [] = Unit
IsWithin t d ((r, b) ∷ rs) = (t ≤ r.now) × (r.now < t + d) × IsWithin t d rs

-- Whether a firing was notified last, after a signal.
abbrev pub after_signal : Signal → Bool → Bool
after_signal firing b = true
after_signal resolved b = false
after_signal quiet b = b

abbrev pub may_follow : Bool → Signal → Bool
may_follow b resolved = b
may_follow b _ = true

-- Whether each "resolved" comes after a "firing" with no other "resolved" between them, given
-- whether a firing was notified last.
abbrev pub alternates : Bool → List Signal → Bool
alternates b [] = true
alternates b (x ∷ rest) = may_follow b x && alternates (after_signal x b) rest

-- Whether firings lie at least `d` apart: the readings' times with their signals, and the time of
-- the last firing.
abbrev pub is_spaced : ℕ → Option ℕ → List (ℕ × Signal) → Bool
is_spaced d last [] = true
is_spaced d last ((t, firing) ∷ rest) =
    (elim last [ none ↦ true | some l ↦ leb (l + d) t ]) && is_spaced d (some t) rest
is_spaced d last ((t, _) ∷ rest) = is_spaced d last rest

last_after : ℕ → Signal → Option ℕ → Option ℕ
last_after now firing last = some now
last_after now _ last = last

is_spaced-cons :
    (c now : ℕ) (x : Signal) (last : Option ℕ) (rest : List (ℕ × Signal))
    → is_spaced c last ((now, x) ∷ []) ≡ true
    → is_spaced c (last_after now x last) rest ≡ true
    → is_spaced c last ((now, x) ∷ rest) ≡ true
unfolding last_after
is_spaced-cons c now firing last rest h k = ground arith
is_spaced-cons c now quiet last rest h k = k
is_spaced-cons c now resolved last rest h k = k

module _ {V : Type 0} (p : IncidentPolicy) (cooldown : ℕ) where
  unfoldable pub signals : List (Reading × Bool) → IncidentState V → List Signal
  signals [] s = []
  signals (r ∷ rs) s = (turn p cooldown r s).1 ∷ signals rs (turn p cooldown r s).0

  unfoldable pub firings : List (Reading × Bool) → IncidentState V → ℕ
  firings [] s = 0
  firings (r ∷ rs) s = firing_count (turn p cooldown r s).1 + firings rs (turn p cooldown r s).0

  turn-count :
      (r : Reading) (d : Bool) (s : IncidentState V) (t : ℕ)
      → NormalFrom t s.incident.normal_since
      → t ≤ r.now
      → r.now < t + p.stable_for
      → 0 < p.max_notifications
      → s.notification_count ≤ p.max_notifications
      → ((turn p cooldown (r, d) s).0.notification_count
          ≡ firing_count (turn p cooldown (r, d) s).1 + s.notification_count)
        × ((turn p cooldown (r, d) s).0.notification_count ≤ p.max_notifications)
        × (NormalFrom t (turn p cooldown (r, d) s).0.incident.normal_since)
  unfolding turn settle accepted enqueue_failed
  turn-count r d s t n h k m c = ground (arith, observe-count p r s t n h k, observe_firing p r s)

  -- Within one stable period a flapping signal cannot renew the budget: if all readings lie in a
  -- period of that length, no normal period began before it, the policy has a maximum, and the state
  -- has not used more than it, then the delivered firings and those counted before stay within it.
  pub firings-count :
      (rs : List (Reading × Bool)) (s : IncidentState V) (t : ℕ)
      → NormalFrom t s.incident.normal_since
      → IsWithin t p.stable_for rs
      → 0 < p.max_notifications
      → s.notification_count ≤ p.max_notifications
      → firings rs s + s.notification_count ≤ p.max_notifications
  unfolding firings
  firings-count [] s t n w m c = omega arith
  firings-count ((r, d) ∷ rs) s t n w m c =
      let step = turn-count r d s t n w.0 w.1 m c in
      omega (arith, step.0, firings-count rs (turn p cooldown (r, d) s).0 t step.2 w.2 m step.1)

  turn-notified :
      (r : Reading) (d b : Bool) (s : IncidentState V)
      → HasNotified s b
      → (HasNotified (turn p cooldown (r, d) s).0 (after_signal (turn p cooldown (r, d) s).1 b))
        × (may_follow b (turn p cooldown (r, d) s).1 ≡ true)
  unfolding turn settle accepted enqueue_failed
  turn-notified r d b s h = ground (arith, observe-notified p r s b h, observe_resolved p r s)

  -- Whatever the readings, their order and the outcomes of the deliveries, "resolved" is delivered
  -- only after a delivered "firing" that was not resolved yet, from a state that knows what was
  -- notified last.
  pub signals_alternate :
      (rs : List (Reading × Bool)) (s : IncidentState V) (b : Bool)
      → HasNotified s b
      → alternates b (signals rs s) ≡ true
  unfolding signals
  signals_alternate [] s b h = refl
  signals_alternate ((r, d) ∷ rs) s b h =
      let step = turn-notified r d b s h in
      let x = (turn p cooldown (r, d) s).1 in
      ground
        (arith, step.1, signals_alternate rs (turn p cooldown (r, d) s).0 (after_signal x b) step.0)

  unfoldable pub timed_signals : List (Reading × Bool) → IncidentState V → List (ℕ × Signal)
  timed_signals [] s = []
  timed_signals ((r, d) ∷ rs) s =
      (r.now, (turn p cooldown (r, d) s).1) ∷ timed_signals rs (turn p cooldown (r, d) s).0

  turn-last_firing :
      (r : Reading) (d b : Bool) (s : IncidentState V)
      → HasNotified s b
      → 0 < p.stable_for
      → ((turn p cooldown (r, d) s).0.incident.last_firing_at
          ≡ last_after r.now (turn p cooldown (r, d) s).1 s.incident.last_firing_at)
        × (is_spaced p.cooldown s.incident.last_firing_at
              ((r.now, (turn p cooldown (r, d) s).1) ∷ [])
            ≡ true)
  unfolding turn settle accepted enqueue_failed last_after
  turn-last_firing r d b s h k =
      ground (arith, observe-last_firing p r s b h k, observe_firing p r s)

  -- With a stable period, any two delivered firings are at least the policy's cooldown apart,
  -- also when the incident resolved between them, from a state that knows what was notified last.
  pub firings_spaced :
      (rs : List (Reading × Bool)) (s : IncidentState V) (b : Bool)
      → HasNotified s b
      → 0 < p.stable_for
      → is_spaced p.cooldown s.incident.last_firing_at (timed_signals rs s) ≡ true
  unfolding timed_signals
  firings_spaced [] s b h k = refl
  firings_spaced ((r, d) ∷ rs) s b h k =
      let s' = (turn p cooldown (r, d) s).0 in
      let step = turn-last_firing r d b s h k in
      let note = turn-notified r d b s h in
      is_spaced-cons p.cooldown r.now (turn p cooldown (r, d) s).1 s.incident.last_firing_at
        (timed_signals rs s') step.1
        (rw (← step.0)
          (firings_spaced rs s' (after_signal (turn p cooldown (r, d) s).1 b) note.0 k))
