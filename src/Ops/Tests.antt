-- ===== src/Ops/Tests.antt =====
-- Incidents and queues at concrete readings and events.
use d_api.Base.{
  ℕ, ◌+◌, ◌≤◌, ◌≡◌, refl, inl, inr, Bool, true, false, none, some, List, [], ◌∷◌, arith, string_key,
  nat_key, Bool-cases, nat_beq,
}
use d_api.Base.Maps.{lookup}
use d_api.Ops.Incident.{
  quiet, resolved, firing, IncidentState, IncidentPolicy, Reading, observe, turn, arrive,
  observe_active, observe_normal, decide, settle, accepted,
}
use d_api.Ops.Incident.History.{
  signals, firings, timed_signals, firings-count, signals_alternate, firings_spaced, alternates,
  is_spaced,
}
use d_api.Ops.Pending.{Event, Monitor, event_eq, retry_pending}
use d_api.Ops.Pending.Queue.{IsQueue}
use d_api.Ops.Pending.Retry.{IsWell, retry_pending-IsWell}

abbrev metric_policy : IncidentPolicy
metric_policy = record {
  firing_confirmations = 2;
  recovery_confirmations = 3;
  cooldown = 100;
  stable_for = 1000;
  max_gap = 90;
  max_notifications = 1;
  repeat = true;
}

abbrev idle : IncidentState ℕ
idle = record {
  active = false;
  value = 0;
  message = "";
  last_observed_at = 0;
  last_notified_at = none;
  notification_count = 0;
  incident = record {
    active_since = none;
    notified_active = some false;
    last_firing_at = none;
    normal_since = none;
    retry_after = none;
    firing_streak = 0;
    recovery_streak = 0;
  };
}

abbrev alarmed : IncidentState ℕ
alarmed = record idle { active = true }

abbrev bad : ℕ → Reading
bad t = record { now = t; active = true; ignore = false; hold = false }

abbrev good : ℕ → Reading
good t = record { now = t; active = false; ignore = false; hold = false }

abbrev flapping : List (Reading × Bool)
flapping =
    (bad 10, true)
    ∷ (bad 20, true)
    ∷ (good 30, true)
    ∷ (good 40, true)
    ∷ (good 50, true)
    ∷ (bad 60, true)
    ∷ (bad 70, true)
    ∷ []

-- The second bad reading fires, the third good one resolves, and the budget is spent after that.
flapping-signals :
    signals metric_policy 0 flapping idle
    ≡ quiet ∷ firing ∷ quiet ∷ quiet ∷ resolved ∷ quiet ∷ quiet ∷ []
unfolding signals turn settle observe arrive observe_active observe_normal decide accepted
flapping-signals = refl

firings-count_example : firings metric_policy 0 flapping idle + 0 ≤ 1
firings-count_example =
    firings-count metric_policy 0 flapping idle 10 tt (omega arith) (omega arith) (omega arith)

signals_alternate_example : alternates false (signals metric_policy 0 flapping idle) ≡ true
signals_alternate_example = signals_alternate metric_policy 0 flapping idle false refl

firings_spaced_example : is_spaced 100 none (timed_signals metric_policy 0 flapping idle) ≡ true
firings_spaced_example = firings_spaced metric_policy 0 flapping idle false refl (omega arith)

abbrev suspended : ℕ → Event
suspended t = record {
  kind = "upstream_balance_protection";
  state = "suspended";
  previous = "";
  upstream_id = 3;
  upstream_name = "east";
  message = "paused";
  at = t;
}

one_event : IsQueue (suspended 1 ∷ [])
one_event = record { bounded = omega arith; distinct = (refl, tt) }

abbrev waiting : Monitor
waiting = record { pending = (3, suspended 1 ∷ []) ∷ []; in_flight = [] }

waiting-IsWell : IsWell waiting
unfolding lookup
waiting-IsWell id = elim (Bool-cases (nat_beq 3 id)) [
  | inl e ↦ rw e one_event
  | inr e ↦ rw e (record { bounded = omega arith; distinct = tt })
]

retry_pending-IsWell_example :
    IsWell (retry_pending true 3 ((suspended 2 ∷ [], true) ∷ []) waiting).0
retry_pending-IsWell_example =
    retry_pending-IsWell true 3 ((suspended 2 ∷ [], true) ∷ []) waiting waiting-IsWell
