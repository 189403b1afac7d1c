-- ===== src/Alerts/Engine.antt =====
-- internal/alerts/engine.go: `handle`, which takes one observation through the incident state, and
-- `RunOnce`, which takes the rules through `handle`. The repository and the notifier are behind
-- interfaces: their answers are a parameter that may depend on all the calls made before, and the
-- calls are recorded, newest first. `V` is the type of the float64 `Value`, and `E` that of the
-- evidence, which are only passed on.
pub mod Handle
pub mod Sweep
use d_api.Base.{
  ℕ, ◌+◌, ◌*◌, String, Bool, true, false, not, ◌&&◌, ◌||◌, Option, none, some, List, [], ◌∷◌, ◌++◌,
  map, ltb, ◌==◌, string_key, if◌then◌else◌,
}
use d_api.Ops.Incident.{
  Signal, quiet, resolved, firing, IncidentState, IncidentPolicy, Reading, observe, accepted,
  enqueue_failed, is_quiet,
}

pub data AlertEvent : Type 0 where
  low_balance balance_unavailable error_rate latency client_error_rate login_failure new_login_ip :
      AlertEvent
  other : String → AlertEvent

pub record Rule : Type 0 where
  pub id : ℕ
  pub event : AlertEvent
  pub cooldown : ℕ
  pub max_notifications : ℕ
  pub enabled : Bool

pub record Observation (V E : Type 0) : Type 0 where
  pub evidence : Option E
  pub key : String
  pub active : Bool
  pub ignore : Bool
  pub hold : Bool
  pub value : V
  pub message : String
  pub recovery_message : String
  pub upstream_id : ℕ
  pub upstream_name : String

pub data Phase : Type 0 where
  is_inactive is_active : Phase

-- `ops.Event`, in the fields that the engine sets; `state` is "firing" or "resolved".
pub record Event (E : Type 0) : Type 0 where
  pub kind : AlertEvent
  pub evidence : Option E
  pub active_since : Option ℕ
  pub notification_number : ℕ
  pub state : Signal
  pub previous : Phase
  pub upstream_id : ℕ
  pub upstream_name : String
  pub message : String
  pub at : ℕ

-- The calls that leave a mark outside the engine. A slice of keys that is nil is `none`: the
-- repository may tell it from an empty one.
pub data Call (V E : Type 0) : Type 0 where
  notify : Event E → Call V E
  save_state : ℕ → String → IncidentState V → Call V E
  prune_states : ℕ → Option (List String) → Call V E

pub data Loaded (V E : Type 0) : Type 0 where
  loaded : IncidentState V → Loaded V E
  load_failed : Loaded V E

pub data Observed (V E : Type 0) : Type 0 where
  observed : List (Observation V E) → Observed V E
  observe_failed : Observed V E

-- What the repository, the notifier and the clock answer after the calls so far.
pub record Answers (V E : Type 0) : Type 0 where
  pub rules : Option (List Rule)
  pub observations : List (Call V E) → Rule → Observed V E
  pub load : List (Call V E) → ℕ → String → Loaded V E
  pub now : List (Call V E) → ℕ
  pub has_notifier : Bool
  pub notified : List (Call V E) → Event E → Bool
  pub saved : List (Call V E) → ℕ → String → Bool
  pub pruned : List (Call V E) → ℕ → Bool

pub data Error : Type 0 where
  key_is_empty state_not_loaded notify_failed save_failed notify_and_save_failed rules_not_listed :
      Error
  prune_disabled_failed observe_rule_failed prune_rule_failed : ℕ → Error
  observation_failed : ℕ → String → Error → Error

abbrev pub thirty_minutes : ℕ
thirty_minutes = 1800000000000

abbrev pub ninety_seconds : ℕ
ninety_seconds = 90000000000

abbrev pub is_metric : AlertEvent → Bool
is_metric error_rate = true
is_metric latency = true
is_metric _ = false

abbrev pub is_upstream_event : AlertEvent → Bool
is_upstream_event low_balance = true
is_upstream_event balance_unavailable = true
is_upstream_event e = is_metric e

-- The policy that `handle` builds for a rule and the upstream that is observed.
unfoldable pub policy : Rule → ℕ → IncidentPolicy
policy rule upstream_id =
    let steady = ltb 0 upstream_id || is_upstream_event rule.event in
    let metric = is_metric rule.event in
    record {
      firing_confirmations = if metric then 2 else 1;
      recovery_confirmations = if metric then 3 else 1;
      cooldown = rule.cooldown;
      stable_for = if steady then thirty_minutes else 0;
      max_gap = if steady || metric then ninety_seconds else 0;
      max_notifications = rule.max_notifications;
      repeat = ltb 0 rule.cooldown;
    }

abbrev pub phase : Bool → Phase
phase true = is_active
phase false = is_inactive

module _ {V E : Type 0} where
  unfoldable pub event_of : Rule → Observation V E → ℕ → Bool → Signal → IncidentState V → Event E
  event_of rule o now previously_active signal s =
      let is_resolved : Bool = elim signal [ resolved ↦ true | _ ↦ false ] in
      record {
        kind = rule.event;
        evidence = o.evidence;
        active_since = s.incident.active_since;
        notification_number = if is_resolved then 0 else s.notification_count + 1;
        state = signal;
        previous = if is_resolved then is_active else phase previously_active;
        upstream_id = o.upstream_id;
        upstream_name = o.upstream_name;
        message =
            if is_resolved && not (o.recovery_message == "") then o.recovery_message else o.message;
        at = now;
      }

  abbrev pub reading : Observation V E → ℕ → Reading
  reading o now = record { now = now; active = o.active; ignore = o.ignore; hold = o.hold }

  -- `state.Value`, `state.Message` and `state.LastObservedAt` before the state is saved.
  abbrev pub note : Observation V E → ℕ → IncidentState V → IncidentState V
  note o now s = record s { value = o.value; message = o.message; last_observed_at = now }

  module _ (a : Answers V E) where
    save : Rule → Observation V E → IncidentState V → List (Call V E) → Bool × List (Call V E)
    save rule o s log = (a.saved log rule.id o.key, save_state rule.id o.key s ∷ log)

    -- The branch `if notification != ""`.
    unfoldable pub deliver :
        Rule
        → Observation V E
        → ℕ
        → Bool
        → Signal
        → IncidentState V
        → List (Call V E)
        → Option Error × List (Call V E)
    unfolding save
    deliver rule o now previously_active signal s log =
        let event = event_of rule o now previously_active signal s in
        let sent = if a.has_notifier then a.notified log event else true in
        let log' = if a.has_notifier then notify event ∷ log else log in
        let s' = if sent then accepted now signal s else enqueue_failed now rule.cooldown s in
        let (stored, log'') = save rule o (note o now s') log' in
        (
          if stored
              then (if sent then none else some notify_failed)
              else (if sent then some save_failed else some notify_and_save_failed),
          log'',
        )

    abbrev pub finish :
        Rule
        → Observation V E
        → ℕ
        → Bool
        → IncidentState V × Signal
        → List (Call V E)
        → Option Error × List (Call V E)
    finish rule o now previously_active (s, signal) log =
        if is_quiet signal
        then (
          if a.saved log rule.id o.key then none else some save_failed,
          save_state rule.id o.key (note o now s) ∷ log,
        )
        else deliver rule o now previously_active signal s log

    unfoldable pub handle :
        Rule → Observation V E → List (Call V E) → Option Error × List (Call V E)
    handle rule o log =
        if o.key == "" then (some key_is_empty, log) else elim (a.load log rule.id o.key) [
          | load_failed ↦ (some state_not_loaded, log)
          | loaded s ↦
              finish rule o (a.now log) s.active
                (observe (policy rule o.upstream_id) (reading o (a.now log)) s) log
        ]

    abbrev pub observation_error : Rule → Observation V E → Option Error → List Error
    observation_error rule o none = []
    observation_error rule o (some e) = observation_failed rule.id o.key e ∷ []

    -- The inner loop of `RunOnce`.
    unfoldable pub handle_all :
        Rule → List (Observation V E) → List (Call V E) → List Error × List (Call V E)
    handle_all rule [] log = ([], log)
    handle_all rule (o ∷ os) log =
        let (e, log') = handle rule o log in
        let (es, log'') = handle_all rule os log' in (observation_error rule o e ++ es, log'')

    abbrev pub prune :
        ℕ → Option (List String) → Error → List (Call V E) → List Error × List (Call V E)
    prune id keys e log = (if a.pruned log id then [] else e ∷ [], prune_states id keys ∷ log)

    -- One round of the outer loop.
    unfoldable pub run_rule : Rule → List (Call V E) → List Error × List (Call V E)
    run_rule rule log =
        if not rule.enabled
        then prune rule.id none (prune_disabled_failed rule.id) log
        else elim (a.observations log rule) [
          | observe_failed ↦ (observe_rule_failed rule.id ∷ [], log)
          | observed os ↦
              let (es, log') = handle_all rule os log in
              let (es', log'') =
                prune rule.id (some (map (λ o. o.key) os)) (prune_rule_failed rule.id) log' in
              (es ++ es', log'')
        ]

    unfoldable pub run_rules : List Rule → List (Call V E) → List Error × List (Call V E)
    run_rules [] log = ([], log)
    run_rules (r ∷ rs) log =
        let (es, log') = run_rule r log in
        let (es', log'') = run_rules rs log' in (es ++ es', log'')

    unfoldable pub run_once : List (Call V E) → List Error × List (Call V E)
    run_once log = elim a.rules [ none ↦ (rules_not_listed ∷ [], log) | some rs ↦ run_rules rs log ]
