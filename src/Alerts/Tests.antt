-- ===== src/Alerts/Tests.antt =====
-- One observation and one evaluation of rules at concrete answers.
use d_api.Base.{ℕ, ◌≡◌, refl, true, false, none, some, List, not, ◌&&◌, [], ◌∷◌, string_key}
use d_api.Ops.Incident.{
  IncidentState, observe, arrive, observe_active, observe_normal, decide, turn,
}
use d_api.Alerts.Engine.{
  Rule, Observation, Answers, save_state, loaded, load_failed, observed, Observed, login_failure,
  error_rate, policy, reading, note, handle, run_rules,
}
use d_api.Alerts.Engine.Handle.{handle_saves, notes}
use d_api.Alerts.Engine.Sweep.{prunes}
use d_api.Alerts.States.{AlertStateKey, Array, has_state}
use d_api.Alerts.States.Swept.{swept, IsArray, is_dropped, run_rules_lem}

abbrev login_rule : Rule
login_rule = record {
  id = 1;
  event = login_failure;
  cooldown = 60;
  max_notifications = 3;
  enabled = true;
}

abbrev old_rule : Rule
old_rule = record {
  id = 2;
  event = error_rate;
  cooldown = 60;
  max_notifications = 3;
  enabled = false;
}

abbrev failed_login : Observation ℕ ℕ
failed_login = record {
  evidence = none;
  key = "ip";
  active = true;
  ignore = false;
  hold = false;
  value = 9;
  message = "many failures";
  recovery_message = "";
  upstream_id = 0;
  upstream_name = "";
}

abbrev fresh : IncidentState ℕ
fresh = record {
  active = false;
  value = 0;
  message = "";
  last_observed_at = 0;
  last_notified_at = none;
  notification_count = 0;
  incident = record {
    active_since = none;
    notified_active = none;
    last_firing_at = none;
    normal_since = none;
    retry_after = none;
    firing_streak = 0;
    recovery_streak = 0;
  };
}

abbrev answer : Rule → Observed ℕ ℕ
answer r = observed (failed_login ∷ [])

abbrev working : Answers ℕ ℕ
working = record {
  rules = some (login_rule ∷ old_rule ∷ []);
  observations = λ log r. answer r;
  load = λ log id key. loaded fresh;
  now = λ log. 1000;
  has_notifier = true;
  notified = λ log e. true;
  saved = λ log id key. true;
  pruned = λ log id. false;
}

abbrev broken : Answers ℕ ℕ
broken = record working { load = λ log id key. load_failed }

handle_saves_example :
    (handle working login_rule failed_login []).1
    ≡ save_state 1 "ip" (
        note failed_login 1000
          (turn (policy login_rule 0) 60 (reading failed_login 1000, true) fresh).0)
      ∷ notes working login_rule failed_login [] fresh
unfolding observe arrive observe_active observe_normal decide policy
handle_saves_example = handle_saves working login_rule failed_login [] fresh refl refl

-- Of the states that are there the one that was not observed goes, and that of the disabled rule
-- stays.
abbrev stored : List AlertStateKey
stored =
    record { rule_id = 1; observation_key = "ip" }
    ∷ record { rule_id = 1; observation_key = "old" }
    ∷ record { rule_id = 2; observation_key = "ip" }
    ∷ []

abbrev array : Array
array keys = keys

array-IsArray : IsArray array
array-IsArray = record { of_nil = refl; of_some = λ keys. refl }

run_rules_lem_example :
    has_state 1 "old"
      (swept array (prunes (run_rules working (login_rule ∷ old_rule ∷ []) []).1) stored)
    ≡ (has_state 1 "old" stored && not (is_dropped 1 "old" answer (login_rule ∷ old_rule ∷ [])))
run_rules_lem_example =
    run_rules_lem array working answer (login_rule ∷ old_rule ∷ []) stored 1 "old" array-IsArray
      (λ l r. refl)

goes : is_dropped 1 "old" answer (login_rule ∷ old_rule ∷ []) ≡ true
goes = refl

stays : is_dropped 2 "ip" answer (login_rule ∷ old_rule ∷ []) ≡ false
stays = refl
