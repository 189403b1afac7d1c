-- ===== src/Alerts/Engine/Sweep.antt =====
-- One evaluation of all rules: which prunings are asked for, and that rules do not stop one another.
use d_api.Base.{
  ℕ, ◌≡◌, refl, ap, ◌∙◌, String, Bool, not, Option, none, some, List, [], ◌∷◌, ◌++◌, map, arith,
  ◌==◌, string_key, if◌then◌else◌, Bool-cases, inl, inr, ◌⊎◌,
}
use d_api.Ops.Incident.{Signal, IncidentState, observe}
use d_api.Alerts.Engine.{
  Rule, Observation, Answers, Call, notify, save_state, prune_states, Observed, observed,
  observe_failed, handle, finish, handle_all, run_rule, run_rules, policy, reading,
}
use d_api.Alerts.Engine.Handle.{finish_saves, Loaded-cases}

module _ {V E : Type 0} where
  -- The prunings among the calls, newest first.
  abbrev pub prunes : List (Call V E) → List (ℕ × Option (List String))
  prunes [] = []
  prunes (prune_states id keys ∷ log) = (id, keys) ∷ prunes log
  prunes (notify e ∷ log) = prunes log
  prunes (save_state id key s ∷ log) = prunes log

  -- The call of `PruneStates` for a rule, given what its observation answers: with no slice for a
  -- disabled rule, with the keys that were observed for an enabled one, and none where it fails.
  abbrev pub planned_prune : Rule → Observed V E → List (ℕ × Option (List String))
  planned_prune rule answer = if not rule.enabled then (rule.id, none) ∷ [] else elim answer [
    | observed os ↦ (rule.id, some (map (λ o. o.key) os)) ∷ []
    | observe_failed ↦ []
  ]

  abbrev pub planned_prunes :
      (Rule → Observed V E)
      → List Rule
      → List (ℕ × Option (List String))
      → List (ℕ × Option (List String))
  planned_prunes answer [] done = done
  planned_prunes answer (r ∷ rs) done =
      planned_prunes answer rs (planned_prune r (answer r) ++ done)

pub Observed-cases :
    {V E : Type 0} (x : Observed V E)
    → (x ≡ observe_failed) ⊎ ((os : List (Observation V E)) × (x ≡ observed os))
Observed-cases observe_failed = inl refl
Observed-cases (observed os) = inr (os, refl)

module _ {V E : Type 0} (a : Answers V E) where
  prunes-finish :
      (rule : Rule) (o : Observation V E) (now : ℕ) (previously : Bool) (s : IncidentState V)
      (signal : Signal) (log : List (Call V E))
      → prunes (finish a rule o now previously (s, signal) log).1 ≡ prunes log
  prunes-finish rule o now previously s signal log =
      rw (finish_saves a rule o log now previously s signal) (ground arith)

  prunes-handle :
      (rule : Rule) (o : Observation V E) (log : List (Call V E))
      → prunes (handle a rule o log).1 ≡ prunes log
  unfolding handle
  prunes-handle rule o log = elim (Bool-cases (o.key == "")) [
    | inl e ↦ rw e
    | inr e ↦ elim (Loaded-cases (a.load log rule.id o.key)) [
      | inl missing ↦ rw (e, missing)
      | inr (s, found) ↦
          rw (e, found)
            (prunes-finish rule o (a.now log) s.active
              (observe (policy rule o.upstream_id) (reading o (a.now log)) s).0
              (observe (policy rule o.upstream_id) (reading o (a.now log)) s).1 log)
    ]
  ]

  prunes-handle_all :
      (rule : Rule) (os : List (Observation V E)) (log : List (Call V E))
      → prunes (handle_all a rule os log).1 ≡ prunes log
  unfolding handle_all
  prunes-handle_all rule [] log = refl
  prunes-handle_all rule (o ∷ os) log =
      prunes-handle_all rule os (handle a rule o log).1 ∙ prunes-handle rule o log

  run_rule-prunes :
      (rule : Rule) (log : List (Call V E))
      → prunes (run_rule a rule log).1 ≡ planned_prune rule (a.observations log rule) ++ prunes log
  unfolding run_rule
  run_rule-prunes rule log = elim (Bool-cases rule.enabled) [
    | inr off ↦ ground arith
    | inl on ↦ elim (Observed-cases (a.observations log rule)) [
      | inl e ↦ ground arith
      | inr (os, e) ↦ ground (arith, prunes-handle_all rule os log)
    ]
  ]

  -- The calls are those planned, over any list of rules.
  pub run_rules-prunes :
      (answer : Rule → Observed V E) (rs : List Rule) (log : List (Call V E))
      → ((l : List (Call V E)) (r : Rule) → a.observations l r ≡ answer r)
      → prunes (run_rules a rs log).1 ≡ planned_prunes answer rs (prunes log)
  unfolding run_rules
  run_rules-prunes answer [] log fixed = refl
  run_rules-prunes answer (r ∷ rs) log fixed =
      run_rules-prunes answer rs (run_rule a r log).1 fixed
      ∙ ap (planned_prunes answer rs)
          (run_rule-prunes r log ∙ ap (λ x. planned_prune r x ++ prunes log) (fixed log r))
