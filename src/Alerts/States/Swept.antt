-- ===== src/Alerts/States/Swept.antt =====
-- internal/alerts/engine.go, `RunOnce`, over internal/store/alerts.go: which states it removes.
use d_api.Base.{
  ℕ, ◌≡◌, ap, ◌∙◌, String, Bool, false, not, ◌&&◌, ◌||◌, Option, none, some, List, [], ◌∷◌, ◌++◌,
  map, arith, ◌==◌, string_key, nat_key, Bool-cases, inl, inr,
}
use d_api.Alerts.Engine.{Rule, Answers, Call, Observed, observed, observe_failed, run_rules}
use d_api.Alerts.Engine.Sweep.{
  prunes, planned_prune, planned_prunes, run_rules-prunes, Observed-cases,
}
use d_api.Alerts.States.{
  AlertStateKey, Array, is_any, prune_alert_states, has_state, has_state-prune_alert_states,
}

-- The rows after calls of `PruneStates`, newest first, that all succeed.
abbrev pub swept : Array → List (ℕ × Option (List String)) → List AlertStateKey → List AlertStateKey
swept array [] rows = rows
swept array ((id, keys) ∷ done) rows = prune_alert_states array id keys (swept array done rows)

-- A nil slice is NULL, and any other is its elements.
pub record IsArray (array : Array) : Type 0 where
  pub of_nil : array none ≡ none
  pub of_some : (keys : List String) → array (some keys) ≡ some keys

module _ {V E : Type 0} where
  -- An enabled rule with this id was observed, and not with this key.
  abbrev pub is_unseen : ℕ → String → Rule → Observed V E → Bool
  is_unseen id key rule answer = rule.enabled && (elim answer [
    | observed os ↦ id == rule.id && not (is_any key (map (λ o. o.key) os))
    | observe_failed ↦ false
  ])

  abbrev pub is_dropped : ℕ → String → (Rule → Observed V E) → List Rule → Bool
  is_dropped id key answer [] = false
  is_dropped id key answer (r ∷ rs) = is_unseen id key r (answer r) || is_dropped id key answer rs

  has_state-planned_prune :
      (array : Array)
      → IsArray array
      → (id : ℕ) (key : String) (r : Rule) (x : Observed V E)
        (done : List (ℕ × Option (List String))) (rows : List AlertStateKey)
      → has_state id key (swept array (planned_prune r x ++ done) rows)
        ≡ (has_state id key (swept array done rows) && not (is_unseen id key r x))
  has_state-planned_prune array is_array id key r x done rows = elim (Bool-cases r.enabled) [
    | inr off ↦ ground (
      arith,
      off,
      is_array.of_nil,
      has_state-prune_alert_states array id key r.id none (swept array done rows),
    )
    | inl on ↦ elim (Observed-cases x) [
      | inl e ↦ ground (arith, on, e)
      | inr (os, e) ↦ ground (
        arith,
        on,
        e,
        is_array.of_some (map (λ o. o.key) os),
        has_state-prune_alert_states array id key r.id (some (map (λ o. o.key) os))
            (swept array done rows),
      )
    ]
  ]

  has_state-planned_prunes :
      (array : Array)
      → IsArray array
      → (id : ℕ) (key : String) (answer : Rule → Observed V E) (rs : List Rule)
        (done : List (ℕ × Option (List String))) (rows : List AlertStateKey)
      → has_state id key (swept array (planned_prunes answer rs done) rows)
        ≡ (has_state id key (swept array done rows) && not (is_dropped id key answer rs))
  has_state-planned_prunes array is_array id key answer [] done rows = ground arith
  has_state-planned_prunes array is_array id key answer (r ∷ rs) done rows = ground (
    arith,
    has_state-planned_prunes array is_array id key answer rs (planned_prune r (answer r) ++ done)
        rows,
    has_state-planned_prune array is_array id key r (answer r) done rows,
  )

  -- If `pq.Array` makes NULL of a nil slice and keeps the others, and what the rules observe does not
  -- depend on the calls made: over any list of rules, whatever
  -- else fails on the way, the calls of `PruneStates`, if they succeed, remove a state that was there
  -- exactly if an enabled rule with its id was observed, and not with its key. So a rule whose
  -- observation failed keeps its states, and so does one that is disabled.
  pub run_rules_lem :
      (array : Array) (a : Answers V E) (answer : Rule → Observed V E) (rs : List Rule)
      (rows : List AlertStateKey) (id : ℕ) (key : String)
      → IsArray array
      → ((l : List (Call V E)) (r : Rule) → a.observations l r ≡ answer r)
      → has_state id key (swept array (prunes (run_rules a rs []).1) rows)
        ≡ (has_state id key rows && not (is_dropped id key answer rs))
  run_rules_lem array a answer rs rows id key is_array fixed =
      ap (λ done. has_state id key (swept array done rows)) (run_rules-prunes a answer rs [] fixed)
      ∙ has_state-planned_prunes array is_array id key answer rs [] rows
