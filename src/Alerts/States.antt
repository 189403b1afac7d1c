-- ===== src/Alerts/States.antt =====
-- internal/store/alerts.go, `PruneAlertStates`: its statement on the rows of `alert_states`, by their
-- rule and key. `array` is `pq.Array`: the value that the database gets for a slice, `none` where that
-- is NULL. The condition of the statement is then NULL for each row, so that none is deleted.
pub mod Swept
use d_api.Base.{
  ℕ, ◌≡◌, refl, String, Bool, true, false, not, ◌&&◌, ◌||◌, Option, none, some, List, [], ◌∷◌,
  arith, ◌==◌, string_key, nat_key, if◌then◌else◌, Option-cases, inl, inr,
}

pub record AlertStateKey : Type 0 where
  pub rule_id : ℕ
  pub observation_key : String

-- `key = ANY(keys)`.
abbrev pub is_any : String → List String → Bool
is_any key [] = false
is_any key (k ∷ ks) = k == key || is_any key ks

-- The condition of the statement, NULL counting as false.
abbrev pub is_deleted : ℕ → Option (List String) → AlertStateKey → Bool
is_deleted id none row = false
is_deleted id (some keys) row = row.rule_id == id && not (is_any row.observation_key keys)

-- Whether there is a row of a rule and a key.
abbrev pub has_state : ℕ → String → List AlertStateKey → Bool
has_state id key [] = false
has_state id key (row ∷ rows) =
    (row.rule_id == id && row.observation_key == key) || has_state id key rows

abbrev pub Array : Type 0
Array = Option (List String) → Option (List String)

unfoldable pub prune_alert_states :
    Array → ℕ → Option (List String) → List AlertStateKey → List AlertStateKey
prune_alert_states array id keys [] = []
prune_alert_states array id keys (row ∷ rows) =
    let rest = prune_alert_states array id keys rows in
    if is_deleted id (array keys) row then rest else row ∷ rest

pub has_state-prune_alert_states :
    (array : Array) (i : ℕ) (key : String) (id : ℕ) (keys : Option (List String))
    (rows : List AlertStateKey)
    → has_state i key (prune_alert_states array id keys rows) ≡ (
        has_state i key rows
        && not (is_deleted id (array keys) (record { rule_id = i; observation_key = key })))
unfolding prune_alert_states
has_state-prune_alert_states array i key id keys [] = refl
has_state-prune_alert_states array i key id keys (row ∷ rows) = elim (Option-cases (array keys)) [
  | inl null ↦ ground (arith, null, has_state-prune_alert_states array i key id keys rows)
  | inr (ks, given) ↦ ground (
    arith,
    given,
    has_state-prune_alert_states array i key id keys rows,
    nat_key.same_iff row.rule_id i,
    string_key.same_iff row.observation_key key,
  )
]
