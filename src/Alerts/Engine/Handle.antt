-- ===== src/Alerts/Engine/Handle.antt =====
-- One observation: what is saved and sent, and when an error is returned.
use d_api.Base.{
  ℕ, ◌≡◌, refl, ◌↔◌, ◌⊎◌, ◌≢◌, Bool, true, false, not, ◌&&◌, ◌||◌, none, List, [], ◌∷◌, ◌++◌, arith,
  ◌==◌, string_key, if◌then◌else◌, inl, inr,
}
use d_api.Ops.Incident.{
  Signal, quiet, resolved, firing, IncidentState, observe, settle, turn, is_quiet,
}
use d_api.Alerts.Engine.{
  Rule, Observation, Answers, Call, notify, save_state, Loaded, loaded, load_failed, policy,
  event_of, reading, note, deliver, handle, finish,
}

pub Loaded-cases :
    {V E : Type 0} (x : Loaded V E) → (x ≡ load_failed) ⊎ ((s : IncidentState V) × (x ≡ loaded s))
Loaded-cases load_failed = inl refl
Loaded-cases (loaded s) = inr (s, refl)

module _ {V E : Type 0} (a : Answers V E) (rule : Rule) (o : Observation V E)
    (log : List (Call V E)) where
  abbrev pub is_sent : ℕ → Bool → IncidentState V × Signal → Bool
  is_sent now previously (s, signal) =
      if a.has_notifier then a.notified log (event_of rule o now previously signal s) else true

  abbrev pub calls_sent : ℕ → Bool → IncidentState V × Signal → List (Call V E)
  calls_sent now previously (s, signal) =
      if is_quiet signal || not a.has_notifier
      then []
      else notify (event_of rule o now previously signal s) ∷ []

  pub finish_saves :
      (now : ℕ) (previously : Bool) (s : IncidentState V) (signal : Signal)
      → (finish a rule o now previously (s, signal) log).1
        ≡ save_state rule.id o.key (
            note o now
              (settle now rule.cooldown (is_sent now previously (s, signal)) (s, signal)).0)
          ∷ (calls_sent now previously (s, signal) ++ log)
  unfolding deliver settle
  finish_saves now previously s quiet = refl
  finish_saves now previously s firing = ground arith
  finish_saves now previously s resolved = ground arith

  finish_succeeds :
      (now : ℕ) (previously : Bool) (s : IncidentState V) (signal : Signal)
      → ((finish a rule o now previously (s, signal) log).0 ≡ none) ↔ (
          ((is_quiet signal || is_sent now previously (s, signal))
            && a.saved (calls_sent now previously (s, signal) ++ log) rule.id o.key)
          ≡ true)
  unfolding deliver
  finish_succeeds now previously s quiet = ground arith
  finish_succeeds now previously s firing = ground arith
  finish_succeeds now previously s resolved = ground arith

  abbrev pub outcome : IncidentState V → IncidentState V × Signal
  outcome s = observe (policy rule o.upstream_id) (reading o (a.now log)) s

  -- Whether the notifier takes the event; without a notifier it counts as taken.
  abbrev pub is_delivered : IncidentState V → Bool
  is_delivered s = is_sent (a.now log) s.active (outcome s)

  -- The notification, if there is one to send and a notifier.
  abbrev pub notes : IncidentState V → List (Call V E)
  notes s = calls_sent (a.now log) s.active (outcome s)

  -- For an observation with a key and a state that loads, `handle` sends at most the one event that
  -- the state machine asks for, and then saves exactly the state that one turn of the machine
  -- leaves for that delivery, with the observation's value and message, also where it returns an
  -- error.
  pub handle_saves :
      (s : IncidentState V)
      → (o.key == "") ≡ false
      → a.load log rule.id o.key ≡ loaded s
      → (handle a rule o log).1
        ≡ save_state rule.id o.key (
            note o
              (a.now log)
              (turn
                (policy rule o.upstream_id)
                rule.cooldown
                (reading o (a.now log), is_delivered s)
                s).0)
          ∷ (notes s ++ log)
  unfolding handle turn
  handle_saves s k l = rw (k, l) (finish_saves (a.now log) s.active (outcome s).0 (outcome s).1)

  -- With a key and a state that loads, `handle` succeeds exactly when the new state is saved and
  -- what the state machine asks to be sent, if anything, is delivered.
  pub handle_succeeds :
      (s : IncidentState V)
      → (o.key == "") ≡ false
      → a.load log rule.id o.key ≡ loaded s
      → ((handle a rule o log).0 ≡ none) ↔ (
          ((is_quiet (outcome s).1 || is_delivered s) && a.saved (notes s ++ log) rule.id o.key)
          ≡ true)
  unfolding handle
  handle_succeeds s k l =
      rw (k, l) (finish_succeeds (a.now log) s.active (outcome s).0 (outcome s).1)

  -- With no key, or with a state that does not load, nothing is sent or saved and an error is
  -- returned.
  pub handle_fails :
      ((o.key == "") ≡ true) ⊎ (a.load log rule.id o.key ≡ load_failed)
      → ((handle a rule o log).0 ≢ none) × ((handle a rule o log).1 ≡ log)
  unfolding handle
  handle_fails h = ground arith
