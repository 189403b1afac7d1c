-- ===== src/Ops/Incident.antt =====
-- internal/ops/incident.go: the state machine that turns observations into notifications.
-- Times are nanoseconds since the zero `time.Time`; `V` is the type of the float64 `Value`, which
-- the code only stores. The strings "", "resolved" and "firing" are the constructors of `Signal`.
pub mod Fields
pub mod Signals
pub mod History
pub mod Confirm
use d_api.Base.{
  ℕ, ◌+◌, String, Bool, true, false, not, ◌&&◌, ◌||◌, Option, none, some, leb, ltb, nat_beq,
  if◌then◌else◌,
}

pub data Signal : Type 0 where
  quiet resolved firing : Signal

pub record IncidentHistory : Type 0 where
  pub active_since : Option ℕ
  pub notified_active : Option Bool
  pub last_firing_at : Option ℕ
  pub normal_since : Option ℕ
  pub retry_after : Option ℕ
  pub firing_streak : ℕ
  pub recovery_streak : ℕ

pub record IncidentState (V : Type 0) : Type 0 where
  pub active : Bool
  pub value : V
  pub message : String
  pub last_observed_at : ℕ
  pub last_notified_at : Option ℕ
  pub notification_count : ℕ
  pub incident : IncidentHistory

pub record IncidentPolicy : Type 0 where
  pub firing_confirmations : ℕ
  pub recovery_confirmations : ℕ
  pub cooldown : ℕ
  pub stable_for : ℕ
  pub max_gap : ℕ
  pub max_notifications : ℕ
  pub repeat : Bool

-- The arguments of one call of `Observe`.
pub record Reading : Type 0 where
  pub now : ℕ
  pub active : Bool
  pub ignore : Bool
  pub hold : Bool

abbrev pub clear_streaks : IncidentHistory → IncidentHistory
clear_streaks h = record h { firing_streak = 0; recovery_streak = 0; normal_since = none }

abbrev pub is_true : Option Bool → Bool
is_true none = false
is_true (some b) = b

abbrev pub or_now : Option ℕ → ℕ → ℕ
or_now none now = now
or_now (some t) now = t

abbrev pub before_option : ℕ → Option ℕ → Bool
before_option now none = false
before_option now (some t) = ltb now t

abbrev pub in_cooldown : IncidentPolicy → ℕ → IncidentHistory → Bool
in_cooldown p now h = elim h.last_firing_at [
  | none ↦ false
  | some t ↦ ltb now (t + p.cooldown) || (is_true h.notified_active && not p.repeat)
]

abbrev pub is_firing : Signal → Bool
is_firing firing = true
is_firing _ = false

abbrev pub one_minute : ℕ
one_minute = 60000000000

abbrev pub is_quiet : Signal → Bool
is_quiet quiet = true
is_quiet _ = false

module _ {V : Type 0} where
  -- A state stored before `NotifiedActive` existed takes it from `Active`.
  abbrev pub adopt : IncidentState V → IncidentHistory
  adopt s = elim s.incident.notified_active [
    | none ↦ record s.incident {
      notified_active = some s.active;
      last_firing_at = if s.active then s.last_notified_at else s.incident.last_firing_at;
    }
    | some b ↦ s.incident
  ]

  abbrev pub gap_passed : IncidentPolicy → ℕ → IncidentState V → Bool
  gap_passed p now s =
      ltb 0 p.max_gap
      && (not (nat_beq s.last_observed_at 0) && ltb (s.last_observed_at + p.max_gap) now)

  -- The first part of `Observe`, up to `s.LastObservedAt = now`.
  unfoldable pub arrive : IncidentPolicy → ℕ → IncidentState V → IncidentState V
  arrive p now s = record s {
    last_observed_at = now;
    incident = if gap_passed p now s then clear_streaks (adopt s) else adopt s;
  }

  -- The branch `if active`.
  unfoldable pub observe_active : IncidentPolicy → ℕ → IncidentState V → IncidentState V
  observe_active p now s =
      let h = s.incident in
      let streak =
        if ltb h.firing_streak p.firing_confirmations
        then h.firing_streak + 1
        else h.firing_streak in
      let confirmed = leb p.firing_confirmations streak in
      record s {
        active = if confirmed then true else s.active;
        incident = record h {
          recovery_streak = 0;
          normal_since = none;
          firing_streak = streak;
          active_since = if confirmed && not s.active then some now else h.active_since;
        };
      }

  -- The branch `else`.
  unfoldable pub observe_normal : IncidentPolicy → ℕ → IncidentState V → IncidentState V
  observe_normal p now s =
      let h = s.incident in
      let since = or_now h.normal_since now in
      let streak =
        if ltb h.recovery_streak p.recovery_confirmations
        then h.recovery_streak + 1
        else h.recovery_streak in
      let active = if leb p.recovery_confirmations streak then false else s.active in
      let stable = not active && leb (since + p.stable_for) now in
      record s {
        active = active;
        notification_count = if stable then 0 else s.notification_count;
        incident = record h {
          firing_streak = 0;
          normal_since = some since;
          recovery_streak = streak;
          last_firing_at = if stable && nat_beq p.stable_for 0 then none else h.last_firing_at;
        };
      }

  abbrev pub budget_spent : IncidentPolicy → IncidentState V → Bool
  budget_spent p s = ltb 0 p.max_notifications && leb p.max_notifications s.notification_count

  -- The last part of `Observe`: the early returns in their order.
  unfoldable pub decide : IncidentPolicy → ℕ → Bool → IncidentState V → Signal
  decide p now active s =
      if before_option now s.incident.retry_after
      then quiet
      else (if not s.active && (not active && is_true s.incident.notified_active)
          then resolved
          else (if not s.active || (not active || budget_spent p s)
              then quiet
              else (if in_cooldown p now s.incident then quiet else firing)))

  unfoldable pub observe : IncidentPolicy → Reading → IncidentState V → IncidentState V × Signal
  observe p r s =
      let arrived = arrive p r.now s in
      if r.ignore || r.hold
      then (record arrived { incident = clear_streaks arrived.incident }, quiet)
      else (let s' =
            if r.active then observe_active p r.now arrived else observe_normal p r.now arrived in
          (s', decide p r.now r.active s'))

  unfoldable pub accepted : ℕ → Signal → IncidentState V → IncidentState V
  accepted now event s =
      let h = s.incident in
      let active = is_firing event in
      record s {
        last_notified_at = some now;
        notification_count = if active then s.notification_count + 1 else s.notification_count;
        incident = record h {
          notified_active = some active;
          retry_after = none;
          last_firing_at = if active then some now else h.last_firing_at;
        };
      }

  unfoldable pub enqueue_failed : ℕ → ℕ → IncidentState V → IncidentState V
  enqueue_failed now cooldown s =
      let wait = if ltb cooldown one_minute then one_minute else cooldown in
      record s { incident = record s.incident { retry_after = some (now + wait) } }

  -- What `handle` does with a notification: `Accepted` if it was enqueued, else `EnqueueFailed`.
  unfoldable pub settle : ℕ → ℕ → Bool → IncidentState V × Signal → IncidentState V × Signal
  settle now cooldown delivered (s, signal) =
      if is_quiet signal
      then (s, quiet)
      else (if delivered
          then (accepted now signal s, signal)
          else (enqueue_failed now cooldown s, quiet))

  -- One evaluation of the engine: observe, and tell the state whether a signal was delivered.
  unfoldable pub turn :
      IncidentPolicy → ℕ → Reading × Bool → IncidentState V → IncidentState V × Signal
  turn p cooldown (r, delivered) s = settle r.now cooldown delivered (observe p r s)
