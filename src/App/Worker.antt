-- ===== src/App/Worker.antt =====
-- internal/app/notifications.go, `RunNotificationWorker` and the functions that it calls. The n-th
-- statement on the outbox runs at `clock n`, and fails for a reason other than a lost lease where
-- `breaks n`; `deliver` is the channel's answer, and `stopped` whether the context has ended by then.
pub mod Groups
pub mod Settles
use d_api.Base.{
  ℕ, ◌+◌, ◌*◌, String, Bool, true, false, not, ◌&&◌, ◌||◌, Option, none, some, List, [], ◌∷◌, ◌++◌,
  ltb, leb, nat_beq, max, if◌then◌else◌, Key, ◌==◌, nat_key, string_key, length, arith, ◌≡◌, ◌↔◌,
  map,
}
use d_api.Base.Maps.{Map, lookup, insert}
use d_api.Store.Outbox.{Outbox, Job, claim, renew, complete, fail, bury, second}

-- `ops.Event`, in the fields that the worker reads; `details` are the lines of its message.
pub record Event : Type 0 where
  pub kind : String
  pub state : String
  pub severity : String
  pub previous : String
  pub upstream_id : ℕ
  pub upstream_name : String
  pub notification_number : ℕ
  pub count : ℕ
  pub details : List String
  pub at : ℕ

pub record Group : Type 0 where
  pub kind : String
  pub state : String
  pub severity : String
  pub channel_id : ℕ

abbrev pub same_group : Group → Group → Bool
same_group a b =
    (a.kind == b.kind && a.state == b.state)
    && (a.severity == b.severity && a.channel_id == b.channel_id)

pub same_group_iff : (a b : Group) → (same_group a b ≡ true) ↔ (a ≡ b)
same_group_iff a b = ground (
  arith,
  string_key.same_iff a.kind b.kind,
  string_key.same_iff a.state b.state,
  string_key.same_iff a.severity b.severity,
  nat_key.same_iff a.channel_id b.channel_id,
)

instance abbrev pub group_key : Key Group
group_key = record { same = same_group; same_iff = same_group_iff }

unfoldable pub notification_retry_delay : ℕ → ℕ
notification_retry_delay attempts =
    if leb attempts 1
    then 10 * second
    else (if nat_beq attempts 2 then 60 * second else 300 * second)

abbrev pub notification_batch_size : ℕ
notification_batch_size = 5

abbrev pub notification_max_attempts : ℕ
notification_max_attempts = 5

-- The line of one event in the message of several; `line` formats it.
abbrev pub lines_of : (Event → String) → List Event → List String
lines_of line events = map line events

abbrev pub latest : ℕ → List Event → ℕ
latest t [] = t
latest t (e ∷ es) = latest (if ltb t e.at then e.at else t) es

-- `aggregateNotificationEvents` of at least one event.
unfoldable pub aggregate : (Event → String) → Event → List Event → Event
aggregate line first [] = first
aggregate line first (e ∷ es) = record {
  kind = first.kind;
  state = first.state;
  severity = first.severity;
  previous = "";
  upstream_id = 0;
  upstream_name = "";
  notification_number = 0;
  count = length (first ∷ e ∷ es);
  details = lines_of line (first ∷ e ∷ es);
  at = latest first.at (first ∷ e ∷ es);
}

-- The world of one run: the outbox, the statements so far, and the ids of the jobs delivered.
pub record World (P : Type 0) : Type 0 where
  pub outbox : Outbox P
  pub statements : ℕ
  pub delivered : List ℕ

pub record External (P : Type 0) : Type 0 where
  pub decode : P → Option Event
  pub clock : ℕ → ℕ
  pub breaks : ℕ → Bool
  pub line : Event → String
  pub deliver : ℕ → Event → Bool
  pub stopped : ℕ → Bool
  pub error_text : String

module _ {P : Type 0} (x : External P) where
  -- One statement: its answer is `false` where it is lost or breaks.
  unfoldable pub run_statement : (ℕ → Outbox P → Outbox P × Bool) → World P → World P × Bool
  run_statement f w =
      let done = f (x.clock w.statements) w.outbox in
      if x.breaks w.statements
      then (record w { statements = w.statements + 1 }, false)
      else (record w { outbox = done.0; statements = w.statements + 1 }, done.1)

  abbrev pub key_of : Job P → Event → Group
  key_of j e = record {
    kind = e.kind;
    state = e.state;
    severity = e.severity;
    channel_id = j.channel_id;
  }

  abbrev pub jobs_or_none : Option (List (Job P × Event)) → List (Job P × Event)
  jobs_or_none none = []
  jobs_or_none (some js) = js

  -- The groups in the order of their first job; a job with no event in its payload is completed.
  unfoldable pub group_jobs :
      List (Job P)
      → Map Group (List (Job P × Event))
      → World P
      → Map Group (List (Job P × Event)) × World P
  group_jobs [] groups w = (groups, w)
  group_jobs (j ∷ js) groups w = elim (x.decode j.payload) [
    | none ↦ group_jobs js groups (run_statement (complete j) w).0
    | some e ↦
        let k = key_of j e in
        group_jobs js (insert k (jobs_or_none (lookup k groups) ++ (j, e) ∷ []) groups) w
  ]

  -- The jobs whose lease could be renewed.
  unfoldable pub renew_all : List (Job P × Event) → World P → List (Job P × Event) × World P
  renew_all [] w = ([], w)
  renew_all ((j, e) ∷ js) w =
      let renewed = run_statement (renew j) w in
      let later = renew_all js renewed.0 in
      (if renewed.1 then (j, e) ∷ later.0 else later.0, later.1)

  unfoldable pub complete_all : List (Job P × Event) → World P → World P
  complete_all [] w = w
  complete_all ((j, e) ∷ js) w = complete_all js (run_statement (complete j) w).0

  -- After a failed delivery: the dead letters, or another time.
  unfoldable pub fail_one : Job P → World P → World P
  fail_one j w =
      if leb notification_max_attempts j.attempts
      then (run_statement (bury x.error_text j) w).0
      else (run_statement
          (fail x.error_text (x.clock w.statements + notification_retry_delay j.attempts) j) w).0

  unfoldable pub fail_all : List (Job P × Event) → World P → World P
  fail_all [] w = w
  fail_all ((j, e) ∷ js) w = fail_all js (fail_one j w)

  abbrev pub ids_of : List (Job P × Event) → List ℕ
  ids_of [] = []
  ids_of ((j, e) ∷ js) = j.id ∷ ids_of js

  abbrev pub events_of : List (Job P × Event) → List Event
  events_of [] = []
  events_of ((j, e) ∷ js) = e ∷ events_of js

  abbrev pub noted : Bool → List (Job P × Event) → World P → World P
  noted true js w = record w { delivered = w.delivered ++ ids_of js }
  noted false js w = w

  abbrev pub settle_all : Bool → List (Job P × Event) → World P → World P
  settle_all true js w = complete_all js w
  settle_all false js w = fail_all js w

  -- The delivery of the renewed jobs of a group; `false` says that the worker stops.
  unfoldable pub deliver_group : Group → List (Job P × Event) → World P → World P × Bool
  deliver_group k [] w = (w, true)
  deliver_group k ((j, e) ∷ js) w =
      let sent = x.deliver k.channel_id (aggregate x.line e (events_of js)) in
      let after = noted sent ((j, e) ∷ js) w in
      if x.stopped w.statements then (after, false) else (settle_all sent ((j, e) ∷ js) after, true)

  unfoldable pub run_groups : Map Group (List (Job P × Event)) → World P → World P × Bool
  run_groups [] w = (w, true)
  run_groups ((k, js) ∷ groups) w =
      let renewed = renew_all js w in
      let done = deliver_group k renewed.0 renewed.1 in
      elim done.1 [ true ↦ run_groups groups done.0 | false ↦ (done.0, false) ]

  -- `run`: whether another batch may be due at once.
  unfoldable pub run : (ℕ → Bool) → World P → World P × Bool
  run locked w =
      let claimed = claim locked notification_batch_size (x.clock w.statements) w.outbox in
      if x.breaks w.statements
      then (record w { statements = w.statements + 1 }, false)
      else (let start : World P = record w { outbox = claimed.0; statements = w.statements + 1 } in
          let grouped = group_jobs claimed.1 [] start in
          let done = run_groups grouped.0 grouped.1 in
          (done.0, done.1 && nat_beq (length claimed.1) notification_batch_size))
