-- ===== src/Store/Outbox.antt =====
-- internal/store/notifications.go: the rows of `notification_outbox` under the statements that lease,
-- renew, complete, fail, bury and revive them. `now` is the time of the statement; an id is never
-- given twice. What a concurrent transaction has locked is skipped by a claim, as a parameter.
pub mod Leases
pub mod Claims
use d_api.Base.{
  ℕ, ◌+◌, ◌*◌, String, Bool, true, false, not, ◌&&◌, ◌||◌, Option, none, some, List, [], ◌∷◌, ltb,
  leb, nat_beq, max, min, if◌then◌else◌, nat_key, take,
}
use d_api.Base.Maps.{Map, lookup, insert, delete}

pub record Row (P : Type 0) : Type 0 where
  pub channel_id : Option ℕ
  pub payload : P
  pub next_attempt_at : ℕ
  pub attempts : ℕ
  pub lease_version : ℕ
  pub dead_at : Option ℕ
  pub last_error : String

pub record Job (P : Type 0) : Type 0 where
  pub id : ℕ
  pub channel_id : ℕ
  pub payload : P
  pub attempts : ℕ
  pub lease_version : ℕ

pub record Outbox (P : Type 0) : Type 0 where
  pub rows : Map ℕ (Row P)
  pub next_id : ℕ

abbrev pub second : ℕ
second = 1000000000

abbrev pub is_none : Option ℕ → Bool
is_none none = true
is_none (some n) = false

abbrev pub id_or_zero : Option ℕ → ℕ
id_or_zero none = 0
id_or_zero (some n) = n

-- `LEAST(900, GREATEST(60, (attempts+1)*60))`.
abbrev pub lease_seconds : ℕ → ℕ
lease_seconds attempts = min 900 (max 60 ((attempts + 1) * 60))

-- `ORDER BY next_attempt_at,id`.
abbrev pub before : ℕ × ℕ → ℕ × ℕ → Bool
before a b = ltb a.0 b.0 || (nat_beq a.0 b.0 && leb a.1 b.1)

unfoldable pub insert_due : ℕ × ℕ → List (ℕ × ℕ) → List (ℕ × ℕ)
insert_due a [] = a ∷ []
insert_due a (b ∷ bs) = let rest = insert_due a bs in if before a b then a ∷ b ∷ bs else b ∷ rest

module _ {P : Type 0} where
  abbrev pub new_row : Option ℕ → P → ℕ → Row P
  new_row channel payload not_before = record {
    channel_id = channel;
    payload = payload;
    next_attempt_at = not_before;
    attempts = 0;
    lease_version = 0;
    dead_at = none;
    last_error = "";
  }

  -- `INSERT INTO notification_outbox`.
  unfoldable pub enqueue : Option ℕ → P → ℕ → Outbox P → Outbox P
  enqueue channel payload not_before o = record {
    rows = insert o.next_id (new_row channel payload not_before) o.rows;
    next_id = o.next_id + 1;
  }

  unfoldable pub enqueue_each : List ℕ → P → ℕ → Outbox P → Outbox P
  enqueue_each [] payload not_before o = o
  enqueue_each (c ∷ cs) payload not_before o =
      enqueue_each cs payload not_before (enqueue (some c) payload not_before o)

  -- `EnqueueNotificationsForChannels`; the transaction fails or is whole.
  unfoldable pub enqueue_for_channels : Bool → List ℕ → P → ℕ → Outbox P → Outbox P × Bool
  enqueue_for_channels fails channels payload not_before o = if fails then (o, false) else (
    elim channels [
      | [] ↦ enqueue none payload not_before o
      | c ∷ cs ↦ enqueue_each (c ∷ cs) payload not_before o
    ],
    true,
  )

  abbrev pub is_due : ℕ → Row P → Bool
  is_due now r = is_none r.dead_at && leb r.next_attempt_at now

  -- The due rows that are not locked, as their times and ids in order.
  unfoldable pub due_rows : (ℕ → Bool) → ℕ → Map ℕ (Row P) → List (ℕ × ℕ)
  due_rows locked now [] = []
  due_rows locked now ((id, r) ∷ rows) =
      let rest = due_rows locked now rows in
      if is_due now r && not (locked id) then insert_due (r.next_attempt_at, id) rest else rest

  abbrev pub lease : ℕ → Row P → Row P
  lease now r = record r {
    attempts = r.attempts + 1;
    lease_version = r.lease_version + 1;
    next_attempt_at = now + lease_seconds r.attempts * second;
  }

  abbrev pub job_of : ℕ → Row P → Job P
  job_of id r = record {
    id = id;
    channel_id = id_or_zero r.channel_id;
    payload = r.payload;
    attempts = r.attempts;
    lease_version = r.lease_version;
  }

  abbrev pub put : ℕ → Row P → Outbox P → Outbox P
  put id r o = record o { rows = insert id r o.rows }

  unfoldable pub lease_each : ℕ → List (ℕ × ℕ) → Outbox P → Outbox P × List (Job P)
  lease_each now [] o = (o, [])
  lease_each now ((t, id) ∷ picked) o = elim (lookup id o.rows) [
    | none ↦ lease_each now picked o
    | some r ↦
        let later = lease_each now picked (put id (lease now r) o) in
        (later.0, job_of id (lease now r) ∷ later.1)
  ]

  unfoldable pub claim : (ℕ → Bool) → ℕ → ℕ → Outbox P → Outbox P × List (Job P)
  claim locked limit now o =
      lease_each now (take (if nat_beq limit 0 then 20 else limit) (due_rows locked now o.rows)) o

  -- `WHERE id=$1 AND lease_version=$2 AND dead_at IS NULL AND next_attempt_at>now()`.
  abbrev pub holds : Job P → ℕ → Option (Row P) → Bool
  holds j now none = false
  holds j now (some r) =
      nat_beq r.lease_version j.lease_version && (is_none r.dead_at && ltb now r.next_attempt_at)

  abbrev pub owned : Job P → ℕ → Outbox P → Bool
  owned j now o = holds j now (lookup j.id o.rows)

  -- The row of a job that is owned, updated; `false` is `ErrNotificationLeaseLost`.
  abbrev pub update_owned : Job P → ℕ → (Row P → Row P) → Outbox P → Outbox P × Bool
  update_owned j now f o =
      if owned j now o
      then (elim (lookup j.id o.rows) [ none ↦ o | some r ↦ put j.id (f r) o ], true)
      else (o, false)

  unfoldable pub renew : Job P → ℕ → Outbox P → Outbox P × Bool
  renew j now o = update_owned j now (λ r. record r { next_attempt_at = now + 60 * second }) o

  unfoldable pub complete : Job P → ℕ → Outbox P → Outbox P × Bool
  complete j now o =
      if owned j now o then (record o { rows = delete j.id o.rows }, true) else (o, false)

  unfoldable pub fail : String → ℕ → Job P → ℕ → Outbox P → Outbox P × Bool
  fail message next_attempt j now o =
      update_owned j now
        (λ r. record r {
          last_error = message;
          next_attempt_at = next_attempt;
          lease_version = r.lease_version + 1;
        })
        o

  unfoldable pub bury : String → Job P → ℕ → Outbox P → Outbox P × Bool
  bury message j now o =
      update_owned j now
        (λ r. record r {
          last_error = message;
          dead_at = some now;
          lease_version = r.lease_version + 1;
        })
        o

  abbrev pub revived : ℕ → Row P → Row P
  revived now r = record r {
    attempts = 0;
    last_error = "";
    dead_at = none;
    next_attempt_at = now;
    lease_version = r.lease_version + 1;
  }

  -- `RetryDeadNotification`; `enabled` tells of a row's channel.
  abbrev pub is_retryable : (Option ℕ → Bool) → Option (Row P) → Bool
  is_retryable enabled none = false
  is_retryable enabled (some r) = not (is_none r.dead_at) && enabled r.channel_id

  unfoldable pub retry_dead : (Option ℕ → Bool) → ℕ → ℕ → Outbox P → Outbox P × Bool
  retry_dead enabled id now o =
      if is_retryable enabled (lookup id o.rows)
      then (elim (lookup id o.rows) [ none ↦ o | some r ↦ put id (revived now r) o ], true)
      else (o, false)
