-- ===== src/Gateway/Recorder.antt =====
-- internal/gateway/recorder.go: the background writer of request logs. The repository, its context
-- and the timers are parameters that act on a state of their own.
pub mod Bisect
pub mod Flush
pub mod Worker
pub mod Account
use d_api.Base.{
  ℕ, suc, zero, ◌+◌, ◌/◌, Bool, true, false, not, ◌||◌, List, [], ◌∷◌, ◌++◌, length, take, drop,
  leb, ltb, if◌then◌else◌,
}

-- How a write ends; `data_error` is an SQL state of class 22 or 23.
pub data Answer : Type 0 where
  written data_error other_error : Answer

pub record Repository (S Entry : Type 0) : Type 0 where
  -- It implements `batchRepository`.
  pub batches : Bool
  pub record_request : Entry → S → S × Answer
  pub record_requests : List Entry → S → S × Answer
  -- `r.ctx.Err() != nil`.
  pub cancelled : S → Bool
  -- The pause before the next attempt, cut short when the context ends.
  pub wait : ℕ → S → S

-- `outside` is the state of the parameters, `stored` the entries of the writes that succeeded.
pub record Books (S Entry : Type 0) : Type 0 where
  pub outside : S
  pub stored : List Entry
  pub dropped : ℕ

pub data Verdict : Type 0 where
  done split given_up : Verdict

abbrev pub is_written : Answer → Bool
is_written Answer.written = true
is_written _ = false

module _ {S Entry : Type 0} (repo : Repository S Entry) where
  -- After a data error.
  abbrev pub on_data_error : List Entry → S → Verdict
  on_data_error entries s =
      if repo.cancelled s
      then Verdict.given_up
      else (if ltb 1 (length entries) then Verdict.split else Verdict.given_up)

  -- The attempts to write one batch, with the delays that are left.
  unfoldable pub attempts : List ℕ → List Entry → S → S × Verdict
  attempts [] entries s =
      let called = repo.record_requests entries s in
      (
        called.0,
        elim called.1 [
          | Answer.written ↦ Verdict.done
          | Answer.data_error ↦ on_data_error entries called.0
          | Answer.other_error ↦ Verdict.given_up
        ],
      )
  attempts (delay ∷ delays) entries s =
      let called = repo.record_requests entries s in
      elim called.1 [
        | Answer.written ↦ (called.0, Verdict.done)
        | Answer.data_error ↦ (called.0, on_data_error entries called.0)
        | Answer.other_error ↦ elim (repo.cancelled called.0) [
          | true ↦ (called.0, Verdict.given_up)
          | false ↦ attempts delays entries (repo.wait delay called.0)
        ]
      ]

  -- The books after it, and whether it returns an error. A batch splits into shorter ones, so its
  -- length is fuel enough.
  unfoldable pub flush_batch : List ℕ → ℕ → List Entry → Books S Entry → Books S Entry × Bool
  flush_batch delays fuel [] b = (b, false)
  flush_batch delays zero (x ∷ xs) b = (b, true)
  flush_batch delays (suc fuel) (x ∷ xs) b =
      let entries : List Entry = x ∷ xs in
      let tried = attempts delays entries b.outside in
      elim tried.1 [
        | Verdict.done ↦
            (record { outside = tried.0; stored = b.stored ++ entries; dropped = b.dropped }, false)
        | Verdict.split ↦
            let middle = length entries / 2 in
            let left =
              flush_batch delays fuel (take middle entries) (record b { outside = tried.0 }) in
            let right = flush_batch delays fuel (drop middle entries) left.0 in
            (right.0, left.1 || right.1)
        | Verdict.given_up ↦ (
          record { outside = tried.0; stored = b.stored; dropped = b.dropped + length entries },
          true,
        )
      ]

  -- A repository without batches is called for each entry.
  unfoldable pub flush_each : List Entry → Books S Entry → Books S Entry × Bool
  flush_each [] b = (b, false)
  flush_each (x ∷ xs) b =
      let called = repo.record_request x b.outside in
      let ok = is_written called.1 in
      let after = flush_each xs (record {
        outside = called.0;
        stored = if ok then b.stored ++ x ∷ [] else b.stored;
        dropped = if ok then b.dropped else b.dropped + 1;
      }) in
      (after.0, not ok || after.1)

  unfoldable pub flush : List ℕ → List Entry → Books S Entry → Books S Entry × Bool
  flush delays entries b =
      if repo.batches then flush_batch delays (length entries) entries b else flush_each entries b
