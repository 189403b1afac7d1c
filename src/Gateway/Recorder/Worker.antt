-- ===== src/Gateway/Recorder/Worker.antt =====
-- internal/gateway/recorder.go: the queue, the goroutine `run` that empties it in batches, and the
-- bounded fallback of callers whose entry the queue refused.
use d_api.Base.{
  ℕ, ◌+◌, ◌<◌, ◌≡◌, Bool, true, false, ◌||◌, List, [], ◌∷◌, ◌++◌, length, leb, ltb, if◌then◌else◌,
}
use d_api.Gateway.Recorder.{Repository, Books, flush}

abbrev pub request_log_queue_size : ℕ
request_log_queue_size = 2048

abbrev pub request_log_batch_size : ℕ
request_log_batch_size = 64

abbrev pub request_log_fallback_concurrency : ℕ
request_log_fallback_concurrency = 4

abbrev pub request_log_fallback_waiters : ℕ
request_log_fallback_waiters = 64

-- `waiting` and `running` are the entries whose callers hold a slot of `fallbackWaitSlots` and of
-- `fallbackSlots`.
pub record Recorder (S Entry : Type 0) : Type 0 where
  pub books : Books S Entry
  pub queue : List Entry
  pub batch : List Entry
  pub closed : Bool
  pub done : Bool
  pub flush_err : Bool
  pub waiting : List Entry
  pub running : List Entry
  pub fallback_count : ℕ
  pub fallback_rejected : ℕ

abbrev pub drop_more : {S Entry : Type 0} → ℕ → Books S Entry → Books S Entry
drop_more n b = record b { dropped = b.dropped + n }

module _ {S Entry : Type 0} where
  unfoldable pub submit : Entry → Recorder S Entry → Recorder S Entry × Bool
  submit entry r =
      if r.closed
      then (r, false)
      else (if ltb (length r.queue) request_log_queue_size
          then (record r { queue = r.queue ++ entry ∷ [] }, true)
          else (r, false))

  unfoldable pub close : Recorder S Entry → Recorder S Entry
  close r = record r { closed = true }

  unfoldable pub drop_remaining : Recorder S Entry → Recorder S Entry
  drop_remaining r = record r {
    books = drop_more (length r.batch + length r.queue) r.books;
    queue = [];
    batch = [];
    done = true;
    flush_err = r.flush_err || ltb 0 (length r.batch + length r.queue);
  }

  unfoldable pub reject_fallback : Recorder S Entry → Recorder S Entry
  reject_fallback r = record r {
    books = drop_more 1 r.books;
    fallback_rejected = r.fallback_rejected + 1;
    flush_err = true;
  }

  -- `fallback` up to its wait.
  unfoldable pub fall_back : Entry → Recorder S Entry → Recorder S Entry
  fall_back entry r =
      let counted : Recorder S Entry = record r { fallback_count = r.fallback_count + 1 } in
      if ltb (length r.waiting) request_log_fallback_waiters
      then record counted { waiting = entry ∷ r.waiting }
      else reject_fallback counted

module _ {S Entry : Type 0} (repo : Repository S Entry) (delays : List ℕ) where
  -- `r.rememberFlushError(r.flush(batch)); batch = batch[:0]`.
  unfoldable pub flush_all : List Entry → Recorder S Entry → Recorder S Entry
  flush_all batch r =
      let flushed = flush repo delays batch r.books in
      record r { books = flushed.0; batch = []; flush_err = r.flush_err || flushed.1 }

  -- `run` takes an entry from the queue, or finds it closed and empty; else it waits.
  unfoldable pub receive_from : List Entry → Recorder S Entry → Recorder S Entry
  receive_from [] r = if r.closed then record (flush_all r.batch r) { done = true } else r
  receive_from (entry ∷ rest) r =
      let batch = r.batch ++ entry ∷ [] in
      if leb request_log_batch_size (length batch)
      then record (flush_all batch r) { queue = rest }
      else record r { queue = rest; batch = batch }

  unfoldable pub receive : Recorder S Entry → Recorder S Entry
  receive r = receive_from r.queue r

  -- `run` when the ticker fires.
  unfoldable pub tick : Recorder S Entry → Recorder S Entry
  tick r = if ltb 0 (length r.batch) then flush_all r.batch r else r

  -- A caller's fallback writes its entry while it holds a slot.
  unfoldable pub write_fallback : Entry → Recorder S Entry → Recorder S Entry
  write_fallback entry r =
      let flushed = flush repo delays (entry ∷ []) r.books in
      record r { books = flushed.0; flush_err = r.flush_err || flushed.1 }

-- The steps of the callers and of the goroutine; each is one event of its `select`. The number
-- is that of the entries handed over: to the queue, or to the fallback. The context is cancelled by
-- `Close` only, after it closed the queue.
pub data Step {S Entry : Type 0} (repo : Repository S Entry) (delays : List ℕ)
    : Recorder S Entry → ℕ → Recorder S Entry → Type 0 where
  submitted :
      (r : Recorder S Entry) (entry : Entry)
      → (submit entry r).1 ≡ true
      → Step repo delays r 1 (submit entry r).0
  closing : (r : Recorder S Entry) → Step repo delays r 0 (close r)
  receiving : (r : Recorder S Entry) → r.done ≡ false → Step repo delays r 0 (receive repo delays r)
  ticking : (r : Recorder S Entry) → r.done ≡ false → Step repo delays r 0 (tick repo delays r)
  interrupted :
      (r : Recorder S Entry)
      → r.done ≡ false
      → r.closed ≡ true
      → Step repo delays r 0 (drop_remaining r)
  falling : (r : Recorder S Entry) (entry : Entry) → Step repo delays r 1 (fall_back entry r)
  admitted :
      (r : Recorder S Entry) (xs : List Entry) (entry : Entry) (ys : List Entry)
      → r.waiting ≡ xs ++ (entry ∷ ys)
      → length r.running < request_log_fallback_concurrency
      → Step repo delays r 0 (record r { waiting = xs ++ ys; running = entry ∷ r.running })
  timed_out :
      (r : Recorder S Entry) (xs : List Entry) (entry : Entry) (ys : List Entry)
      → r.waiting ≡ xs ++ (entry ∷ ys)
      → Step repo delays r 0 (reject_fallback (record r { waiting = xs ++ ys }))
  written :
      (r : Recorder S Entry) (xs : List Entry) (entry : Entry) (ys : List Entry)
      → r.running ≡ xs ++ (entry ∷ ys)
      → Step repo delays r 0 (write_fallback repo delays entry (record r { running = xs ++ ys }))

pub data Reach {S Entry : Type 0} (repo : Repository S Entry) (delays : List ℕ)
    (start : Recorder S Entry) : ℕ → Recorder S Entry → Type 0 where
  here : Reach repo delays start 0 start
  next :
      {m n : ℕ} {r s : Recorder S Entry}
      → Reach repo delays start m r
      → Step repo delays r n s
      → Reach repo delays start (m + n) s
