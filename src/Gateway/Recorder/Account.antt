-- ===== src/Gateway/Recorder/Account.antt =====
-- internal/gateway/recorder.go: no log entry disappears between the callers, the queue, the batch,
-- the fallback and the database.
use d_api.Base.{ℕ, ◌+◌, ◌<◌, ◌≤◌, ◌≡◌, refl, ap, List, [], ◌∷◌, ◌++◌, length, arith, length-append}
use d_api.Gateway.Recorder.{Repository}
use d_api.Gateway.Recorder.Flush.{flush-total}
use d_api.Gateway.Recorder.Worker.{
  Recorder, Step, Reach, submit, close, drop_remaining, reject_fallback, fall_back, flush_all,
  receive, receive_from, tick, write_fallback,
}

-- Stored, dropped, or still on the way.
abbrev pub total : {S Entry : Type 0} → Recorder S Entry → ℕ
total r =
    length r.books.stored
    + r.books.dropped
    + (length r.queue + length r.batch + (length r.waiting + length r.running))

length-middle :
    {A : Type 0} (zs xs : List A) (y : A) (ys : List A)
    → zs ≡ xs ++ (y ∷ ys)
    → length zs ≡ length (xs ++ ys) + 1
length-middle zs xs y ys e =
    omega (arith, ap length e, length-append xs (y ∷ ys), length-append xs ys)

pub record IsBounded {S Entry : Type 0} (r : Recorder S Entry) : Type 0 where
  pub queue : length r.queue ≤ 2048
  pub batch : length r.batch < 64
  pub waiting : length r.waiting ≤ 64
  pub running : length r.running ≤ 4

module _ {S Entry : Type 0} (repo : Repository S Entry) (delays : List ℕ) where
  receive_from-total :
      (queue : List Entry) (r : Recorder S Entry)
      → r.queue ≡ queue
      → total (receive_from repo delays queue r) ≡ total r
  unfolding receive_from flush_all
  receive_from-total [] r e = ground (arith, ap length e, flush-total repo delays r.batch r.books)
  receive_from-total (entry ∷ rest) r e = ground (
    arith,
    ap length e,
    flush-total repo delays (r.batch ++ entry ∷ []) r.books,
    length-append r.batch (entry ∷ []),
  )

  receive-total : (r : Recorder S Entry) → total (receive repo delays r) ≡ total r
  unfolding receive
  receive-total r = receive_from-total r.queue r refl

  tick-total : (r : Recorder S Entry) → total (tick repo delays r) ≡ total r
  unfolding tick flush_all
  tick-total r = ground (arith, flush-total repo delays r.batch r.books)

  Step-total : {n : ℕ} {r s : Recorder S Entry} → Step repo delays r n s → total s ≡ total r + n
  unfolding submit close drop_remaining reject_fallback fall_back write_fallback
  Step-total (Step.submitted r entry h) = ground (arith, h, length-append r.queue (entry ∷ []))
  Step-total (Step.closing r) = omega arith
  Step-total (Step.receiving r h) = omega (arith, receive-total r)
  Step-total (Step.ticking r h) = omega (arith, tick-total r)
  Step-total (Step.interrupted r h k) = ground arith
  Step-total (Step.falling r entry) = ground arith
  Step-total (Step.admitted r xs entry ys e h) =
      ground (arith, length-middle r.waiting xs entry ys e)
  Step-total (Step.timed_out r xs entry ys e) =
      ground (arith, length-middle r.waiting xs entry ys e)
  Step-total (Step.written r xs entry ys e) =
      ground
        (arith, length-middle r.running xs entry ys e, flush-total repo delays (entry ∷ []) r.books)

  -- Whatever callers, the writer and the database do, the entries handed over since some moment are
  -- exactly the growth of the entries stored, counted as dropped, or still queued, batched or in the
  -- fallback.
  pub Reach-total :
      {start : Recorder S Entry} {n : ℕ} {r : Recorder S Entry}
      → Reach repo delays start n r
      → total r ≡ total start + n
  Reach-total Reach.here = omega arith
  Reach-total (Reach.next h s) = omega (arith, Reach-total h, Step-total s)

  receive_from-IsBounded :
      (queue : List Entry) (r : Recorder S Entry)
      → r.queue ≡ queue
      → IsBounded r
      → IsBounded (receive_from repo delays queue r)
  unfolding receive_from flush_all
  receive_from-IsBounded [] r e b = ground (arith, b.queue, b.batch, b.waiting, b.running)
  receive_from-IsBounded (entry ∷ rest) r e b = ground (
    arith,
    ap length e,
    b.queue,
    b.batch,
    b.waiting,
    b.running,
    length-append r.batch (entry ∷ []),
  )

  -- Each step keeps the bounds: at most 2048 entries are queued, fewer than 64 are batched, at most
  -- 64 callers wait for the fallback and at most four are in it.
  pub Step-IsBounded :
      {n : ℕ} {r s : Recorder S Entry} → Step repo delays r n s → IsBounded r → IsBounded s
  unfolding submit close drop_remaining reject_fallback fall_back write_fallback receive tick
      flush_all
  Step-IsBounded (Step.submitted r entry h) b =
      ground (arith, b.queue, b.batch, b.waiting, b.running, length-append r.queue (entry ∷ []))
  Step-IsBounded (Step.closing r) b = ground (arith, b.queue, b.batch, b.waiting, b.running)
  Step-IsBounded (Step.receiving r h) b = receive_from-IsBounded r.queue r refl b
  Step-IsBounded (Step.ticking r h) b = ground (arith, b.queue, b.batch, b.waiting, b.running)
  Step-IsBounded (Step.interrupted r h k) b = ground (arith, b.queue, b.batch, b.waiting, b.running)
  Step-IsBounded (Step.falling r entry) b = ground (arith, b.queue, b.batch, b.waiting, b.running)
  Step-IsBounded (Step.admitted r xs entry ys e h) b =
      ground (arith, length-middle r.waiting xs entry ys e, b.queue, b.batch, b.waiting, b.running)
  Step-IsBounded (Step.timed_out r xs entry ys e) b =
      ground (arith, length-middle r.waiting xs entry ys e, b.queue, b.batch, b.waiting, b.running)
  Step-IsBounded (Step.written r xs entry ys e) b =
      ground (arith, length-middle r.running xs entry ys e, b.queue, b.batch, b.waiting, b.running)
