-- ===== src/Gateway/RecorderTests.antt =====
-- Runs of internal/gateway/recorder.go over a database that refuses entries over 100.
use d_api.Base.{
  ℕ, ◌+◌, ◌≡◌, refl, Bool, true, false, not, List, [], ◌∷◌, ◌++◌, arith, length, keep, ltb,
  if◌then◌else◌,
}
use d_api.Gateway.Recorder.{Answer, Repository, Books, attempts, flush, flush_batch}
use d_api.Gateway.Recorder.Bisect.{any, Refuses, flush-keeps}
use d_api.Gateway.Recorder.Worker.{Recorder, Step, Reach, submit, receive}
use d_api.Gateway.Recorder.Account.{total, Reach-total, IsBounded}

abbrev bad : ℕ → Bool
bad n = ltb 100 n

-- The state counts the calls.
abbrev picky : Repository ℕ ℕ
picky = record {
  batches = true;
  record_request = λ x s. (s + 1, Answer.written);
  record_requests = λ xs s. (s + 1, if any bad xs then Answer.data_error else Answer.written);
  cancelled = λ s. false;
  wait = λ delay s. s;
}

picky-Refuses : Refuses picky bad
picky-Refuses = record { batches = refl; answer = λ xs s. refl; runs = λ s. refl }

abbrev books : Books ℕ ℕ
books = record { outside = 0; stored = []; dropped = 0 }

abbrev entries : List ℕ
entries = 1 ∷ 2 ∷ 300 ∷ 4 ∷ []

-- Five calls: the four, the first two, the last two, and each of those.
bisected :
    (flush picky (5 ∷ []) entries books).0
    ≡ record { outside = 5; stored = 1 ∷ 2 ∷ 4 ∷ []; dropped = 1 }
unfolding flush flush_batch attempts any
bisected = refl

flush-keeps_example :
    ((flush picky (5 ∷ []) entries books).0.stored ≡ [] ++ keep (λ x. not (bad x)) entries)
    × ((flush picky (5 ∷ []) entries books).0.dropped ≡ 0 + length (keep bad entries))
flush-keeps_example = flush-keeps picky bad picky-Refuses (5 ∷ []) entries books

abbrev idle : Recorder ℕ ℕ
idle = record {
  books = books;
  queue = [];
  batch = [];
  closed = false;
  done = false;
  flush_err = false;
  waiting = [];
  running = [];
  fallback_count = 0;
  fallback_rejected = 0;
}

idle-IsBounded : IsBounded idle
idle-IsBounded = ground arith

abbrev one_queued : Recorder ℕ ℕ
one_queued = (submit 7 idle).0

queued : Step picky [] idle 1 one_queued
unfolding submit
queued = Step.submitted idle 7 refl

abbrev one_batched : Recorder ℕ ℕ
one_batched = receive picky [] one_queued

taken : Step picky [] one_queued 0 one_batched
unfolding submit
taken = Step.receiving one_queued refl

shipped : Reach picky [] idle (0 + 1 + 0) one_batched
shipped = Reach.next (Reach.next Reach.here queued) taken

Reach-total_example : total one_batched ≡ 0 + 1
Reach-total_example = Reach-total picky [] shipped
