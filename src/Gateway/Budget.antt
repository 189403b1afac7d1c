-- ===== src/Gateway/Budget.antt =====
-- internal/gateway/resources.go, `byteBudget` and `responseBuffer`, and the loop of stream.go,
-- `readResponseWithMetrics`, that fills a buffer. Counts of bytes are natural numbers: `Buffer`
-- proves that the code releases only what it acquired, so `used` never goes below 0.
pub mod Buffer
pub mod Read
use d_api.Base.{
  ℕ, ◌+◌, ◌-◌, ◌*◌, ◌/◌, Bool, true, false, not, ◌&&◌, Option, none, some, List, [], ◌∷◌, ◌++◌, leb,
  ltb, nat_beq, if◌then◌else◌, length, min, max,
}

abbrev pub max_body_bytes : ℕ
max_body_bytes = 33554432

abbrev pub first_chunk : ℕ
first_chunk = 32768

pub record ByteBudget : Type 0 where
  pub used : ℕ

-- `size > limit - b.used` is a test on integers.
unfoldable pub acquire : ℕ → ℕ → ByteBudget → ByteBudget × Bool
acquire size limit b =
    if ltb limit (size + b.used) then (b, false) else (record { used = b.used + size }, true)

unfoldable pub release : ℕ → ByteBudget → ByteBudget
release size b = record { used = b.used - size }

-- `data` with its capacity; `reserved` is what the buffer holds of the budget.
pub record ResponseBuffer : Type 0 where
  pub content : List ℕ
  pub capacity : ℕ
  pub has_budget : Bool
  pub limit : ℕ
  pub reserved : ℕ

pub data Error : Type 0 where
  response_budget response_too_large read_failed first_byte_timeout idle_timeout context_done :
      Error

abbrev pub next_capacity : ℕ → ℕ → ℕ
next_capacity needed capacity = min max_body_bytes (max needed (max first_chunk (2 * capacity)))

-- `grow` is the capacity that Go's `append` chooses where the slice is too short for the chunk.
module _ (grow : ℕ → ℕ → ℕ) where
  -- `b.data = append(b.data, chunk...)`.
  abbrev pub push : List ℕ → ResponseBuffer → ResponseBuffer
  push chunk r =
      let needed = length r.content + length chunk in
      record r {
        content = r.content ++ chunk;
        capacity = if leb needed r.capacity then r.capacity else grow r.capacity needed;
      }

  -- The budget is passed along; a buffer without one leaves it alone.
  unfoldable pub append :
      List ℕ → ResponseBuffer × ByteBudget → (ResponseBuffer × ByteBudget) × Option Error
  append chunk (r, b) =
      let needed = length r.content + length chunk in
      let next = next_capacity needed r.capacity in
      if leb needed r.capacity
      then ((push chunk r, b), none)
      else (if not r.has_budget
          then ((push chunk (record r { capacity = next }), b), none)
          else (let (b', taken) = acquire next r.limit b in
              if taken
              then (
                (push chunk (record r { capacity = next; reserved = next }), release r.reserved b'),
                none,
              )
              else ((r, b), some response_budget)))

unfoldable pub release_buffer : ResponseBuffer × ByteBudget → ResponseBuffer × ByteBudget
release_buffer (r, b) = (
  record r { content = []; capacity = 0; reserved = 0 },
  if r.has_budget then release r.reserved b else b,
)

-- What the loop waits for: a read with its bytes and its error, the timer, or the context.
pub data ReadError : Type 0 where
  eof failed : ReadError

pub data ReadEvent : Type 0 where
  result : ℕ → List ℕ → Option ReadError → ReadEvent
  timer context : ReadEvent

-- `running` means that the loop still waits for an event.
pub data Outcome : Type 0 where
  running : Outcome
  finished : List ℕ → Outcome
  stopped : Error → Outcome

pub record Reading : Type 0 where
  pub buffer : ResponseBuffer
  pub budget : ByteBudget
  pub ttfb_ms : Option ℕ
  pub outcome : Outcome

abbrev pub to_ms : ℕ → ℕ
to_ms ns = ns / 1000000

abbrev pub or_first : Option ℕ → ℕ → Option ℕ
or_first none ms = some ms
or_first (some t) ms = some t

abbrev pub after_error : Option ReadError → List ℕ → Outcome
after_error none content = running
after_error (some eof) content = finished content
after_error (some failed) content = stopped read_failed

abbrev pub is_running : Outcome → Bool
is_running running = true
is_running _ = false

module _ (grow : ℕ → ℕ → ℕ) (started : ℕ) where
  -- The part of the branch `result := <-results` under `len(result.content) > 0`.
  unfoldable pub take_chunk : ℕ → List ℕ → Reading → Reading
  take_chunk at chunk s =
      let ttfb = or_first s.ttfb_ms (to_ms (at - started)) in
      if ltb max_body_bytes (length s.buffer.content + length chunk)
      then record s { ttfb_ms = ttfb; outcome = stopped response_too_large }
      else (let ((r, b), e) = append grow chunk (s.buffer, s.budget) in
          record {
            buffer = r;
            budget = b;
            ttfb_ms = ttfb;
            outcome = elim e [ none ↦ running | some x ↦ stopped x ];
          })

  -- One round of the `for` loop.
  unfoldable pub round : ReadEvent → Reading → Reading
  round (result at chunk e) s =
      let s' = if ltb 0 (length chunk) then take_chunk at chunk s else s in
      if is_running s'.outcome then record s' { outcome = after_error e s'.buffer.content } else s'
  round timer s = record s {
    outcome =
        stopped (if nat_beq (length s.buffer.content) 0 then first_byte_timeout else idle_timeout);
  }
  round context s = record s { outcome = stopped context_done }

  -- The loop over the events that come.
  unfoldable pub read_response : List ReadEvent → Reading → Reading
  read_response [] s = s
  read_response (e ∷ es) s =
      let rest = read_response es (round e s) in if is_running s.outcome then rest else s
