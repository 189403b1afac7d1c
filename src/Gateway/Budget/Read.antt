-- ===== src/Gateway/Budget/Read.antt =====
-- The loop that reads a whole response into its buffer.
use mathlib.Core.List.{append_assoc, append-nil}
use d_api.Base.{
  ℕ, ◌+◌, ◌*◌, ◌≤◌, ◌≡◌, refl, ap, ◌∙◌, ◌⊎◌, inl, inr, true, false, Option, none, some, List, [],
  ◌∷◌, ◌++◌, arith, ltb, length, length-append, Bool-cases, Option-cases,
}
use d_api.Gateway.Budget.{
  ByteBudget, ResponseBuffer, Error, response_too_large, max_body_bytes, append, acquire, Reading,
  ReadEvent, result, timer, context, ReadError, eof, failed, running, finished, stopped, take_chunk,
  round, read_response, is_running, after_error,
}
use d_api.Gateway.Budget.Buffer.{Holds, append-Holds}

-- The bytes that the events bring, up to the first read with an error.
abbrev pub received : List ReadEvent → List ℕ
received [] = []
received (result at chunk none ∷ es) = chunk ++ received es
received (result at chunk (some e) ∷ es) = chunk
received (timer ∷ es) = []
received (context ∷ es) = []

append-content :
    (grow : ℕ → ℕ → ℕ) (chunk : List ℕ) (r : ResponseBuffer) (b : ByteBudget)
    → (append grow chunk (r, b)).1 ≡ none
    → (append grow chunk (r, b)).0.0.content ≡ r.content ++ chunk
unfolding append acquire
append-content grow chunk r b h = ground arith

module _ (grow : ℕ → ℕ → ℕ) (started : ℕ) where
  take_chunk-Holds :
      (others at : ℕ) (chunk : List ℕ) (s : Reading)
      → Holds others s.buffer s.budget
      → Holds others
          (take_chunk grow started at chunk s).buffer
          (take_chunk grow started at chunk s).budget
  unfolding take_chunk
  take_chunk-Holds others at chunk s h =
      ground (arith, append-Holds grow others s.buffer s.budget chunk h)

  round-Holds :
      (others : ℕ) (e : ReadEvent) (s : Reading)
      → Holds others s.buffer s.budget
      → Holds others (round grow started e s).buffer (round grow started e s).budget
  unfolding round
  round-Holds others timer s h = h
  round-Holds others context s h = h
  round-Holds others (result at chunk e) s h = ground (arith, take_chunk-Holds others at chunk s h)

  -- Whatever the events are, the shared budget counts exactly the buffer's capacity beside what the
  -- others hold and stays within its limit, and the content stays within 32 MiB.
  pub read_response-Holds :
      (others : ℕ) (es : List ReadEvent) (s : Reading)
      → Holds others s.buffer s.budget
      → Holds others
          (read_response grow started es s).buffer
          (read_response grow started es s).budget
  unfolding read_response
  read_response-Holds others [] s h = h
  read_response-Holds others (e ∷ es) s h =
      ground
        (arith, read_response-Holds others es (round grow started e s) (round-Holds others e s h))

  read_stopped :
      (es : List ReadEvent) (s : Reading)
      → is_running s.outcome ≡ false
      → read_response grow started es s ≡ s
  unfolding read_response
  read_stopped [] s h = refl
  read_stopped (e ∷ es) s h = ground arith

  -- What a chunk leaves: the content with the chunk, if the loop goes on, and never the end.
  take_chunk-content :
      (at : ℕ) (chunk : List ℕ) (s : Reading)
      → ((is_running (take_chunk grow started at chunk s).outcome ≡ true)
          × ((take_chunk grow started at chunk s).buffer.content ≡ s.buffer.content ++ chunk))
        ⊎ ((x : Error) × ((take_chunk grow started at chunk s).outcome ≡ stopped x))
  unfolding take_chunk
  take_chunk-content at chunk s =
      elim (Bool-cases (ltb max_body_bytes (length s.buffer.content + length chunk))) [
        | inl e ↦ inr (response_too_large, rw e)
        | inr e ↦ elim (Option-cases (append grow chunk (s.buffer, s.budget)).1) [
          | inl ok ↦
              inl (ground arith, ground (arith, append-content grow chunk s.buffer s.budget ok))
          | inr (x, bad) ↦ inr (x, ground arith)
        ]
      ]

  round-content :
      (at : ℕ) (chunk : List ℕ) (e : Option ReadError) (s : Reading)
      → s.outcome ≡ running
      → ((round grow started (result at chunk e) s).outcome
            ≡ after_error e (s.buffer.content ++ chunk))
          × ((round grow started (result at chunk e) s).buffer.content ≡ s.buffer.content ++ chunk)
        ⊎ ((x : Error) × ((round grow started (result at chunk e) s).outcome ≡ stopped x))
  unfolding round
  round-content at [] e s h =
      inl (ground (arith, append-nil s.buffer.content), ground (arith, append-nil s.buffer.content))
  round-content at (c ∷ cs) e s h = elim (take_chunk-content at (c ∷ cs) s) [
    | inl ok ↦ inl (ground arith, ground arith)
    | inr (x, bad) ↦ inr (x, ground arith)
  ]

  stop_absurd :
      (es : List ReadEvent) (s : Reading) (x : Error) (c : List ℕ)
      → s.outcome ≡ stopped x
      → (read_response grow started es s).outcome ≡ finished c
      → ⊥
  stop_absurd es s x c h f = ground (arith, read_stopped es s)

  -- If the loop ends with a content, it is the content that was there with all the bytes that came
  -- up to the end of the body, in their order.
  pub read_response-finished :
      (es : List ReadEvent) (s : Reading) (c : List ℕ)
      → s.outcome ≡ running
      → (read_response grow started es s).outcome ≡ finished c
      → c ≡ s.buffer.content ++ received es
  unfolding read_response round
  read_response-finished [] s c h f = absurd (ground arith)
  read_response-finished (timer ∷ es) s c h f =
      absurd (stop_absurd es (round grow started timer s) _ c refl (ground arith))
  read_response-finished (context ∷ es) s c h f =
      absurd (stop_absurd es (round grow started context s) _ c refl (ground arith))
  read_response-finished (result at chunk none ∷ es) s c h f =
      let s' = round grow started (result at chunk none) s in
      elim (round-content at chunk none s h) [
        | inl (out, kept) ↦
            read_response-finished es s' c out (ground arith)
            ∙ ap (λ x. x ++ received es) kept
            ∙ append_assoc s.buffer.content chunk (received es)
        | inr (x, bad) ↦ absurd (stop_absurd es s' x c bad (ground arith))
      ]
  read_response-finished (result at chunk (some eof) ∷ es) s c h f =
      let s' = round grow started (result at chunk (some eof)) s in
      elim (round-content at chunk (some eof) s h) [
        | inl (out, kept) ↦ ground (arith, read_stopped es s')
        | inr (x, bad) ↦ absurd (stop_absurd es s' x c bad (ground arith))
      ]
  read_response-finished (result at chunk (some failed) ∷ es) s c h f =
      let s' = round grow started (result at chunk (some failed)) s in
      elim (round-content at chunk (some failed) s h) [
        | inl (out, kept) ↦ absurd (stop_absurd es s' _ c out (ground arith))
        | inr (x, bad) ↦ absurd (stop_absurd es s' x c bad (ground arith))
      ]

append-limit :
    (grow : ℕ → ℕ → ℕ) (chunk : List ℕ) (r : ResponseBuffer) (b : ByteBudget)
    → (append grow chunk (r, b)).0.0.limit ≡ r.limit
unfolding append
append-limit grow chunk r b = ground arith

-- The reads of a body whose bytes come in chunks with no error, and its end with the last bytes.
abbrev pub arrivals : List (ℕ × List ℕ) → ℕ → List ℕ → List ReadEvent
arrivals [] at last = result at last (some eof) ∷ []
arrivals ((start, chunk) ∷ rest) at last = result start chunk none ∷ arrivals rest at last

abbrev pub bytes : List (ℕ × List ℕ) → List ℕ
bytes [] = []
bytes ((at, chunk) ∷ rest) = chunk ++ bytes rest

module _ (grow : ℕ → ℕ → ℕ) (started others : ℕ) where
  -- A state of the loop with room in the budget for two buffers of the largest size.
  record Roomy (s : Reading) : Type 0 where
    going : s.outcome ≡ running
    holds : Holds others s.buffer s.budget
    room : others + 2 * max_body_bytes ≤ s.buffer.limit

  take_chunk-Roomy :
      (at : ℕ) (chunk : List ℕ) (s : Reading)
      → Roomy s
      → length s.buffer.content + length chunk ≤ max_body_bytes
      → Roomy (take_chunk grow started at chunk s)
        × ((take_chunk grow started at chunk s).buffer.content ≡ s.buffer.content ++ chunk)
  unfolding take_chunk
  take_chunk-Roomy at chunk s h m =
      elim (append-Holds grow others s.buffer s.budget chunk h.holds m) [
        | inl (ok, kept, holds, _) ↦ (
          record {
            going = ground arith;
            holds = ground arith;
            room = ground (arith, append-limit grow chunk s.buffer s.budget, h.room);
          },
          ground arith,
        )
        | inr (_, _, _, full) ↦
            absurd
              (omega (arith, full, h.room, h.holds.accounted, h.holds.reserves, h.holds.capped))
      ]

  round-Roomy :
      (at : ℕ) (chunk : List ℕ) (s : Reading)
      → Roomy s
      → length s.buffer.content + length chunk ≤ max_body_bytes
      → Roomy (round grow started (result at chunk none) s)
        × ((round grow started (result at chunk none) s).buffer.content ≡ s.buffer.content ++ chunk)
  unfolding round
  round-Roomy at [] s h m = (ground (arith, h.going), ground (arith, append-nil s.buffer.content))
  round-Roomy at (c ∷ cs) s h m =
      let step = take_chunk-Roomy at (c ∷ cs) s h m in
      (ground (arith, step.0.going), ground (arith, step.0.going))

  last_round :
      (at : ℕ) (chunk : List ℕ) (s : Reading)
      → Roomy s
      → length s.buffer.content + length chunk ≤ max_body_bytes
      → (round grow started (result at chunk (some eof)) s).outcome
        ≡ finished (s.buffer.content ++ chunk)
  unfolding round
  last_round at [] s h m = ground (arith, h.going, append-nil s.buffer.content)
  last_round at (c ∷ cs) s h m =
      let step = take_chunk-Roomy at (c ∷ cs) s h m in ground (arith, step.0.going, step.1)

  -- With room in the budget, a body of at most 32 MiB that comes in any chunks, the last of them
  -- before its end or with it, is read whole: the loop ends with its bytes.
  pub read_response-total :
      (cs : List (ℕ × List ℕ)) (at : ℕ) (last : List ℕ) (s : Reading)
      → s.outcome ≡ running
      → Holds others s.buffer s.budget
      → others + 2 * max_body_bytes ≤ s.buffer.limit
      → length s.buffer.content + (length (bytes cs) + length last) ≤ max_body_bytes
      → (read_response grow started (arrivals cs at last) s).outcome
        ≡ finished (s.buffer.content ++ (bytes cs ++ last))
  unfolding read_response
  read_response-total [] at last s g h r m =
      ground
        (arith, g, last_round at last s (record { going = g; holds = h; room = r }) (omega arith))
  read_response-total ((start, chunk) ∷ cs) at last s g h r m =
      let step : Roomy (round grow started (result start chunk none) s)
          × ((round grow started (result start chunk none) s).buffer.content
              ≡ s.buffer.content ++ chunk) =
        round-Roomy start chunk s (record { going = g; holds = h; room = r })
          (omega (arith, length-append chunk (bytes cs))) in
      let s' = round grow started (result start chunk none) s in
      let rest : (read_response grow started (arrivals cs at last) s').outcome
          ≡ finished (s'.buffer.content ++ (bytes cs ++ last)) =
        read_response-total cs at last s' step.0.going step.0.holds step.0.room (
          omega (
            arith,
            ap length step.1,
            length-append s.buffer.content chunk,
            length-append chunk (bytes cs),
          )) in
      ground (
        arith,
        rest,
        append_assoc s.buffer.content chunk (bytes cs ++ last),
        append_assoc chunk (bytes cs) last,
      )
