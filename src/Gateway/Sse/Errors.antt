-- ===== src/Gateway/Sse/Errors.antt =====
-- How the parser judges the end of a stream.
use d_api.Base.{
  ℕ, ◌≡◌, ◌≢◌, inl, inr, true, some, List, [], ◌∷◌, arith, if◌then◌else◌, Bool-cases, Option-cases,
}
use d_api.Gateway.Sse.{
  External, Parser, Event, feed, take_event, dispatch, parse_line, append, end_line, stream_error,
  reported_failure, ended_early, trim_bom, is_empty, cut, set_field, trim_blank,
}
use d_api.Gateway.Sse.Steps.{IsBounded, step, feed_bytes, past_cr}
use d_api.Gateway.Sse.Chunks.{feed-feed_bytes}

-- What stays: the verdict bits only ever rise, and the protocol and its demand do not change.
pub record Rises (p q : Parser) : Type 0 where
  pub failed_stays : p.failed ≡ true → q.failed ≡ true
  pub completed_stays : p.completed ≡ true → q.completed ≡ true
  pub same_protocol : q.protocol ≡ p.protocol
  pub same_demand : q.require_completion ≡ p.require_completion

Rises-trans : (p q r : Parser) → Rises p q → Rises q r → Rises p r
Rises-trans p q r a b = ground arith

take_event-Rises : (e : Event) (p : Parser) → Rises p (take_event e p)
unfolding take_event
take_event-Rises e p = ground arith

set_field-Rises : (field value : List ℕ) (p : Parser) → Rises p (set_field field value p)
set_field-Rises field value p = ground arith

append-Rises : (cs : List ℕ) (p : Parser) → Rises p (append cs p)
unfolding append
append-Rises cs p = ground arith

module _ (x : External) where
  dispatch-Rises : (p : Parser) → Rises p (dispatch x p)
  unfolding dispatch
  dispatch-Rises p = elim (Option-cases (x.decode (x.trim_space p.event_data))) [
    | inl e ↦ ground arith
    | inr (ev, e) ↦ ground (arith, take_event-Rises ev p)
  ]

  parse_line-Rises : (raw : List ℕ) (p : Parser) → Rises p (parse_line x raw p)
  unfolding parse_line
  parse_line-Rises raw p =
      let line = if p.started then raw else trim_bom raw in
      let p' = record p { started = true } in
      elim (Bool-cases (is_empty line)) [
        | inl e ↦ rw e (ground (arith, dispatch-Rises p'))
        | inr e ↦ rw e (
            Rises-trans p p' _ (ground arith)
              (set_field-Rises (cut line).0 (trim_blank (cut line).1) p'))
      ]

  end_line-Rises : (c : ℕ) (p : Parser) → Rises p (end_line x c p)
  unfolding end_line
  end_line-Rises c p = ground (arith, parse_line-Rises p.pending p)

  step-Rises : (c : ℕ) (p : Parser) → Rises p (step x c p)
  unfolding step
  step-Rises c p = ground (arith, end_line-Rises c (past_cr p), append-Rises (c ∷ []) (past_cr p))

  feed_bytes-Rises : (cs : List ℕ) (p : Parser) → Rises p (feed_bytes x cs p)
  unfolding feed_bytes
  feed_bytes-Rises [] p = ground arith
  feed_bytes-Rises (c ∷ cs) p =
      Rises-trans p (step x c p) _ (step-Rises c p) (feed_bytes-Rises cs (step x c p))

  -- What more bytes cannot change: a stream that reported a failure stays failed, and one that
  -- reached its completion is never judged to have ended early.
  pub verdict_stays :
      (cs : List ℕ) (p : Parser)
      → IsBounded p
      → (stream_error p ≡ some reported_failure
          → stream_error (feed x cs p) ≡ some reported_failure)
        × (p.completed ≡ true → stream_error (feed x cs p) ≢ some ended_early)
  unfolding stream_error
  verdict_stays cs p b =
      let same = feed-feed_bytes x cs p b in
      let up = feed_bytes-Rises cs p in
      (λ h. ground (arith, same, up.failed_stays), λ h. ground (arith, same, up.completed_stays))
