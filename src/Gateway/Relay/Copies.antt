-- ===== src/Gateway/Relay/Copies.antt =====
-- internal/gateway/stream.go, `relayStreamWithMetrics`: what reaches the client and the log.
use d_api.Base.{
  take, drop, take-append-drop, append_assoc, append_nil, ℕ, ◌≡◌, ◌≢◌, refl, sym, ap, subst, ◌∙◌,
  Bool, true, false, ◌&&◌, none, some, List, [], ◌∷◌, ◌++◌, arith, inl, inr, Bool-cases, ◌⊎◌,
}
use d_api.Gateway.Usage.{Protocol}
use d_api.Gateway.Sse.{External, feed, parser_usage, stream_error, is_known, is_empty}
use d_api.Gateway.Sse.Chunks.{concat, feed_all, feed_all-concat}
use d_api.Gateway.Relay.{
  Read, Ending, Event, Relay, Relayed, Step, commit, on_chunk, on_event, at_end, at_eof, relay,
  start, verdict, result,
}

-- A read that the client takes.
abbrev pub taken : List ℕ → Ending → Event
taken content ending = Event.read (record {
  content = content;
  ending = ending;
  deadline_fails = false;
  write_fails = false;
  accepted = 0;
  flush_fails = false;
})

-- The chunks of a stream, of which some may be empty, and the bytes that come with its end, if any.
abbrev pub stream : List (List ℕ) → List ℕ → List Event
stream [] last = taken last Ending.eof ∷ []
stream (chunk ∷ rest) last = taken chunk Ending.open_still ∷ stream rest last

-- The parts of a stream that have bytes.
abbrev parts : List (List ℕ) → List ℕ → List (List ℕ)
parts [] [] = []
parts [] (c ∷ cs) = (c ∷ cs) ∷ []
parts ([] ∷ rest) last = parts rest last
parts ((c ∷ cs) ∷ rest) last = (c ∷ cs) ∷ parts rest last

concat-parts :
    (chunks : List (List ℕ)) (last : List ℕ) → concat (parts chunks last) ≡ concat chunks ++ last
concat-parts [] [] = refl
concat-parts [] (c ∷ cs) = append_nil (c ∷ cs)
concat-parts ([] ∷ rest) last = concat-parts rest last
concat-parts ((c ∷ cs) ∷ rest) last =
    ap (λ l. (c ∷ cs) ++ l) (concat-parts rest last)
    ∙ sym (append_assoc (c ∷ cs) (concat rest) last)

at_eof_committed :
    (r : Relay)
    → r.committed ≡ true
    → at_eof r ≡ result (record r { committed = true }) (verdict (stream_error r.parser))
unfolding at_eof
at_eof_committed r h = ground (arith, h)

empty_content : (content : List ℕ) → is_empty content ≡ true → content ≡ []
empty_content [] h = refl
empty_content (c ∷ cs) h = absurd (cc)

Step-cases : (s : Step) → ((r : Relay) × (s ≡ Step.goes_on r)) ⊎ ((d : Relayed) × (s ≡ Step.ends d))
Step-cases (Step.goes_on r) = inl (r, refl)
Step-cases (Step.ends d) = inr (d, refl)

start-sent : (protocol : Protocol) (success : Bool) → (start protocol success).sent ≡ []
unfolding start
start-sent protocol success = refl

-- The bytes that were read.
abbrev pub bytes : Event → List ℕ
bytes (Event.read e) = e.content
bytes Event.timer = []
bytes Event.context_done = []

abbrev pub received : List Event → List ℕ
received [] = []
received (e ∷ es) = bytes e ++ received es

abbrev IsClean : Relay → Type 0
IsClean r = r.committed ≡ false → r.sent ≡ []

module _ (x : External) where
  -- After a chunk that the client takes.
  abbrev after_chunk : List ℕ → Relay → Relay
  after_chunk chunk r = record (commit x chunk r) { sent = r.sent ++ chunk }

  abbrev after_all : List (List ℕ) → Relay → Relay
  after_all [] r = r
  after_all (chunk ∷ rest) r = after_all rest (after_chunk chunk r)

  relay-stream :
      (chunks : List (List ℕ)) (last : List ℕ) (r : Relay)
      → relay x (stream chunks last) r ≡ some (at_eof (after_all (parts chunks last) r))
  unfolding relay on_event on_chunk at_end
  relay-stream [] [] r = refl
  relay-stream [] (c ∷ cs) r = refl
  relay-stream ([] ∷ rest) last r = relay-stream rest last r
  relay-stream ((c ∷ cs) ∷ rest) last r = relay-stream rest last (after_chunk (c ∷ cs) r)

  after_all-parser :
      (chunks : List (List ℕ)) (r : Relay)
      → (after_all chunks r).parser ≡ feed_all x chunks r.parser
  unfolding feed_all commit
  after_all-parser [] r = refl
  after_all-parser (chunk ∷ rest) r = after_all-parser rest (after_chunk chunk r)

  after_all-sent :
      (chunks : List (List ℕ)) (r : Relay) → (after_all chunks r).sent ≡ r.sent ++ concat chunks
  unfolding commit
  after_all-sent [] r = sym (append_nil r.sent)
  after_all-sent (chunk ∷ rest) r =
      after_all-sent rest (after_chunk chunk r) ∙ append_assoc r.sent chunk (concat rest)

  after_all-committed :
      (chunks : List (List ℕ)) (r : Relay)
      → r.committed ≡ true
      → (after_all chunks r).committed ≡ true
  unfolding commit
  after_all-committed [] r h = h
  after_all-committed (chunk ∷ rest) r h = after_all-committed rest (after_chunk chunk r) refl

  some_committed :
      (chunks : List (List ℕ)) (r : Relay)
      → is_empty (concat chunks) ≡ false
      → (after_all chunks r).committed ≡ true
  unfolding commit
  some_committed [] r h = absurd (cc)
  some_committed (chunk ∷ rest) r h = after_all-committed rest (after_chunk chunk r) refl

  start-whole :
      (chunks : List (List ℕ)) (protocol : Protocol) (success : Bool)
      → feed_all x chunks (start protocol success).parser
        ≡ feed x (concat chunks) (start protocol success).parser
  unfolding start
  start-whole chunks protocol success =
      feed_all-concat x chunks protocol (is_known protocol && success)

  -- A stream with at least one byte that comes to its end while the client takes everything is
  -- committed and reaches the client byte for byte, and its usage and its error are those that the
  -- parser finds in all the bytes at once. It may be cut into chunks in any way, with reads of no
  -- bytes among them, and its last bytes may come with the end or before it.
  pub relay_copies :
      (chunks : List (List ℕ)) (last : List ℕ) (protocol : Protocol) (success : Bool)
      → is_empty (concat chunks ++ last) ≡ false
      → let whole = feed x (concat chunks ++ last) (start protocol success).parser in
        (done : Relayed) × (relay x (stream chunks last) (start protocol success) ≡ some done)
        × (done.committed ≡ true)
        × (done.sent ≡ concat chunks ++ last)
        × (done.usage ≡ parser_usage whole)
        × (done.error ≡ verdict (stream_error whole))
  relay_copies chunks last protocol success full =
      let begun = start protocol success in
      let cut = parts chunks last in
      let final = after_all cut begun in
      let joined = concat-parts chunks last in
      let kept : final.committed ≡ true = some_committed cut begun (ap is_empty joined ∙ full) in
      let parsed =
        after_all-parser cut begun
        ∙ start-whole cut protocol success
        ∙ ap (λ content. feed x content begun.parser) joined in
      let ended = at_eof_committed final kept in
      (
        at_eof final,
        relay-stream chunks last begun,
        ap (λ (d : Relayed). d.committed) ended,
        ap (λ (d : Relayed). d.sent) ended
            ∙ after_all-sent cut begun
            ∙ ap (λ sent. sent ++ concat cut) (start-sent protocol success)
            ∙ joined,
        ap (λ (d : Relayed). d.usage) ended ∙ ap parser_usage parsed,
        ap (λ (d : Relayed). d.error) ended ∙ ap (λ p. verdict (stream_error p)) parsed,
      )

  abbrev Good : Event → Relay → Step → Type 0
  Good e r (Step.goes_on r') = IsClean r' × (r'.sent ≡ r.sent ++ bytes e)
  Good e r (Step.ends done) =
      ((unsent : List ℕ) × (r.sent ++ bytes e ≡ done.sent ++ unsent))
      × (done.committed ≡ false → (done.sent ≡ []) × (done.error ≢ none))

  at_end-Good :
      (e : Event) (ending : Ending) (r r' : Relay)
      → IsClean r'
      → r'.sent ≡ r.sent ++ bytes e
      → Good e r (at_end ending r')
  unfolding at_end at_eof
  at_end-Good e Ending.open_still r r' clean s = (clean, s)
  at_end-Good e Ending.eof r r' clean s =
      (([], ground (arith, s, append_nil r'.sent)), ground (arith, clean))
  at_end-Good e Ending.broken r r' clean s =
      (([], ground (arith, s, append_nil r'.sent)), ground (arith, clean))

  on_chunk-Good : (e : Read) (r : Relay) → IsClean r → Good (Event.read e) r (on_chunk x e r)
  unfolding on_chunk commit
  on_chunk-Good e r clean = elim (Bool-cases e.deadline_fails) [
    | inl late ↦ rw late ((e.content, refl), ground (arith, clean))
    | inr in_time ↦ elim (Bool-cases e.write_fails) [
      | inl refused ↦
          let n = e.accepted in
          rw (in_time, refused)
            (
              (
                drop n e.content,
                sym (
                    append_assoc r.sent (take n e.content) (drop n e.content)
                    ∙ ap (λ c. r.sent ++ c) (take-append-drop n e.content)),
              ),
              λ h. absurd (cc),
            )
      | inr written ↦ elim (Bool-cases e.flush_fails) [
        | inl stuck ↦
            rw (in_time, written, stuck)
              (([], sym (append_nil (r.sent ++ e.content))), λ h. absurd (cc))
        | inr flushed ↦
            rw (in_time, written, flushed)
              (at_end-Good (Event.read e) e.ending r _ (λ h. absurd (cc)) refl)
      ]
    ]
  ]

  on_event-Good : (e : Event) (r : Relay) → IsClean r → Good e r (on_event x e r)
  unfolding on_event
  on_event-Good (Event.read e) r clean = elim (Bool-cases (is_empty e.content)) [
    | inl nothing ↦ rw nothing (
        at_end-Good (Event.read e) e.ending r r clean
          (sym (ap (λ c. r.sent ++ c) (empty_content e.content nothing) ∙ append_nil r.sent)))
    | inr something ↦ rw something (on_chunk-Good e r clean)
  ]
  on_event-Good Event.timer r clean = (([], refl), ground (arith, clean))
  on_event-Good Event.context_done r clean = (([], refl), ground (arith, clean))

  -- However the reads, the client, the timer and the context end a stream: what the client was sent
  -- begins with what was sent before and goes on with a beginning of what was read; and if nothing
  -- was committed, nothing was sent and there is an error, so that another upstream can be tried.
  pub relay-sends :
      (es : List Event) (r : Relay) (done : Relayed)
      → IsClean r
      → relay x es r ≡ some done
      → ((unsent : List ℕ) × (r.sent ++ received es ≡ done.sent ++ unsent))
        × (done.committed ≡ false → (done.sent ≡ []) × (done.error ≢ none))
  unfolding relay
  relay-sends [] r done clean h = absurd (cc)
  relay-sends (e ∷ es) r done clean h =
      let good = on_event-Good e r clean in
      elim (Step-cases (on_event x e r)) [
        | inl (r', went) ↦
            let step : Good e r (Step.goes_on r') = subst (Good e r) went good in
            let (further, closing) = relay-sends es r' done step.0 (ground (arith, went, h)) in
            (
              (
                further.0,
                sym (append_assoc r.sent (bytes e) (received es))
                    ∙ ap (λ s. s ++ received es) (sym step.1)
                    ∙ further.1,
              ),
              closing,
            )
        | inr (d, ended) ↦
            let over : Good e r (Step.ends d) = subst (Good e r) ended good in
            let same : d ≡ done = ground (arith, ended, h) in
            subst
              (λ (d' : Relayed).
                ((unsent : List ℕ) × (r.sent ++ (bytes e ++ received es) ≡ d'.sent ++ unsent))
                × (d'.committed ≡ false → (d'.sent ≡ []) × (d'.error ≢ none)))
              same
              (
                (
                  over.0.0 ++ received es,
                  sym (append_assoc r.sent (bytes e) (received es))
                      ∙ ap (λ s. s ++ received es) over.0.1
                      ∙ append_assoc d.sent over.0.0 (received es),
                ),
                over.1,
              )
      ]
