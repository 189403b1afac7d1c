-- ===== src/Gateway/Relay.antt =====
-- internal/gateway/stream.go, `relayStreamWithMetrics`: the loop that copies an event stream to the
-- client and shows each chunk to the usage parser. What comes to its `select` is given as events:
-- a read of the goroutine with what the client's connection does to the chunk, the timer, or the end
-- of the request's context. Of the durations only whether they were taken is kept.
pub mod Copies
use d_api.Base.{
  take, ℕ, Bool, true, false, not, ◌&&◌, ◌||◌, Option, none, some, List, [], ◌∷◌, ◌++◌,
  if◌then◌else◌,
}
use d_api.Gateway.Usage.{Protocol, Usage}
use d_api.Gateway.Sse.{
  External, Parser, new, feed, parser_usage, stream_error, StreamError, is_known, is_empty,
}

-- What a read ends with besides its bytes.
pub data Ending : Type 0 where
  open_still eof broken : Ending

-- Where `w.Write` fails, it has taken the first `accepted` bytes.
pub record Read : Type 0 where
  pub content : List ℕ
  pub ending : Ending
  pub deadline_fails : Bool
  pub write_fails : Bool
  pub accepted : ℕ
  pub flush_fails : Bool

pub data Event : Type 0 where
  read : Read → Event
  timer context_done : Event

pub data RelayError : Type 0 where
  client_closed empty_stream read_failed idle_timeout first_byte_timeout context_ended : RelayError
  stream_failed : StreamError → RelayError

-- `sent` is what `w.Write` accepted.
pub record Relay : Type 0 where
  pub committed : Bool
  pub sent : List ℕ
  pub parser : Parser
  pub has_ttfb : Bool
  pub has_ttft : Bool

pub record Relayed : Type 0 where
  pub committed : Bool
  pub sent : List ℕ
  pub usage : Usage
  pub has_ttfb : Bool
  pub has_ttft : Bool
  pub error : Option RelayError

pub data Step : Type 0 where
  goes_on : Relay → Step
  ends : Relayed → Step

abbrev pub result : Relay → Option RelayError → Relayed
result r error = record {
  committed = r.committed;
  sent = r.sent;
  usage = parser_usage r.parser;
  has_ttfb = r.has_ttfb;
  has_ttft = r.has_ttft;
  error = error;
}

abbrev pub verdict : Option StreamError → Option RelayError
verdict none = none
verdict (some e) = some (RelayError.stream_failed e)

-- At the end of the stream: an empty one is committed only if no completion is promised.
unfoldable pub at_eof : Relay → Relayed
at_eof r =
    if not r.committed && r.parser.require_completion
    then result r (some RelayError.empty_stream)
    else result (record r { committed = true }) (verdict (stream_error r.parser))

unfoldable pub at_end : Ending → Relay → Step
at_end Ending.open_still r = Step.goes_on r
at_end Ending.eof r = Step.ends (at_eof r)
at_end Ending.broken r = Step.ends (result r (some RelayError.read_failed))

module _ (x : External) where
  -- The chunk is shown to the parser once the response is committed to the client.
  unfoldable pub commit : List ℕ → Relay → Relay
  commit content r =
      let p = feed x content r.parser in
      record {
        committed = true;
        sent = r.sent;
        parser = p;
        has_ttfb = true;
        has_ttft = r.has_ttft || p.text_seen;
      }

  unfoldable pub on_chunk : Read → Relay → Step
  on_chunk e r =
      if e.deadline_fails
      then Step.ends (result r (some RelayError.client_closed))
      else (let shown = commit e.content r in
          let written : Relay = record shown { sent = r.sent ++ e.content } in
          let cut : Relay = record shown { sent = r.sent ++ take e.accepted e.content } in
          if e.write_fails
          then Step.ends (result cut (some RelayError.client_closed))
          else (if e.flush_fails
              then Step.ends (result written (some RelayError.client_closed))
              else at_end e.ending written))

  -- One round of the loop.
  unfoldable pub on_event : Event → Relay → Step
  on_event (Event.read e) r = if is_empty e.content then at_end e.ending r else on_chunk e r
  on_event Event.timer r = Step.ends (
      result r
        (some (if r.committed then RelayError.idle_timeout else RelayError.first_byte_timeout)))
  on_event Event.context_done r = Step.ends (result r (some RelayError.context_ended))

  -- The loop over the events; `none` while it waits for another.
  unfoldable pub relay : List Event → Relay → Option Relayed
  relay [] r = none
  relay (e ∷ es) r = elim (on_event e r) [
    | Step.goes_on r' ↦ relay es r'
    | Step.ends done ↦ some done
  ]

-- The protocol is unknown where the caller names none; a success promises a completion.
unfoldable pub start : Protocol → Bool → Relay
start protocol success = record {
  committed = false;
  sent = [];
  parser = new protocol (is_known protocol && success);
  has_ttfb = false;
  has_ttft = false;
}
