-- ===== src/Gateway/HandlerTests.antt =====
-- Whole requests and relayed streams on small inputs.
use d_api.Base.{
  ℕ, ◌≡◌, ◌≢◌, refl, if◌then◌else◌, String, true, false, none, some, List, [], ◌∷◌, ◌++◌, ◌==◌,
  string_key, nat_key,
}
use d_api.Base.Maps.{lookup, insert, delete, retain}
use d_api.Core.{ApiKey, Upstream, allows, contains, supports}
use d_api.Core.Routing.{eligible, sort_by_priority, insert_by_priority, clamp_attempts}
use d_api.Gateway.Rate.{allow, current, cleanup}
use d_api.Gateway.Budget
use d_api.Gateway.Gate
use d_api.Gateway.Gate.{count_or_zero}
use d_api.Gateway.Proxy.{ContextState, Attempted, Log, serve}
use d_api.Gateway.ProxyTests.{answers, times_out, upstream_at}
use d_api.Gateway.Handler.{
  Texts, Request, Handler, Answer, BodyRead, proxy, with_gate, with_rate, with_budget, reservation,
  read_body, check_payload, route, Credentials, KeyAnswer, serve_reply, authenticate, token_of,
}
use d_api.Gateway.Handler.Balance.{Leaves, Recorded, proxy-restores}
use d_api.Gateway.Handler.Routes.{Routed, with_gate-Routed}
use d_api.Gateway.Usage.{responses, no_usage, normalize_usage_for_protocol}
use d_api.Gateway.Sse.{
  feed, split_line, end_line, append, parse_line, dispatch, new, stream_error, parser_usage,
}
use d_api.Gateway.Sse.Chunks.{concat}
use d_api.Gateway.StreamTests.{typed, first_half, second_half}
use d_api.Gateway.Relay.{
  Relayed, Ending, RelayError, Event, relay, start, verdict, on_event, on_chunk, commit, at_end,
}
use d_api.Gateway.Relay.Copies.{stream, taken, received, relay_copies, relay-sends}

relay_copies_example :
    let whole =
      feed typed (concat (first_half ∷ [] ∷ []) ++ second_half) (start responses true).parser in
    (done : Relayed) × (relay typed
        (stream (first_half ∷ [] ∷ []) second_half)
        (start responses true)
      ≡ some done)
    × (done.committed ≡ true)
    × (done.sent ≡ concat (first_half ∷ [] ∷ []) ++ second_half)
    × (done.usage ≡ parser_usage whole)
    × (done.error ≡ verdict (stream_error whole))
relay_copies_example = relay_copies typed (first_half ∷ [] ∷ []) second_half responses true refl

-- The client goes away while the chunk of the second read is written.
abbrev leaves : List Event
leaves =
    taken (10 ∷ []) Ending.open_still
    ∷ Event.read (record {
      content = 11 ∷ 12 ∷ [];
      ending = Ending.open_still;
      deadline_fails = false;
      write_fails = true;
      accepted = 1;
      flush_fails = false;
    })
    ∷ []

abbrev left : Relayed
left = record {
  committed = true;
  sent = 10 ∷ 11 ∷ [];
  usage = no_usage;
  has_ttfb = true;
  has_ttft = false;
  error = some RelayError.client_closed;
}

relay-sends_example :
    ((unsent : List ℕ) × (received leaves ≡ left.sent ++ unsent))
    × (left.committed ≡ false → (left.sent ≡ []) × (left.error ≢ none))
unfolding relay on_event on_chunk start new commit feed at_end parser_usage
    normalize_usage_for_protocol split_line end_line append parse_line dispatch
relay-sends_example = relay-sends typed leaves (start responses true) left (λ _. refl) refl

-- A body is its model's name.
abbrev texts : Texts String
texts = record {
  trim_space = λ s. s;
  has_nul = λ s. false;
  equal_fold = λ a b. a == b;
  parse = λ body. some (record { model = body; stream = false });
}

abbrev alice : ApiKey
alice = record { id = 1; group_id = 3; enabled = true; protocols = []; models = [] }

abbrev meets : Upstream → Attempted
meets u = if u.id == 4 then times_out else answers

abbrev ask : Request String
ask = record {
  protocol = "chat";
  now = 5;
  content_length = 100;
  body = BodyRead.whole "m";
  max_attempts = Answer.answer 3;
  candidates = Answer.answer (upstream_at 4 1 ∷ upstream_at 5 2 ∷ []);
  route_time = 6;
  meets = meets;
  last = ContextState.alive;
}

abbrev quiet : Handler
quiet = record {
  limits = record { max_concurrent_requests = 10; max_concurrent_per_key = 2 };
  max_requests_per_minute = 60;
  max_buffered_request_bytes = 1000000;
  gate = record { active = 1; by_key = (1, 1) ∷ [] };
  rate = record { entries = []; last_cleanup = 0 };
  body_budget = record { used = 100 };
  logs = [];
}

abbrev with_key : Credentials
with_key = record {
  busy = false;
  api_key = "";
  fields = "Bearer" ∷ "k1" ∷ [];
  answer = λ token. if token == "k1" then KeyAnswer.found alice else KeyAnswer.unknown_key;
}

proxy-restores_example :
    Leaves texts quiet (proxy texts with_key ask quiet)
    × Recorded texts with_key ask quiet (proxy texts with_key ask quiet)
proxy-restores_example = proxy-restores texts with_key ask quiet

-- That request is let in and logged; without its key nothing changes.
abbrev without_key : Credentials
without_key = record with_key { fields = [] }

proxy_refused : proxy texts without_key ask quiet ≡ quiet
unfolding proxy serve_reply authenticate token_of
proxy_refused = refl

-- The log of that request.
abbrev served : Log
served =
    serve false ((upstream_at 4 1, times_out) ∷ (upstream_at 5 2, answers) ∷ []) ContextState.alive

with_gate-Routed_example : Routed texts alice ask served
unfolding with_gate Gate.acquire Gate.release lookup insert delete retain with_rate allow current
    cleanup with_budget Budget.acquire Budget.release reservation read_body check_payload allows
    contains route eligible sort_by_priority insert_by_priority clamp_attempts supports
with_gate-Routed_example = with_gate-Routed texts alice ask quiet served refl
