-- ===== src/Gateway/ProxyTests.antt =====
-- Requests over concrete upstreams.
use d_api.Base.{ℕ, ◌≡◌, refl, true, false, none, List, [], ◌∷◌}
use d_api.Core.{Upstream, healthy}
use d_api.Gateway.Proxy.{
  alive, expired, Err, Attempted, unreachable, response, serve, gateway_error, relayed,
  rate_limit_exceeded, try_all, round, on_error, on_retry_status, on_stream, on_buffered,
  retry_status,
}
use d_api.Gateway.Proxy.Failover.{Ends, first_loop, serve-Ends, serve_stops, ids, successes}
use d_api.Gateway.Proxy.Verdict.{serve_exhausted}

abbrev pub upstream_at : ℕ → ℕ → Upstream
upstream_at id priority = record {
  id = id;
  name = "east";
  config_version = 1;
  enabled = true;
  balance_suspended = false;
  priority = priority;
  protocols = "chat" ∷ [];
  models = [];
  model_aliases = [];
  circuit_open_until = none;
  health_status = healthy;
  consecutive_failures = 0;
}

abbrev slow : Err
slow = record {
  is_timeout = true;
  is_budget = false;
  is_client_closed = false;
  is_cancelled = false;
}

abbrev pub times_out : Attempted
times_out = record { before = alive; exchange = unreachable slow; after = alive }

abbrev is_limited_now : Attempted
is_limited_now = record {
  before = alive;
  exchange =
      response 429 (record { committed = false; error = none })
        (record { read_error = none; write_failed = false });
  after = alive;
}

abbrev pub answers : Attempted
answers = record {
  before = alive;
  exchange =
      response 200 (record { committed = true; error = none })
        (record { read_error = none; write_failed = false });
  after = alive;
}

abbrev requests : List (Upstream × Attempted)
requests =
    (upstream_at 4 1, times_out) ∷ (upstream_at 5 2, answers) ∷ (upstream_at 6 3, times_out) ∷ []

-- The first upstream times out and is marked, the second answers.
failover_run :
    let log = serve false requests alive in
    (log.reply ≡ relayed 5 200) × (ids log.attempts ≡ 4 ∷ 5 ∷ []) × (successes log.marks ≡ 5 ∷ [])
unfolding serve try_all round on_error on_retry_status on_stream on_buffered retry_status
failover_run = (refl, refl, refl)

serve-Ends_example : Ends requests (first_loop requests) (serve false requests alive)
serve-Ends_example = serve-Ends false requests alive

serve_stops_example :
    serve false
      ((upstream_at 4 1, times_out)
        ∷ (upstream_at 5 2, answers)
        ∷ (upstream_at 6 3, times_out)
        ∷ [])
      alive
    ≡ serve false ((upstream_at 4 1, times_out) ∷ (upstream_at 5 2, answers) ∷ []) expired
unfolding retry_status
serve_stops_example =
    serve_stops false ((upstream_at 4 1, times_out) ∷ []) ((upstream_at 6 3, times_out) ∷ [])
      (upstream_at 5 2) answers alive expired (refl, tt) refl

serve_exhausted_example :
    (serve false
      ((upstream_at 4 1, is_limited_now) ∷ (upstream_at 5 2, is_limited_now) ∷ [])
      alive).reply
    ≡ gateway_error 429 rate_limit_exceeded
unfolding retry_status
serve_exhausted_example =
    serve_exhausted false
      ((upstream_at 4 1, is_limited_now) ∷ (upstream_at 5 2, is_limited_now) ∷ [])
      (refl, (refl, tt))

abbrev listed : List Upstream
listed = upstream_at 1 9 ∷ upstream_at 2 3 ∷ upstream_at 3 9 ∷ []
