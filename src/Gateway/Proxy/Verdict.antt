-- ===== src/Gateway/Proxy/Verdict.antt =====
-- What a request is told when every attempt failed over.
use d_api.Base.{
  ◌≡◌, sym, ap, ◌∙◌, inl, inr, Bool, true, false, not, ◌&&◌, List, [], ◌∷◌, arith, nat_beq,
  if◌then◌else◌, All,
}
use d_api.Core.{Upstream}
use d_api.Gateway.Proxy.{
  alive, unreachable, response, Attempted, Reply, gateway_error, rate_limit_exceeded,
  gateway_timeout, bad_gateway, Loop, continues, retry_status, on_retry_status, on_stream,
  on_buffered, on_error, round, try_all, serve, asks, give_up, is_nil,
}
use d_api.Gateway.Proxy.Failover.{fails_over, round-fails_over, is_continuing, Round-cases}

-- The upstream answered that its rate limit is reached.
abbrev pub is_limited : Attempted → Bool
is_limited a = elim a.exchange [ unreachable e ↦ false | response status s b ↦ nat_beq status 429 ]

-- The attempt timed out: the upstream said so, or the connection, the stream or the read did.
abbrev pub is_late : Bool → Attempted → Bool
is_late stream a = elim a.exchange [
  | unreachable e ↦ e.is_timeout
  | response status s b ↦
      if retry_status status
      then nat_beq status 504
      else asks (λ e. e.is_timeout) (if stream then s.error else b.read_error)
]

abbrev pub every : (Attempted → Bool) → List (Upstream × Attempted) → Bool
every p [] = true
every p ((u, a) ∷ rest) = let more = every p rest in p a && more

round-flags :
    (stream : Bool) (u : Upstream) (a : Attempted) (l l' : Loop)
    → round stream u a l ≡ continues l'
    → (l'.all_rate_limited ≡ (l.all_rate_limited && is_limited a))
      × (l'.all_timed_out ≡ (l.all_timed_out && is_late stream a))
unfolding round on_retry_status on_stream on_buffered on_error retry_status
round-flags stream u a l l' h = ground arith

-- The reply for two verdicts over all attempts.
abbrev pub verdict : Bool → Bool → Reply
verdict limited late =
    if limited
    then gateway_error 429 rate_limit_exceeded
    else (if late then gateway_error 504 gateway_timeout else gateway_error 502 bad_gateway)

try_all_exhausted :
    (stream : Bool) (upstreams : List (Upstream × Attempted)) (l : Loop)
    → All (λ (x : Upstream × Attempted). fails_over stream x.1 ≡ true) upstreams
    → (try_all stream upstreams alive l).reply
      ≡ verdict
          (l.all_rate_limited && every is_limited upstreams)
          (l.all_timed_out && every (is_late stream) upstreams)
unfolding try_all
try_all_exhausted stream [] l h = unfold give_up in ground arith
try_all_exhausted stream ((u, a) ∷ rest) l h = elim (Round-cases (round stream u a l)) [
  | inl (l', e) ↦
      let flags = round-flags stream u a l l' e in
      rw (e, try_all) (try_all_exhausted stream rest l' h.1 ∙ ground (arith, flags.0, flags.1))
  | inr (log, e) ↦ absurd (cc (h.0, sym (round-fails_over stream u a l) ∙ ap is_continuing e))
]

-- When every attempt fails over and the request is still alive, the client is told 429 if there
-- was an attempt and every one met an upstream's rate limit, 504 if there was one, not all were so,
-- and every one timed out, and 502 otherwise, also when no upstream was eligible.
pub serve_exhausted :
    (stream : Bool) (upstreams : List (Upstream × Attempted))
    → All (λ (x : Upstream × Attempted). fails_over stream x.1 ≡ true) upstreams
    → (serve stream upstreams alive).reply
      ≡ verdict
          (not (is_nil upstreams) && every is_limited upstreams)
          (not (is_nil upstreams) && every (is_late stream) upstreams)
unfolding serve
serve_exhausted stream upstreams h = try_all_exhausted stream upstreams _ h
