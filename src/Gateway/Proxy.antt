-- ===== src/Gateway/Proxy.antt =====
-- internal/gateway/handler.go, `proxy`: the loop that tries the eligible upstreams in turn, from
-- `allRateLimited, allTimedOut := ...` to the end. What the network does is given for each
-- attempt: the error before a response, or the response with what its relaying or reading brings,
-- and the state of the request's context when the handler looks at it.
pub mod Failover
pub mod Verdict
use d_api.Base.{
  ℕ, ◌+◌, String, Bool, true, false, not, ◌&&◌, ◌||◌, Option, none, some, List, [], ◌∷◌, ◌++◌, leb,
  nat_beq, if◌then◌else◌,
}
use d_api.Core.{Upstream}

-- `requestCtx.Err()`: nil, `context.Canceled` or `context.DeadlineExceeded`.
pub data ContextState : Type 0 where
  alive cancelled expired : ContextState

-- An error, by the answers of `isTimeout` and of `errors.Is` for the errors that matter.
pub record Err : Type 0 where
  pub is_timeout : Bool
  pub is_budget : Bool
  pub is_client_closed : Bool
  pub is_cancelled : Bool

-- The outcome of `relayStreamWithMetrics`, and of reading the whole body and writing it on.
pub record Streamed : Type 0 where
  pub committed : Bool
  pub error : Option Err

pub record Buffered : Type 0 where
  pub read_error : Option Err
  pub write_failed : Bool

-- One attempt: an error before any response, or a status with what follows.
pub data Exchange : Type 0 where
  unreachable : Err → Exchange
  response : ℕ → Streamed → Buffered → Exchange

pub record Attempted : Type 0 where
  pub before : ContextState
  pub exchange : Exchange
  pub after : ContextState

pub data FailureClass : Type 0 where
  gateway client upstream : FailureClass

-- `core.Attempt`, without its durations; `failed` says that an error text is set.
pub record Attempt : Type 0 where
  pub upstream_id : ℕ
  pub status_code : Option ℕ
  pub failed : Bool
  pub failure_class : Option FailureClass

pub data Code : Type 0 where
  no_error client_closed request_timeout stream_interrupted response_budget_exceeded : Code
  rate_limit_exceeded gateway_timeout bad_gateway : Code

-- The calls of `markFailure` (with its status) and `markSuccess`.
pub data Mark : Type 0 where
  failure : ℕ → ℕ → Mark
  success : ℕ → Mark

-- What the client gets: nothing, an error of the gateway, or an upstream's response.
pub data Reply : Type 0 where
  nothing : Reply
  gateway_error : ℕ → Code → Reply
  relayed : ℕ → ℕ → Reply

pub record Log : Type 0 where
  pub attempts : List Attempt
  pub marks : List Mark
  pub upstream_id : Option ℕ
  pub status_code : ℕ
  pub error_code : Code
  pub reply : Reply

pub record Loop : Type 0 where
  pub all_rate_limited : Bool
  pub all_timed_out : Bool
  pub attempts : List Attempt
  pub marks : List Mark

-- The end of one round: the next upstream is tried, or the handler returns.
pub data Round : Type 0 where
  continues : Loop → Round
  returns : Log → Round

unfoldable pub retry_status : ℕ → Bool
retry_status s = nat_beq s 401 || (nat_beq s 403 || (nat_beq s 404 || (nat_beq s 429 || leb 500 s)))

unfoldable pub counts_as_upstream_failure : ℕ → Bool
counts_as_upstream_failure s = nat_beq s 401 || leb 500 s

abbrev pub is_alive : ContextState → Bool
is_alive alive = true
is_alive _ = false

-- resources.go, `failureClass`.
unfoldable pub failure_class : ContextState → Err → FailureClass
failure_class expired e = gateway
failure_class cancelled e = if e.is_budget then gateway else client
failure_class alive e =
    if e.is_budget then gateway else (if e.is_client_closed then client else upstream)

abbrev pub end_log : Loop → ℕ → Code → Reply → Log
end_log l status code reply = record {
  attempts = l.attempts;
  marks = l.marks;
  upstream_id = none;
  status_code = status;
  error_code = code;
  reply = reply;
}

-- `requestEnded` and the like: an expired request gets an answer, one that the client left does not.
abbrev pub ended : Loop → ContextState → Log
ended l expired = end_log l 504 request_timeout (gateway_error 504 request_timeout)
ended l _ = end_log l 499 client_closed nothing

abbrev pub add_attempt : Attempt → Loop → Loop
add_attempt a l = record l { attempts = l.attempts ++ a ∷ [] }

abbrev pub add_mark : Mark → Loop → Loop
add_mark m l = record l { marks = l.marks ++ m ∷ [] }

abbrev pub class_of : ContextState → Option Err → Option FailureClass
class_of ctx none = none
class_of ctx (some e) = some (failure_class ctx e)

abbrev pub is_some : Option Err → Bool
is_some none = false
is_some (some e) = true

abbrev pub asks : (Err → Bool) → Option Err → Bool
asks f none = false
asks f (some e) = f e

abbrev pub clear_rate : Option Err → Loop → Loop
clear_rate e l = record l {
  all_rate_limited = false;
  all_timed_out = l.all_timed_out && asks (λ x. x.is_timeout) e;
}

-- The branch `if retryStatus(response.StatusCode)`.
unfoldable pub on_retry_status : Upstream → ℕ → Loop → Round
on_retry_status u status l =
    let counted =
      record (add_attempt
        (record {
          upstream_id = u.id;
          status_code = some status;
          failed = true;
          failure_class = none;
        })
        l) {
          all_rate_limited = l.all_rate_limited && nat_beq status 429;
          all_timed_out = l.all_timed_out && nat_beq status 504;
        } in
    continues (
      if counts_as_upstream_failure status then add_mark (failure u.id status) counted else counted)

-- The branch `if payload.Stream`.
unfoldable pub on_stream : Upstream → ℕ → Streamed → ContextState → Loop → Round
on_stream u status s ctx l =
    let tried =
      add_attempt
        (record {
          upstream_id = u.id;
          status_code = some status;
          failed = is_some s.error;
          failure_class = class_of ctx s.error;
        })
        l in
    let interrupted =
      is_some s.error && (is_alive ctx && not (asks (λ e. e.is_client_closed) s.error)) in
    let marked =
      if interrupted
      then add_mark (failure u.id status) tried
      else (if is_some s.error then tried else add_mark (success u.id) tried) in
    let code =
      if interrupted
      then stream_interrupted
      else (if is_some s.error
          then elim ctx [ expired ↦ request_timeout | _ ↦ client_closed ]
          else no_error) in
    let gone =
      not (is_alive ctx)
      || (asks (λ e. e.is_cancelled) s.error || asks (λ e. e.is_client_closed) s.error) in
    if s.committed
    then returns
        (record (end_log marked status code (relayed u.id status)) { upstream_id = some u.id })
    else (if gone
        then returns (ended tried ctx)
        else continues (clear_rate s.error (add_mark (failure u.id 0) tried)))

-- The end of a round whose attempt failed with no status to retry on.
unfoldable pub on_error : Upstream → Option ℕ → Err → ContextState → Loop → Round
on_error u status e ctx l =
    let tried = clear_rate (some e) (
      add_attempt
        (record {
          upstream_id = u.id;
          status_code = status;
          failed = true;
          failure_class = some (failure_class ctx e);
        })
        l) in
    if not (is_alive ctx)
    then returns (ended tried ctx)
    else (if e.is_budget
        then returns (
            end_log tried 503 response_budget_exceeded (gateway_error 503 response_budget_exceeded))
        else continues (add_mark (failure u.id 0) tried))

-- The branch that reads the whole response: a success is marked, then the response is written.
unfoldable pub on_buffered : Upstream → ℕ → Buffered → ContextState → Loop → Round
unfolding on_error
on_buffered u status b ctx l = elim b.read_error [
  | some e ↦ on_error u (some status) e ctx l
  | none ↦
      let tried = add_mark (success u.id) (
        add_attempt
          (record {
            upstream_id = u.id;
            status_code = some status;
            failed = false;
            failure_class = none;
          })
          l) in
      returns (
        if not (is_alive ctx)
        then record (ended tried ctx) { upstream_id = some u.id }
        else record (end_log tried status (if b.write_failed then client_closed else no_error)
            (relayed u.id status)) { upstream_id = some u.id })
]

-- One round of `for _, upstream := range eligible`.
unfoldable pub round : Bool → Upstream → Attempted → Loop → Round
unfolding on_retry_status on_stream on_buffered on_error
round stream u a l =
    if not (is_alive a.before) then returns (ended l a.before) else elim a.exchange [
      | unreachable e ↦ on_error u none e a.after l
      | response status s b ↦
          if retry_status status
          then on_retry_status u status l
          else (if stream then on_stream u status s a.after l else on_buffered u status b a.after l)
    ]

-- What is answered when no upstream is left.
unfoldable pub give_up : ContextState → Loop → Log
give_up ctx l =
    if not (is_alive ctx)
    then ended l ctx
    else (if l.all_rate_limited
        then end_log l 429 rate_limit_exceeded (gateway_error 429 rate_limit_exceeded)
        else (if l.all_timed_out
            then end_log l 504 gateway_timeout (gateway_error 504 gateway_timeout)
            else end_log l 502 bad_gateway (gateway_error 502 bad_gateway)))

-- The loop over the upstreams, each with what its attempt meets, and the context at the end.
unfoldable pub try_all : Bool → List (Upstream × Attempted) → ContextState → Loop → Log
unfolding give_up
try_all stream [] last l = give_up last l
try_all stream ((u, a) ∷ rest) last l = elim (round stream u a l) [
  | returns log ↦ log
  | continues l' ↦ try_all stream rest last l'
]

abbrev pub is_nil : List (Upstream × Attempted) → Bool
is_nil [] = true
is_nil (_ ∷ _) = false

unfoldable pub serve : Bool → List (Upstream × Attempted) → ContextState → Log
unfolding try_all
serve stream upstreams last = try_all stream upstreams last (record {
  all_rate_limited = not (is_nil upstreams);
  all_timed_out = not (is_nil upstreams);
  attempts = [];
  marks = [];
})
