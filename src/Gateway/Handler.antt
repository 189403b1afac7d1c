-- ===== src/Gateway/Handler.antt =====
-- internal/gateway/handler.go: `authenticate` and `proxy`, from the key to the end of a request that
-- runs alone.
-- What the network, the client and the repository do is given by a `Request`, the text functions of
-- the standard library and the JSON decoding by `Texts`.
pub mod Balance
pub mod Routes
use d_api.Base.{
  ℕ, ◌*◌, String, Bool, true, false, not, ◌&&◌, ◌||◌, Option, none, some, List, [], ◌∷◌, ◌++◌, ltb,
  nat_beq, max, if◌then◌else◌, ◌==◌, string_key, map,
}
use d_api.Core.{ApiKey, Upstream, allows}
use d_api.Core.Routing.{eligible}
use d_api.Gateway.Gate.{Limits, RequestGate}
use d_api.Gateway.Gate
use d_api.Gateway.Rate.{RequestRateLimiter, allow}
use d_api.Gateway.Budget.{ByteBudget, max_body_bytes}
use d_api.Gateway.Budget
use d_api.Gateway.Proxy.{Attempted, ContextState, Log, serve}

pub record Payload : Type 0 where
  pub model : String
  pub stream : Bool

pub record Texts (Body : Type 0) : Type 0 where
  pub trim_space : String → String
  pub has_nul : String → Bool
  pub equal_fold : String → String → Bool
  pub parse : Body → Option Payload

pub data AuthReply : Type 0 where
  authentication_busy invalid_api_key request_timeout no_reply unavailable : AuthReply
  authenticated : ApiKey → AuthReply

-- What `Authenticate` and the context bring.
pub data KeyAnswer : Type 0 where
  found : ApiKey → KeyAnswer
  unknown_key failed timed_out client_gone : KeyAnswer

-- The token of the headers: `fields` are those of `Authorization`.
unfoldable pub token_of : {Body : Type 0} → Texts Body → Bool → String → List String → String
token_of x messages api_key fields =
    let own = if messages then x.trim_space api_key else "" in
    if not (own == "") then own else elim fields [
      | kind ∷ token ∷ [] ↦ if x.equal_fold kind "Bearer" then token else ""
      | _ ↦ ""
    ]

abbrev pub on_answer : KeyAnswer → AuthReply
on_answer (KeyAnswer.found key) =
    if key.enabled then AuthReply.authenticated key else AuthReply.invalid_api_key
on_answer KeyAnswer.unknown_key = AuthReply.invalid_api_key
on_answer KeyAnswer.failed = AuthReply.unavailable
on_answer KeyAnswer.timed_out = AuthReply.request_timeout
on_answer KeyAnswer.client_gone = AuthReply.no_reply

-- `busy` says that no slot of `authSlots` is free; a slot that is taken is free again at the end.
unfoldable pub authenticate :
    {Body : Type 0}
    → Texts Body
    → Bool
    → Bool
    → String
    → List String
    → (String → KeyAnswer)
    → AuthReply
authenticate x busy messages api_key fields answer =
    if busy
    then AuthReply.authentication_busy
    else (let token = token_of x messages api_key fields in
        if token == "" then AuthReply.invalid_api_key else on_answer (answer token))

-- Why a request is refused before any upstream is tried.
pub data Refusal : Type 0 where
  concurrency_limited rate_limited body_budget_exceeded : Refusal
  invalid_body body_timeout invalid_request permission_denied internal_error : Refusal
  client_closed request_timeout : Refusal

unfoldable pub status_code : Refusal → ℕ
status_code Refusal.concurrency_limited = 429
status_code Refusal.rate_limited = 429
status_code Refusal.body_budget_exceeded = 429
status_code Refusal.invalid_body = 400
status_code Refusal.body_timeout = 504
status_code Refusal.invalid_request = 400
status_code Refusal.permission_denied = 403
status_code Refusal.internal_error = 500
status_code Refusal.client_closed = 499
status_code Refusal.request_timeout = 504

-- What is logged of a request.
pub data Entry : Type 0 where
  refused : Refusal → Entry
  routed : Log → Entry

pub data BodyRead (Body : Type 0) : Type 0 where
  whole : Body → BodyRead Body
  broken : Bool → BodyRead Body

-- An answer of the repository, or an error with the state of the context then.
pub data Answer (A : Type 0) : Type 0 where
  answer : A → Answer A
  error : ContextState → Answer A

-- `now` is the time of the rate limit, `route_time` that of the choice of the upstreams.
pub record Request (Body : Type 0) : Type 0 where
  pub protocol : String
  pub now : ℕ
  pub content_length : ℕ
  pub body : BodyRead Body
  pub max_attempts : Answer ℕ
  pub candidates : Answer (List Upstream)
  pub route_time : ℕ
  pub meets : Upstream → Attempted
  pub last : ContextState

-- What a request is authenticated by, and what the repository answers to its token.
pub record Credentials : Type 0 where
  pub busy : Bool
  pub api_key : String
  pub fields : List String
  pub answer : String → KeyAnswer

pub record Handler : Type 0 where
  pub limits : Limits
  pub max_requests_per_minute : ℕ
  pub max_buffered_request_bytes : ℕ
  pub gate : RequestGate
  pub rate : RequestRateLimiter
  pub body_budget : ByteBudget
  pub logs : List Entry

-- An unknown length, written 0 here, counts as the largest body.
unfoldable pub reservation : ℕ → ℕ
reservation content_length =
    let body_size =
      if nat_beq content_length 0 || ltb max_body_bytes content_length
      then max_body_bytes
      else content_length in
    max body_size 1 * 8

abbrev pub ended_or : Refusal → ContextState → Refusal
ended_or r ContextState.alive = r
ended_or r ContextState.cancelled = Refusal.client_closed
ended_or r ContextState.expired = Refusal.request_timeout

module _ {Body : Type 0} (x : Texts Body) where
  -- The choice of the upstreams and the loop over them, by the repository's answers.
  unfoldable pub route : Request Body → Payload → Answer ℕ → Answer (List Upstream) → Entry
  route r payload (Answer.error ctx) us = Entry.refused (ended_or Refusal.internal_error ctx)
  route r payload (Answer.answer attempts) (Answer.error ctx) =
      Entry.refused (ended_or Refusal.internal_error ctx)
  route r payload (Answer.answer attempts) (Answer.answer us) = Entry.routed (
      serve payload.stream
        (map (λ u. (u, r.meets u))
          (eligible us r.protocol (x.trim_space payload.model) r.route_time attempts))
        r.last)

  unfoldable pub check_payload : ApiKey → Request Body → Option Payload → Entry
  check_payload key r none = Entry.refused Refusal.invalid_request
  check_payload key r (some payload) =
      let model = x.trim_space payload.model in
      if model == "" || x.has_nul payload.model
      then Entry.refused Refusal.invalid_request
      else (if not (allows key r.protocol model)
          then Entry.refused Refusal.permission_denied
          else route r payload r.max_attempts r.candidates)

  unfoldable pub read_body : ApiKey → Request Body → BodyRead Body → Entry
  read_body key r (BodyRead.broken timeout) =
      Entry.refused (if timeout then Refusal.body_timeout else Refusal.invalid_body)
  read_body key r (BodyRead.whole body) = check_payload key r (x.parse body)

  -- The body is read while its reservation is held.
  unfoldable pub with_budget : ApiKey → Request Body → Handler → Handler × Entry
  with_budget key r h =
      let reserved = reservation r.content_length in
      let taken = Budget.acquire reserved h.max_buffered_request_bytes h.body_budget in
      if not taken.1
      then (record h { body_budget = taken.0 }, Entry.refused Refusal.body_budget_exceeded)
      else (record h { body_budget = Budget.release reserved taken.0 }, read_body key r r.body)

  -- The request passes the rate limiter while it holds its place in the gate.
  unfoldable pub with_rate : ApiKey → Request Body → Handler → Handler × Entry
  with_rate key r h =
      let limited = allow key.id h.max_requests_per_minute r.now h.rate in
      let h' : Handler = record h { rate = limited.0 } in
      if not limited.1 then (h', Entry.refused Refusal.rate_limited) else with_budget key r h'

  unfoldable pub with_gate : ApiKey → Request Body → Handler → Handler × Entry
  with_gate key r h =
      let entered = Gate.acquire key.id h.limits h.gate in
      if not entered.1
      then (record h { gate = entered.0 }, Entry.refused Refusal.concurrency_limited)
      else (let inside = with_rate key r (record h { gate = entered.0 }) in
          (record inside.0 { gate = Gate.release key.id inside.0.gate }, inside.1))

  -- After `authenticate`: nothing is recorded of a request that it refuses, and the deferred `record`
  -- logs any other.
  unfoldable pub serve_reply : AuthReply → Request Body → Handler → Handler
  serve_reply (AuthReply.authenticated key) r h =
      let served = with_gate key r h in record served.0 { logs = served.0.logs ++ served.1 ∷ [] }
  serve_reply AuthReply.authentication_busy r h = h
  serve_reply AuthReply.invalid_api_key r h = h
  serve_reply AuthReply.request_timeout r h = h
  serve_reply AuthReply.no_reply r h = h
  serve_reply AuthReply.unavailable r h = h

  unfoldable pub proxy : Credentials → Request Body → Handler → Handler
  proxy c r h =
      serve_reply (authenticate x c.busy (r.protocol == "messages") c.api_key c.fields c.answer) r h
