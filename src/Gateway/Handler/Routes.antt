-- ===== src/Gateway/Handler/Routes.antt =====
-- internal/gateway/handler.go, `proxy`: which upstreams a request may reach.
use d_api.Base.{
  ℕ, ◌≡◌, ◌≤◌, refl, ap, subst, String, Bool, true, string_key, List, [], ◌∷◌, arith, Option, none,
  some, map, length, take, All, All-take, ◌∙◌, zero, suc, length-take,
}
use d_api.Core.{ApiKey, Upstream, allows, supports}
use d_api.Core.Routing.{eligible, eligible_lem, eligible-Among, Among, IsSorted, IsSorted-take}
use d_api.Gateway.Proxy.{Attempted, ContextState, Log, serve}
use d_api.Gateway.Proxy.Failover.{ids, tried_ids, serve-Ends}
use d_api.Gateway.Handler.{
  Texts, Payload, Request, Handler, Entry, Answer, BodyRead, check_payload, read_body, route,
  with_budget, with_rate, with_gate,
}

-- Upstreams that may be tried: candidates that support the request, in the order of priority, and at
-- most five.
abbrev pub CanTry : List Upstream → String → String → ℕ → List Upstream → Type 0
CanTry candidates protocol model now us =
    All (λ u. Among u candidates) us
    × All (λ u. supports u protocol model now ≡ true) us
    × IsSorted us
    × (length us ≤ 5)

CanTry-take :
    (candidates : List Upstream) (protocol model : String) (now k : ℕ) (us : List Upstream)
    → CanTry candidates protocol model now us
    → CanTry candidates protocol model now (take k us)
CanTry-take candidates protocol model now k us (among, good, sorted, short) = (
  All-take _ k us among,
  All-take _ k us good,
  IsSorted-take k us sorted,
  omega (arith, short, length-take k us),
)

tried_of_take :
    (meets : Upstream → Attempted) (k : ℕ) (us : List Upstream)
    → take k (tried_ids (map (λ u. (u, meets u)) us)) ≡ map (λ u. u.id) (take k us)
tried_of_take meets zero us = refl
tried_of_take meets (suc k) [] = refl
tried_of_take meets (suc k) (u ∷ us) = ap (◌∷◌ u.id) (tried_of_take meets k us)

-- The ids are those of upstreams that may be tried, in their order.
abbrev pub Tries : List Upstream → String → String → ℕ → List ℕ → Type 0
Tries candidates protocol model now tried =
    (us : List Upstream) × (tried ≡ map (λ u. u.id) us) × CanTry candidates protocol model now us

serve-Tries :
    (stream : Bool) (protocol model : String) (now n : ℕ) (meets : Upstream → Attempted)
    (us : List Upstream) (last : ContextState)
    → let log = serve stream (map (λ u. (u, meets u)) (eligible us protocol model now n)) last in
      Tries us protocol model now (ids log.attempts)
serve-Tries stream protocol model now n meets us last =
    let best = eligible us protocol model now n in
    let (supported, sorted, short, most) = eligible_lem us protocol model now n in
    let ends = serve-Ends stream (map (λ u. (u, meets u)) best) last in
    (
      take ends.0.0 best,
      ends.0.1 ∙ tried_of_take meets ends.0.0 best,
      CanTry-take us protocol model now ends.0.0 best
          (eligible-Among us protocol model now n, supported, sorted, omega (arith, short, most)),
    )

module _ {Body : Type 0} (x : Texts Body) where
  -- What is known of a request that was routed.
  abbrev pub Routed : ApiKey → Request Body → Log → Type 0
  Routed key r log =
      (body : Body) × (payload : Payload) × (candidates : List Upstream) × (r.body
        ≡ BodyRead.whole body)
      × (x.parse body ≡ some payload)
      × (allows key r.protocol (x.trim_space payload.model) ≡ true)
      × (r.candidates ≡ Answer.answer candidates)
      × Tries candidates r.protocol (x.trim_space payload.model) r.route_time (ids log.attempts)

  route-Tries :
      (r : Request Body) (payload : Payload) (attempts : Answer ℕ) (us : Answer (List Upstream))
      (log : Log)
      → route x r payload attempts us ≡ Entry.routed log
      → (candidates : List Upstream) × (us ≡ Answer.answer candidates)
        × Tries candidates r.protocol (x.trim_space payload.model) r.route_time (ids log.attempts)
  unfolding route
  route-Tries r payload (Answer.error ctx) us log h = absurd (cc)
  route-Tries r payload (Answer.answer n) (Answer.error ctx) log h = absurd (cc)
  route-Tries r payload (Answer.answer n) (Answer.answer us) log h =
      let model = x.trim_space payload.model in
      let upstreams = map (λ u. (u, r.meets u)) (eligible us r.protocol model r.route_time n) in
      let same : serve payload.stream upstreams r.last ≡ log = cc h in
      (
        us,
        refl,
        subst (λ (l : Log). Tries us r.protocol model r.route_time (ids l.attempts)) same
            (serve-Tries payload.stream r.protocol model r.route_time n r.meets us r.last),
      )

  check_payload-Routed :
      (key : ApiKey) (r : Request Body) (parsed : Option Payload) (log : Log)
      → check_payload x key r parsed ≡ Entry.routed log
      → (payload : Payload) × (parsed ≡ some payload)
        × (allows key r.protocol (x.trim_space payload.model) ≡ true)
        × (route x r payload r.max_attempts r.candidates ≡ Entry.routed log)
  unfolding check_payload
  check_payload-Routed key r none log h = absurd (cc)
  check_payload-Routed key r (some payload) log h =
      (payload, refl, ground (arith, h), ground (arith, h))

  with_gate-entry :
      (key : ApiKey) (r : Request Body) (h : Handler) (log : Log)
      → (with_gate x key r h).1 ≡ Entry.routed log
      → read_body x key r r.body ≡ Entry.routed log
  unfolding with_gate with_rate with_budget
  with_gate-entry key r h log e = ground (arith, e)

  read_body-Routed :
      (key : ApiKey) (r : Request Body) (read : BodyRead Body) (log : Log)
      → read_body x key r read ≡ Entry.routed log
      → (body : Body) × (read ≡ BodyRead.whole body)
        × (check_payload x key r (x.parse body) ≡ Entry.routed log)
  unfolding read_body
  read_body-Routed key r (BodyRead.broken timeout) log h = absurd (ground (arith, h))
  read_body-Routed key r (BodyRead.whole body) log h = (body, refl, h)

  -- A request that is routed had a body that parses and a model that the key allows; and the
  -- upstreams tried for it are among the candidates that the repository answered, support its
  -- protocol and model at that time, were tried in the order of priority, and are at most five.
  pub with_gate-Routed :
      (key : ApiKey) (r : Request Body) (h : Handler) (log : Log)
      → (with_gate x key r h).1 ≡ Entry.routed log
      → Routed key r log
  with_gate-Routed key r h log e =
      let (body, whole, checked) =
        read_body-Routed key r r.body log (with_gate-entry key r h log e) in
      let (payload, parsed, allowed, routed) =
        check_payload-Routed key r (x.parse body) log checked in
      let (candidates, answered, tries) =
        route-Tries r payload r.max_attempts r.candidates log routed in
      (body, payload, candidates, whole, parsed, allowed, answered, tries)
