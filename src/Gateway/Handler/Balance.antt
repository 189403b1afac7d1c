-- ===== src/Gateway/Handler/Balance.antt =====
-- internal/gateway/handler.go, `proxy`: what a request takes it gives back, and what is logged.
use d_api.Base.{
  ℕ, ◌≡◌, refl, ap, subst, ◌⊎◌, ◌==◌, string_key, true, false, [], ◌∷◌, ◌++◌, arith, inl, inr,
  Bool-cases,
}
use d_api.Base.Maps.{lookup}
use d_api.Base.{nat_key}
use d_api.Core.{ApiKey}
use d_api.Gateway.Gate.{Limits, RequestGate, count_or_zero}
use d_api.Gateway.Gate
use d_api.Gateway.Gate.Restore.{release-acquire, refused-acquire}
use d_api.Gateway.Budget.{ByteBudget}
use d_api.Gateway.Budget
use d_api.Gateway.Rate.{allow}
use d_api.Gateway.Handler.{
  Texts, Request, Handler, reservation, with_budget, with_rate, with_gate, proxy, serve_reply,
  Credentials, KeyAnswer, AuthReply, token_of, on_answer, authenticate,
}

release-acquire_budget :
    (size limit : ℕ) (b : ByteBudget)
    → (Budget.acquire size limit b).1 ≡ true
    → Budget.release size (Budget.acquire size limit b).0 ≡ b
unfolding Budget.acquire Budget.release
release-acquire_budget size limit b h = ground (arith, h)

refused-acquire_budget :
    (size limit : ℕ) (b : ByteBudget)
    → (Budget.acquire size limit b).1 ≡ false
    → (Budget.acquire size limit b).0 ≡ b
unfolding Budget.acquire
refused-acquire_budget size limit b h = ground (arith, h)

module _ {Body : Type 0} (x : Texts Body) where
  with_budget-restores :
      (key : ApiKey) (r : Request Body) (h : Handler) → (with_budget x key r h).0 ≡ h
  unfolding with_budget
  with_budget-restores key r h =
      let size = reservation r.content_length in
      let limit = h.max_buffered_request_bytes in
      elim (Bool-cases (Budget.acquire size limit h.body_budget).1) [
        | inl taken ↦ ground (arith, taken, release-acquire_budget size limit h.body_budget taken)
        | inr full ↦ ground (arith, full, refused-acquire_budget size limit h.body_budget full)
      ]

  with_rate-restores :
      (key : ApiKey) (r : Request Body) (h : Handler)
      → (with_rate x key r h).0
        ≡ record h { rate = (allow key.id h.max_requests_per_minute r.now h.rate).0 }
  unfolding with_rate
  with_rate-restores key r h = ground (
    arith,
    with_budget-restores key r
        (record h { rate = (allow key.id h.max_requests_per_minute r.now h.rate).0 }),
  )

  with_gate-restores :
      (key : ApiKey) (r : Request Body) (h : Handler)
      → let after = (with_gate x key r h).0 in
        (after.gate.active ≡ h.gate.active)
        × ((j : ℕ)
            → count_or_zero (lookup j after.gate.by_key) ≡ count_or_zero (lookup j h.gate.by_key))
        × (after.body_budget ≡ h.body_budget)
        × (after.logs ≡ h.logs)
  unfolding with_gate
  with_gate-restores key r h = elim (Bool-cases (Gate.acquire key.id h.limits h.gate).1) [
    | inl entered ↦
        let inside : Handler = record h { gate = (Gate.acquire key.id h.limits h.gate).0 } in
        let kept = with_rate-restores key r inside in
        let back = release-acquire key.id h.limits h.gate in
        (
          ground (arith, entered, kept, back 0 entered),
          λ j. ground (arith, entered, kept, back j entered),
          ground (arith, entered, kept),
          ground (arith, entered, kept),
        )
    | inr out ↦
        let same = refused-acquire key.id h.limits h.gate out in
        (
          ground (arith, out, same),
          λ j. ground (arith, out, same),
          ground (arith, out),
          ground (arith, out),
        )
  ]

  -- The key of a request that is let in: a slot was free, the request has a token, and the repository
  -- found the key for it and the key is enabled.
  abbrev pub LetIn : Credentials → Request Body → ApiKey → Type 0
  LetIn c r key =
      (c.busy ≡ false)
      × ((token_of x (r.protocol == "messages") c.api_key c.fields == "") ≡ false)
      × (c.answer (token_of x (r.protocol == "messages") c.api_key c.fields) ≡ KeyAnswer.found key)
      × (key.enabled ≡ true)

  on_answer-LetIn :
      (a : KeyAnswer) (key : ApiKey)
      → on_answer a ≡ AuthReply.authenticated key
      → (a ≡ KeyAnswer.found key) × (key.enabled ≡ true)
  on_answer-LetIn (KeyAnswer.found k) key h = elim (Bool-cases k.enabled) [
    | inl on ↦
        let same : k ≡ key = ground (arith, on, h) in
        (ap KeyAnswer.found same, subst (λ (k : ApiKey). k.enabled ≡ true) same on)
    | inr off ↦ absurd (ground (arith, off, h))
  ]
  on_answer-LetIn KeyAnswer.unknown_key key h = absurd (cc)
  on_answer-LetIn KeyAnswer.failed key h = absurd (cc)
  on_answer-LetIn KeyAnswer.timed_out key h = absurd (cc)
  on_answer-LetIn KeyAnswer.client_gone key h = absurd (cc)

  authenticate-LetIn :
      (c : Credentials) (r : Request Body) (key : ApiKey)
      → authenticate x c.busy (r.protocol == "messages") c.api_key c.fields c.answer
        ≡ AuthReply.authenticated key
      → LetIn c r key
  unfolding authenticate
  authenticate-LetIn c r key h =
      let token = token_of x (r.protocol == "messages") c.api_key c.fields in
      elim (Bool-cases c.busy) [
        | inl busy ↦ absurd (ground (arith, busy, h))
        | inr free ↦ elim (Bool-cases (token == "")) [
          | inl missing ↦ absurd (ground (arith, free, missing, h))
          | inr some_token ↦
              let answered =
                on_answer-LetIn (c.answer token) key (ground (arith, free, some_token, h)) in
              (free, some_token, answered.0, answered.1)
        ]
      ]

  authenticate_lem :
      (c : Credentials) (r : Request Body) (key : ApiKey)
      → LetIn c r key
      → authenticate x c.busy (r.protocol == "messages") c.api_key c.fields c.answer
        ≡ AuthReply.authenticated key
  unfolding authenticate
  authenticate_lem c r key (free, given, found, on) = rw (free, given, found, on, authenticate) refl

  -- The gate's counts and the budget of bodies are as they were.
  abbrev pub Leaves : Handler → Handler → Type 0
  Leaves h after =
      (after.gate.active ≡ h.gate.active)
      × ((j : ℕ)
          → count_or_zero (lookup j after.gate.by_key) ≡ count_or_zero (lookup j h.gate.by_key))
      × (after.body_budget ≡ h.body_budget)

  -- There is one more log entry if the request is let in, and else the whole state is as it was.
  abbrev pub Recorded : Credentials → Request Body → Handler → Handler → Type 0
  Recorded c r h after =
      ((key : ApiKey) × LetIn c r key × (after.logs ≡ h.logs ++ (with_gate x key r h).1 ∷ []))
      ⊎ ((after ≡ h) × ((key : ApiKey) → LetIn c r key → ⊥))

  serve_reply-restores :
      (reply : AuthReply) (c : Credentials) (r : Request Body) (h : Handler)
      → ((key : ApiKey) → reply ≡ AuthReply.authenticated key → LetIn c r key)
      → ((key : ApiKey) → LetIn c r key → reply ≡ AuthReply.authenticated key)
      → Leaves h (serve_reply x reply r h) × Recorded c r h (serve_reply x reply r h)
  unfolding serve_reply
  serve_reply-restores (AuthReply.authenticated key) c r h auth back =
      let kept = with_gate-restores key r h in
      ((kept.0, kept.1, kept.2), inl (key, auth key refl, ground (arith, kept.3)))
  serve_reply-restores AuthReply.authentication_busy c r h auth back =
      ((refl, (λ j. refl), refl), inr (refl, λ key l. absurd (cc (back key l))))
  serve_reply-restores AuthReply.invalid_api_key c r h auth back =
      ((refl, (λ j. refl), refl), inr (refl, λ key l. absurd (cc (back key l))))
  serve_reply-restores AuthReply.request_timeout c r h auth back =
      ((refl, (λ j. refl), refl), inr (refl, λ key l. absurd (cc (back key l))))
  serve_reply-restores AuthReply.no_reply c r h auth back =
      ((refl, (λ j. refl), refl), inr (refl, λ key l. absurd (cc (back key l))))
  serve_reply-restores AuthReply.unavailable c r h auth back =
      ((refl, (λ j. refl), refl), inr (refl, λ key l. absurd (cc (back key l))))

  -- Of a request that runs alone, whatever it brings and meets: at its end the gate's counts and the
  -- budget of request bodies are what they were before it; and if it is let in then exactly one log
  -- entry is added, and if it is not then nothing of the state has changed and nothing is logged.
  pub proxy-restores :
      (c : Credentials) (r : Request Body) (h : Handler)
      → Leaves h (proxy x c r h) × Recorded c r h (proxy x c r h)
  unfolding proxy
  proxy-restores c r h =
      serve_reply-restores
        (authenticate x c.busy (r.protocol == "messages") c.api_key c.fields c.answer) c r h
        (λ key e. authenticate-LetIn c r key e) (λ key l. authenticate_lem c r key l)
