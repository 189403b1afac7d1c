-- ===== src/Gateway/Proxy/Failover.antt =====
-- Which upstreams a request tries, and where it stops.
use mathlib.Core.List.{append_assoc, append-nil}
use d_api.Base.{
  ℕ, suc, ◌≡◌, refl, sym, subst, ap, ◌∙◌, ◌⊎◌, inl, inr, Bool, true, false, not, ◌&&◌, ◌||◌, Option,
  none, some, List, [], ◌∷◌, ◌++◌, arith, if◌then◌else◌, take, Bool-cases, Option-cases, All,
}
use d_api.Core.{Upstream}
use d_api.Gateway.Proxy.{
  ContextState, alive, cancelled, expired, Err, Streamed, Buffered, Exchange, unreachable, response,
  Attempted, Attempt, Mark, failure, success, Log, Loop, Round, continues, returns, retry_status,
  on_retry_status, on_stream, on_buffered, on_error, round, try_all, serve, is_alive, asks, ended,
  give_up, is_nil,
}

-- Whether an attempt leads to the next upstream, by what it meets alone.
abbrev pub fails_over : Bool → Attempted → Bool
fails_over stream a = is_alive a.before && (elim a.exchange [
  | unreachable e ↦ is_alive a.after && not e.is_budget
  | response status s b ↦
      if retry_status status
      then true
      else (if stream
          then not s.committed
            && (is_alive a.after
                && not
                    (asks (λ e. e.is_cancelled) s.error || asks (λ e. e.is_client_closed) s.error))
          else (elim b.read_error [ none ↦ false | some e ↦ is_alive a.after && not e.is_budget ]))
])

abbrev pub is_continuing : Round → Bool
is_continuing (continues l) = true
is_continuing (returns log) = false

-- A round goes on exactly when its attempt fails over.
pub round-fails_over :
    (stream : Bool) (u : Upstream) (a : Attempted) (l : Loop)
    → is_continuing (round stream u a l) ≡ fails_over stream a
unfolding round on_retry_status on_stream on_buffered on_error
round-fails_over stream u a l = ground arith

abbrev pub ids : List Attempt → List ℕ
ids [] = []
ids (a ∷ rest) = a.upstream_id ∷ ids rest

abbrev pub tried_ids : List (Upstream × Attempted) → List ℕ
tried_ids [] = []
tried_ids ((u, a) ∷ rest) = u.id ∷ tried_ids rest

ids-append : (xs : List Attempt) (a : Attempt) → ids (xs ++ a ∷ []) ≡ ids xs ++ a.upstream_id ∷ []
ids-append [] a = refl
ids-append (x ∷ xs) a = ap (◌∷◌ x.upstream_id) (ids-append xs a)

-- The successes among the marks.
abbrev pub successes : List Mark → List ℕ
successes [] = []
successes (success u ∷ ms) = u ∷ successes ms
successes (failure u s ∷ ms) = successes ms

successes-append_failure :
    (ms : List Mark) (u s : ℕ) → successes (ms ++ failure u s ∷ []) ≡ successes ms
successes-append_failure [] u s = refl
successes-append_failure (success v ∷ ms) u s = ap (◌∷◌ v) (successes-append_failure ms u s)
successes-append_failure (failure v t ∷ ms) u s = successes-append_failure ms u s

successes-append_success :
    (ms : List Mark) (u : ℕ) → successes (ms ++ success u ∷ []) ≡ successes ms ++ u ∷ []
successes-append_success [] u = refl
successes-append_success (success v ∷ ms) u = ap (◌∷◌ v) (successes-append_success ms u)
successes-append_success (failure v t ∷ ms) u = successes-append_success ms u

-- What a round adds: its attempt, and a success only of its own upstream, whose response is the one
-- that is relayed; a round that goes on marks no success.
abbrev pub Adds : Upstream → Loop → Round → Type 0
Adds u l (continues l') =
    (ids l'.attempts ≡ ids l.attempts ++ u.id ∷ []) × (successes l'.marks ≡ successes l.marks)
Adds u l (returns log) =
    (ids log.attempts ≡ ids l.attempts ++ u.id ∷ [])
    × ((successes log.marks ≡ successes l.marks)
        ⊎ ((successes log.marks ≡ successes l.marks ++ u.id ∷ []) × (log.upstream_id ≡ some u.id)))

on_retry_status-Adds :
    (u : Upstream) (status : ℕ) (l : Loop) → Adds u l (on_retry_status u status l)
unfolding on_retry_status
on_retry_status-Adds u status l = grind (arith, ids-append, successes-append_failure)

on_error-Adds :
    (u : Upstream) (s : Option ℕ) (e : Err) (ctx : ContextState) (l : Loop)
    → Adds u l (on_error u s e ctx l)
unfolding on_error
on_error-Adds u s e ctx l = grind (arith, ids-append, successes-append_failure)

on_stream-Adds :
    (u : Upstream) (status : ℕ) (s : Streamed) (ctx : ContextState) (l : Loop)
    → Adds u l (on_stream u status s ctx l)
unfolding on_stream
on_stream-Adds u status s ctx l =
    grind (arith, ids-append, successes-append_failure, successes-append_success)

on_buffered-Adds :
    (u : Upstream) (status : ℕ) (b : Buffered) (ctx : ContextState) (l : Loop)
    → Adds u l (on_buffered u status b ctx l)
unfolding on_buffered
on_buffered-Adds u status b ctx l = elim (Option-cases b.read_error) [
  | inl e ↦ rw (e, on_buffered) (grind (arith, ids-append, successes-append_success))
  | inr (x, e) ↦ rw (e, on_buffered) (on_error-Adds u (some status) x ctx l)
]

response-Adds :
    (stream : Bool) (u : Upstream) (status : ℕ) (s : Streamed) (b : Buffered) (ctx : ContextState)
    (l : Loop)
    → Adds u l (
        if retry_status status
        then on_retry_status u status l
        else (if stream then on_stream u status s ctx l else on_buffered u status b ctx l))
response-Adds stream u status s b ctx l = elim (Bool-cases (retry_status status)) [
  | inl e ↦ rw e (on_retry_status-Adds u status l)
  | inr e ↦ elim (Bool-cases stream) [
    | inl f ↦ rw (e, f) (on_stream-Adds u status s ctx l)
    | inr f ↦ rw (e, f) (on_buffered-Adds u status b ctx l)
  ]
]

exchange-Adds :
    (stream : Bool) (u : Upstream) (x : Exchange) (before after : ContextState) (l : Loop)
    → is_alive before ≡ true
    → Adds u l (round stream u (record { before = before; exchange = x; after = after }) l)
unfolding round
exchange-Adds stream u (unreachable e) before after l h = rw h (on_error-Adds u none e after l)
exchange-Adds stream u (response status s b) before after l h =
    rw h (response-Adds stream u status s b after l)

round-Adds :
    (stream : Bool) (u : Upstream) (a : Attempted) (l : Loop)
    → is_alive a.before ≡ true
    → Adds u l (round stream u a l)
round-Adds stream u a l h = exchange-Adds stream u a.exchange a.before a.after l h

-- What a request's log has at the end: the attempts on the first upstreams, in their order, and at
-- most one success, of the upstream that the log names.
abbrev pub Ends : List (Upstream × Attempted) → Loop → Log → Type 0
Ends upstreams l log =
    ((k : ℕ) × (ids log.attempts ≡ ids l.attempts ++ take k (tried_ids upstreams)))
    × ((successes log.marks ≡ successes l.marks)
        ⊎ ((id : ℕ) × (successes log.marks ≡ successes l.marks ++ id ∷ [])
            × (log.upstream_id ≡ some id)))

Ends-returns :
    (u : Upstream) (a : Attempted) (rest : List (Upstream × Attempted)) (l : Loop) (log : Log)
    → Adds u l (returns log)
    → Ends ((u, a) ∷ rest) l log
Ends-returns u a rest l log (e, inl s) = ((1, e), inl s)
Ends-returns u a rest l log (e, inr (s, named)) = ((1, e), inr (u.id, s, named))

Ends-continues :
    (u : Upstream) (a : Attempted) (rest : List (Upstream × Attempted)) (l l' : Loop) (log : Log)
    → Adds u l (continues l')
    → Ends rest l' log
    → Ends ((u, a) ∷ rest) l log
Ends-continues u a rest l l' log (e, s) ((k, more), marked) = (
  (
    suc k,
    more
        ∙ ap (λ x. x ++ take k (tried_ids rest)) e
        ∙ append_assoc (ids l.attempts) (u.id ∷ []) (take k (tried_ids rest)),
  ),
  ground (arith, marked),
)

ended-Ends :
    (ctx : ContextState) (upstreams : List (Upstream × Attempted)) (l : Loop)
    → Ends upstreams l (ended l ctx)
ended-Ends alive upstreams l = ((0, sym (append-nil (ids l.attempts))), inl refl)
ended-Ends cancelled upstreams l = ((0, sym (append-nil (ids l.attempts))), inl refl)
ended-Ends expired upstreams l = ((0, sym (append-nil (ids l.attempts))), inl refl)

round_over :
    (stream : Bool) (u : Upstream) (a : Attempted) (l : Loop)
    → is_alive a.before ≡ false
    → round stream u a l ≡ returns (ended l a.before)
unfolding round
round_over stream u a l h = rw h

give_up-Ends : (ctx : ContextState) (l : Loop) → Ends [] l (give_up ctx l)
unfolding give_up
give_up-Ends ctx l = ((0, ground (arith, append-nil (ids l.attempts))), inl (ground arith))

pub Round-cases : (r : Round) → ((l : Loop) × (r ≡ continues l)) ⊎ ((log : Log) × (r ≡ returns log))
Round-cases (continues l) = inl (l, refl)
Round-cases (returns log) = inr (log, refl)

try_all-Ends :
    (stream : Bool) (upstreams : List (Upstream × Attempted)) (last : ContextState) (l : Loop)
    → Ends upstreams l (try_all stream upstreams last l)
unfolding try_all
try_all-Ends stream [] last l = give_up-Ends last l
try_all-Ends stream ((u, a) ∷ rest) last l = elim (Bool-cases (is_alive a.before)) [
  | inr over ↦ rw (round_over stream u a l over, try_all) (ended-Ends a.before ((u, a) ∷ rest) l)
  | inl on ↦ elim (Round-cases (round stream u a l)) [
    | inl (l', e) ↦
        rw (e, try_all)
          (Ends-continues u a rest l l' (try_all stream rest last l')
            (subst (Adds u l) e (round-Adds stream u a l on)) (try_all-Ends stream rest last l'))
    | inr (log, e) ↦
        rw (e, try_all)
          (Ends-returns u a rest l log (subst (Adds u l) e (round-Adds stream u a l on)))
  ]
]

abbrev pub first_loop : List (Upstream × Attempted) → Loop
first_loop upstreams = record {
  all_rate_limited = not (is_nil upstreams);
  all_timed_out = not (is_nil upstreams);
  attempts = [];
  marks = [];
}

-- Whatever the network and the client do, a request's attempts are on the first of its upstreams,
-- each tried once and in their order, and at most one upstream is marked successful: the one that
-- the log names.
pub serve-Ends :
    (stream : Bool) (upstreams : List (Upstream × Attempted)) (last : ContextState)
    → Ends upstreams (first_loop upstreams) (serve stream upstreams last)
unfolding serve
serve-Ends stream upstreams last = try_all-Ends stream upstreams last (first_loop upstreams)

try_all_stops :
    (stream : Bool) (before after : List (Upstream × Attempted)) (u : Upstream) (a : Attempted)
    (last last' : ContextState) (l : Loop)
    → All (λ (x : Upstream × Attempted). fails_over stream x.1 ≡ true) before
    → fails_over stream a ≡ false
    → try_all stream (before ++ (u, a) ∷ after) last l
      ≡ try_all stream (before ++ (u, a) ∷ []) last' l
unfolding try_all
try_all_stops stream [] after u a last last' l h stop = elim (Round-cases (round stream u a l)) [
  | inl (l', e) ↦ absurd (cc (stop, sym (round-fails_over stream u a l) ∙ ap is_continuing e))
  | inr (log, e) ↦ rw (e, try_all)
]
try_all_stops stream ((v, b) ∷ before) after u a last last' l h stop =
    elim (Round-cases (round stream v b l)) [
      | inl (l', e) ↦ rw (e, try_all) (try_all_stops stream before after u a last last' l' h.1 stop)
      | inr (log, e) ↦ rw (e, try_all)
    ]

-- The first upstream whose attempt does not fail over decides: what stands after it, and the state
-- of the request when the loop would end, change nothing of the log, the marks or the answer.
pub serve_stops :
    (stream : Bool) (before after : List (Upstream × Attempted)) (u : Upstream) (a : Attempted)
    (last last' : ContextState)
    → All (λ (x : Upstream × Attempted). fails_over stream x.1 ≡ true) before
    → fails_over stream a ≡ false
    → serve stream (before ++ (u, a) ∷ after) last ≡ serve stream (before ++ (u, a) ∷ []) last'
unfolding serve
serve_stops stream [] after u a last last' h stop =
    try_all_stops stream [] after u a last last' _ h stop
serve_stops stream (x ∷ before) after u a last last' h stop =
    try_all_stops stream (x ∷ before) after u a last last' _ h stop
