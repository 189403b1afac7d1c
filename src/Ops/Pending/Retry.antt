-- ===== src/Ops/Pending/Retry.antt =====
-- The queues of all upstreams, and the loop that delivers one of them again.
use d_api.Base.{
  ℕ, ◌≡◌, refl, sym, subst, ◌∙◌, inl, inr, Bool, true, false, Option, none, some, List, [], ◌∷◌,
  arith, nat_beq, nat_key, same_refl, if◌then◌else◌, Bool-cases, All,
}
use d_api.Base.Maps.{insert, delete, lookup-insert, lookup-delete}
use d_api.Ops.Pending.{
  Event, Monitor, event_eq, pending_of, add_event, set_pending, remove_first, store_events,
  ack_pending, set_all, deliver_all, is_flying, retry_pending, RetryError, in_progress,
}
use d_api.Ops.Pending.Queue.{IsQueue, add_event-IsQueue, remove_first-IsQueue}

-- What a monitor's map holds after a queue was stored.
pending_of-store :
    (id j : ℕ) (es : List Event) (m : Monitor)
    → pending_of j (store_events id es m) ≡ (if nat_beq id j then es else pending_of j m)
pending_of-store id j [] m = ground (arith, lookup-delete id j m.pending)
pending_of-store id j (e ∷ es) m = ground (arith, lookup-insert id j (e ∷ es) m.pending)

pending_of-set :
    (e : Event) (j : ℕ) (m : Monitor)
    → pending_of j (set_pending e m) ≡ (
        if nat_beq e.upstream_id j
        then add_event e (pending_of e.upstream_id m)
        else pending_of j m)
unfolding set_pending
pending_of-set e j m =
    ground
      (arith, lookup-insert e.upstream_id j (add_event e (pending_of e.upstream_id m)) m.pending)

pending_of-ack :
    (e : Event) (j : ℕ) (m : Monitor)
    → pending_of j (ack_pending e m) ≡ (
        if nat_beq e.upstream_id j
        then remove_first e (pending_of e.upstream_id m)
        else pending_of j m)
unfolding ack_pending
pending_of-ack e j m =
    pending_of-store e.upstream_id j (remove_first e (pending_of e.upstream_id m)) m

-- Every upstream's queue is well formed.
abbrev pub IsWell : Monitor → Type 0
IsWell m = (id : ℕ) → IsQueue (pending_of id m)

set_pending-IsWell : (e : Event) (m : Monitor) → IsWell m → IsWell (set_pending e m)
set_pending-IsWell e m w j =
    subst IsQueue (sym (pending_of-set e j m))
      (ground (arith, (add_event-IsQueue e (pending_of e.upstream_id m) (w e.upstream_id)).0, w j))

ack_pending-IsWell : (e : Event) (m : Monitor) → IsWell m → IsWell (ack_pending e m)
ack_pending-IsWell e m w j =
    subst IsQueue (sym (pending_of-ack e j m))
      (ground (arith, remove_first-IsQueue e (pending_of e.upstream_id m) (w e.upstream_id), w j))

set_all-IsWell : (es : List Event) (m : Monitor) → IsWell m → IsWell (set_all es m)
unfolding set_all
set_all-IsWell [] m w = w
set_all-IsWell (e ∷ es) m w = set_all-IsWell es (set_pending e m) (set_pending-IsWell e m w)

deliver_all-IsWell :
    (es : List Event) (outcomes : List (List Event × Bool)) (m : Monitor)
    → IsWell m
    → IsWell (deliver_all es outcomes m).0
unfolding deliver_all
deliver_all-IsWell [] outcomes m w = w
deliver_all-IsWell (e ∷ es) [] m w = w
deliver_all-IsWell (e ∷ es) ((queued, true) ∷ outcomes) m w =
    deliver_all-IsWell es outcomes (ack_pending e (set_all queued m))
      (ack_pending-IsWell e (set_all queued m) (set_all-IsWell queued m w))
deliver_all-IsWell (e ∷ es) ((queued, false) ∷ outcomes) m w = set_all-IsWell queued m w

-- Neither queueing nor acknowledging touches the marks of retries in progress.
set_all-in_flight : (es : List Event) (m : Monitor) → (set_all es m).in_flight ≡ m.in_flight
unfolding set_all
set_all-in_flight [] m = refl
set_all-in_flight (e ∷ es) m = set_all-in_flight es (set_pending e m) ∙ unfold set_pending in refl

ack_pending-in_flight : (e : Event) (m : Monitor) → (ack_pending e m).in_flight ≡ m.in_flight
unfolding ack_pending
ack_pending-in_flight e m = ground arith

deliver_all-in_flight :
    (es : List Event) (outcomes : List (List Event × Bool)) (m : Monitor)
    → (deliver_all es outcomes m).0.in_flight ≡ m.in_flight
unfolding deliver_all
deliver_all-in_flight [] outcomes m = refl
deliver_all-in_flight (e ∷ es) [] m = refl
deliver_all-in_flight (e ∷ es) ((queued, true) ∷ outcomes) m =
    deliver_all-in_flight es outcomes (ack_pending e (set_all queued m))
    ∙ ack_pending-in_flight e (set_all queued m)
    ∙ set_all-in_flight queued m
deliver_all-in_flight (e ∷ es) ((queued, false) ∷ outcomes) m = set_all-in_flight queued m

retry_pending_cases {ℓ} :
    (P : Monitor × Option RetryError → Type ℓ) (has_notifier : Bool) (id : ℕ)
    (outcomes : List (List Event × Bool)) (m : Monitor)
    → ((err : Option RetryError) → P (m, err))
    → ((e : Event) (es : List Event)
        → pending_of id m ≡ e ∷ es
        → is_flying id m ≡ false
        → let begun = record m { in_flight = insert id true m.in_flight } in
          let done = deliver_all (e ∷ es) outcomes begun in
          P (record (done.0) { in_flight = delete id done.0.in_flight }, done.1))
    → P (retry_pending has_notifier id outcomes m)
unfolding retry_pending
retry_pending_cases P false id outcomes m same begins = same none
retry_pending_cases P true id outcomes m same begins = elim (Bool-cases (is_flying id m)) [
  | inl busy ↦ rw (busy, retry_pending) (same (some in_progress))
  | inr free ↦ go (pending_of id m) refl free
]
  where
    go :
        (x : List Event)
        → pending_of id m ≡ x
        → is_flying id m ≡ false
        → P (retry_pending true id outcomes m)
    go [] e f = rw (f, e, retry_pending) (same none)
    go (y ∷ ys) e f = rw (f, e, retry_pending) (begins y ys e f)

-- Whatever is queued while the deliveries run and however they end, a retry leaves every queue
-- well formed: at most sixteen events, no two of one type.
pub retry_pending-IsWell :
    (has_notifier : Bool) (id : ℕ) (outcomes : List (List Event × Bool)) (m : Monitor)
    → IsWell m
    → IsWell (retry_pending has_notifier id outcomes m).0
retry_pending-IsWell b id outcomes m w =
    retry_pending_cases (λ r. IsWell r.0) b id outcomes m (λ err. w)
      λ e es q f. deliver_all-IsWell (e ∷ es) outcomes _ w

-- A retry never leaves its mark behind: when it is over, also after a delivery that failed, the
-- upstream counts as being retried exactly if another retry was running when it was asked for.
pub retry_pending-is_flying :
    (has_notifier : Bool) (id : ℕ) (outcomes : List (List Event × Bool)) (m : Monitor)
    → is_flying id (retry_pending has_notifier id outcomes m).0 ≡ is_flying id m
retry_pending-is_flying b id outcomes m =
    retry_pending_cases (λ r. is_flying id r.0 ≡ is_flying id m) b id outcomes m (λ err. refl)
      λ e es q f.
        let begun = record m { in_flight = insert id true m.in_flight } in
        let done = deliver_all (e ∷ es) outcomes begun in
        ground (arith, lookup-delete id id done.0.in_flight)

-- All deliveries succeed, and nothing is queued meanwhile.
abbrev pub all_delivered : List Event → List (List Event × Bool)
all_delivered [] = []
all_delivered (e ∷ es) = ([], true) ∷ all_delivered es

remove_first_head : (e : Event) (es : List Event) → remove_first e (e ∷ es) ≡ es
unfolding remove_first
remove_first_head e es = ground (arith, same_refl e)

deliver_all-empties :
    (id : ℕ) (es : List Event) (m : Monitor)
    → All (λ (e : Event). e.upstream_id ≡ id) es
    → pending_of id m ≡ es
    → (pending_of id (deliver_all es (all_delivered es) m).0 ≡ [])
      × ((deliver_all es (all_delivered es) m).1 ≡ none)
unfolding deliver_all set_all
deliver_all-empties id [] m a h = (h, refl)
deliver_all-empties id (e ∷ es) m a h =
    deliver_all-empties id es (ack_pending e m) a.1
      (ground (arith, a.0, pending_of-ack e id m, h, remove_first_head e es))

-- A retry whose deliveries all succeed while nothing is queued empties the upstream's queue, whose
-- events are all of that upstream, and returns no error.
pub retry_pending-empties :
    (id : ℕ) (es : List Event) (m : Monitor)
    → pending_of id m ≡ es
    → All (λ (e : Event). e.upstream_id ≡ id) es
    → is_flying id m ≡ false
    → (pending_of id (retry_pending true id (all_delivered es) m).0 ≡ [])
      × ((retry_pending true id (all_delivered es) m).1 ≡ none)
unfolding retry_pending
retry_pending-empties id [] m q a f = rw (f, q, retry_pending) (q, refl)
retry_pending-empties id (e ∷ es) m q a f =
    rw (f, q, retry_pending)
      (deliver_all-empties id (e ∷ es) (record m { in_flight = insert id true m.in_flight }) a q)
