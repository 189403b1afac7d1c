-- ===== src/Gateway/HealthLocks/Order.antt =====
-- internal/gateway/handler.go: what holds of the health states however the requests interleave.
use d_api.Base.{
  ℕ, suc, ◌≤◌, ◌≡◌, ◌≢◌, ◌↔◌, refl, subst, ap, Bool, true, false, not, ◌&&◌, ◌||◌, none, some, List,
  [], ◌∷◌, ◌++◌, arith, nat_beq, nat_key, if◌then◌else◌, All, Option-cases, Bool-cases, inl, inr,
}
use d_api.Base.Maps.{lookup}
use d_api.Core.{Upstream}
use d_api.Gateway.HealthLocks.{
  Health, Written, set_state, after_mark, mark_success, mark_failure, needs_success_write,
}
use d_api.Gateway.HealthLocks.Threads.{
  Ticket, World, Step, Inv, Live, at, All-split, succeeding, failing, noted,
}
use d_api.Gateway.HealthLocks.Steps.{
  enter-Inv, takes-Inv, gives_up-Inv, leaves-Inv, unlocks-Inv, marks-Inv,
}

-- No request is under way and no state is kept.
abbrev pub idle : World
idle = record {
  health = record {
    states = λ a. record { lock = false; references = 0; pending_failure = false };
    health = [];
    next = 0;
  };
  waiting = [];
  holding = [];
  leaving = [];
  last_failed = λ id. false;
}

pub data Reach : World → Type 0 where
  starts : Reach idle
  steps : (w w' : World) → Reach w → Step w w' → Reach w'

-- Who holds the lock of an upstream finds there whether its last mark was a failure.
held_pending :
    (xs ys : List Ticket) (t : Ticket) (w : World)
    → w.holding ≡ xs ++ (t ∷ ys)
    → Inv w
    → (w.health.states t.addr).pending_failure ≡ w.last_failed t.id
held_pending xs ys t w split i =
    let (mine, others) =
      All-split (Live w.health) t xs ys (subst (All (Live w.health)) split i.holds) in
    ground (arith, mine, i.remembered t.id)

unmarked-Inv :
    (xs ys : List Ticket) (t : Ticket) (w : World)
    → w.holding ≡ xs ++ (t ∷ ys)
    → Inv w
    → Inv (record w {
      health = record w.health {
        states = set_state t.addr (w.health.states t.addr) w.health.states;
      };
    })
unmarked-Inv xs ys t w split i =
    marks-Inv xs ys t (w.health.states t.addr).pending_failure w.last_failed w split
      (λ j. ground (arith, held_pending xs ys t w split i, nat_key.same_iff t.id j)) i

failing-Inv :
    (xs ys : List Ticket) (t : Ticket) (answer : Written) (w : World)
    → w.holding ≡ xs ++ (t ∷ ys)
    → Inv w
    → Inv (failing answer t w)
unfolding mark_failure
failing-Inv xs ys t Written.accepted w split i =
    marks-Inv xs ys t true (noted Written.accepted true t.id w.last_failed) w split (λ j. refl) i
failing-Inv xs ys t Written.config_changed w split i = unmarked-Inv xs ys t w split i
failing-Inv xs ys t Written.broken w split i = unmarked-Inv xs ys t w split i

abbrev skips : Upstream → Bool → Bool
skips u pending = not (needs_success_write u) && not pending

written-Inv :
    (xs ys : List Ticket) (t : Ticket) (answer : Written) (w : World)
    → w.holding ≡ xs ++ (t ∷ ys)
    → Inv w
    → Inv (record w {
      health = record w.health {
        states =
            set_state t.addr (after_mark false answer (w.health.states t.addr)) w.health.states;
      };
      last_failed = noted answer false t.id w.last_failed;
    })
written-Inv xs ys t Written.accepted w split i =
    marks-Inv xs ys t false (noted Written.accepted false t.id w.last_failed) w split (λ j. refl) i
written-Inv xs ys t Written.config_changed w split i = unmarked-Inv xs ys t w split i
written-Inv xs ys t Written.broken w split i = unmarked-Inv xs ys t w split i

succeeding-Inv :
    (xs ys : List Ticket) (t : Ticket) (u : Upstream) (answer : Written) (w : World)
    → w.holding ≡ xs ++ (t ∷ ys)
    → Inv w
    → Inv (succeeding u answer t w)
unfolding mark_success
succeeding-Inv xs ys t u answer w split i =
    elim (Bool-cases (skips u (w.health.states t.addr).pending_failure)) [
      | inl skipped ↦ rw (skipped, mark_success) (unmarked-Inv xs ys t w split i)
      | inr written ↦ rw (written, mark_success) (written-Inv xs ys t answer w split i)
    ]

Step-Inv : (w w' : World) → Step w w' → Inv w → Inv w'
Step-Inv _ _ (Step.enters id w) i = enter-Inv id w i
Step-Inv _ _ (Step.takes xs ys t w split free) i = takes-Inv xs ys t w split free i
Step-Inv _ _ (Step.gives_up xs ys t w split) i = gives_up-Inv xs ys t w split i
Step-Inv _ _ (Step.succeeds xs ys t u answer w split same) i =
    succeeding-Inv xs ys t u answer w split i
Step-Inv _ _ (Step.fails xs ys t answer w split) i = failing-Inv xs ys t answer w split i
Step-Inv _ _ (Step.leaves xs ys t w split) i = leaves-Inv xs ys t w split i
Step-Inv _ _ (Step.unlocks xs ys a w split) i = unlocks-Inv xs ys a w split i

idle-Inv : Inv idle
unfolding lookup
idle-Inv = record {
  waits = tt;
  holds = tt;
  refs = λ a. refl;
  locks = λ a. refl;
  known = λ id a h. absurd cc;
  apart = λ id id' a h h'. absurd cc;
  fresh = λ a h. (refl, refl);
  used = λ id a h. absurd cc;
  remembered = λ id. refl;
}

Reach-Inv : (w : World) → Reach w → Inv w
Reach-Inv _ Reach.starts = idle-Inv
Reach-Inv _ (Reach.steps before w r s) = Step-Inv before w s (Reach-Inv before r)

-- How many of the requests are at work on an upstream.
abbrev pub working : ℕ → List Ticket → ℕ
working id [] = 0
working id (t ∷ ts) = let rest = working id ts in if nat_beq t.id id then suc rest else rest

working-le :
    (id a : ℕ) (h : Health) (ts : List Ticket)
    → lookup id h.health ≡ some a
    → All (Live h) ts
    → working id ts ≤ at a ts
working-le id a h [] found live = omega arith
working-le id a h (t ∷ ts) found live = ground (
  arith,
  found,
  live.0,
  working-le id a h ts found live.1,
  nat_key.same_iff t.id id,
  nat_key.same_iff t.addr a,
)

working_zero :
    (id : ℕ) (h : Health) (ts : List Ticket)
    → lookup id h.health ≡ none
    → All (Live h) ts
    → working id ts ≡ 0
working_zero id h [] gone live = refl
working_zero id h (t ∷ ts) gone live =
    ground (arith, gone, live.0, working_zero id h ts gone live.1, nat_key.same_iff t.id id)

-- However requests enter, wait, give up, mark and leave, at most one at a time marks an upstream.
pub Reach-one : (w : World) (id : ℕ) → Reach w → working id w.holding ≤ 1
Reach-one w id r =
    let i = Reach-Inv w r in
    elim (Option-cases (lookup id w.health.health)) [
      | inl gone ↦ omega (arith, working_zero id w.health w.holding gone i.holds)
      | inr (a, found) ↦ ground (arith, working-le id a w.health w.holding found i.holds, i.locks a)
    ]

-- A request that holds the lock of an upstream writes a success exactly if its own view of the upstream
-- asks for it or the last mark that the repository took for it from here was a failure: a success
-- after a failure is never left out, however old the view is.
pub Reach-mark_success :
    (w : World) (xs ys : List Ticket) (t : Ticket) (u : Upstream) (answer : Written)
    → Reach w
    → w.holding ≡ xs ++ (t ∷ ys)
    → (mark_success u answer (w.health.states t.addr)).1
      ≡ (needs_success_write u || w.last_failed t.id)
unfolding mark_success
Reach-mark_success w xs ys t u answer r split =
    ground (arith, held_pending xs ys t w split (Reach-Inv w r))

-- While no request marks or waits to mark, a state is kept for exactly the upstreams whose last mark
-- was a failure.
pub Reach_at_rest :
    (w : World) (id : ℕ)
    → Reach w
    → w.waiting ≡ []
    → w.holding ≡ []
    → (lookup id w.health.health ≢ none) ↔ (w.last_failed id ≡ true)
Reach_at_rest w id r none_waits none_holds =
    let i = Reach-Inv w r in
    elim (Option-cases (lookup id w.health.health)) [
      | inl gone ↦ ground (arith, gone, i.remembered id)
      | inr (a, found) ↦ ground (
        arith,
        found,
        i.remembered id,
        i.used id a found,
        i.refs a,
        ap (at a) none_waits,
        ap (at a) none_holds,
      )
    ]
