-- ===== src/Gateway/HealthLocks/Threads.antt =====
-- internal/gateway/handler.go: requests that mark upstreams at the same time. One waits for the lock
-- of a state, holds it, or has released the state but not yet its lock.
use d_api.Base.{
  ℕ, suc, ◌+◌, ◌≤◌, ◌<◌, ◌≡◌, Bool, true, false, ◌||◌, Option, none, some, List, [], ◌∷◌, ◌++◌,
  arith, nat_beq, ltb, nat_key, if◌then◌else◌, All,
}
use d_api.Base.Maps.{lookup}
use d_api.Core.{Upstream}
use d_api.Gateway.HealthLocks.{
  Health, Written, set_state, enter, set_lock, release, mark_success, mark_failure,
}

-- A reference to the state at `addr` for the upstream `id`.
pub record Ticket : Type 0 where
  pub id : ℕ
  pub addr : ℕ

-- `last_failed` says of an upstream whether the last mark that the repository took was a failure.
pub record World : Type 0 where
  pub health : Health
  pub waiting : List Ticket
  pub holding : List Ticket
  pub leaving : List ℕ
  pub last_failed : ℕ → Bool

abbrev pub entering : ℕ → World → World
entering id w =
    let entered = enter id w.health in
    record w { health = entered.0; waiting = record { id = id; addr = entered.1 } ∷ w.waiting }

abbrev pub noted : Written → Bool → ℕ → (ℕ → Bool) → ℕ → Bool
noted Written.accepted failure id last j = if nat_beq id j then failure else last j
noted Written.config_changed failure id last j = last j
noted Written.broken failure id last j = last j

abbrev pub called : Bool → Written → Written
called true answer = answer
called false answer = Written.broken

abbrev pub succeeding : Upstream → Written → Ticket → World → World
succeeding u answer t w =
    let marked = mark_success u answer (w.health.states t.addr) in
    record w {
      health = record w.health { states = set_state t.addr marked.0 w.health.states };
      last_failed = noted (called marked.1 answer) false t.id w.last_failed;
    }

abbrev pub failing : Written → Ticket → World → World
failing answer t w = record w {
  health = record w.health {
    states = set_state t.addr (mark_failure answer (w.health.states t.addr)) w.health.states;
  };
  last_failed = noted answer true t.id w.last_failed;
}

pub data Step : World → World → Type 0 where
  enters : (id : ℕ) (w : World) → Step w (entering id w)
  takes :
      (xs ys : List Ticket) (t : Ticket) (w : World)
      → w.waiting ≡ xs ++ (t ∷ ys)
      → (w.health.states t.addr).lock ≡ false
      → Step w (record w {
        health = set_lock true t.addr w.health;
        waiting = xs ++ ys;
        holding = t ∷ w.holding;
      })
  gives_up :
      (xs ys : List Ticket) (t : Ticket) (w : World)
      → w.waiting ≡ xs ++ (t ∷ ys)
      → Step w (record w { health = release t.id t.addr w.health; waiting = xs ++ ys })
  succeeds :
      (xs ys : List Ticket) (t : Ticket) (u : Upstream) (answer : Written) (w : World)
      → w.holding ≡ xs ++ (t ∷ ys)
      → u.id ≡ t.id
      → Step w (succeeding u answer t w)
  fails :
      (xs ys : List Ticket) (t : Ticket) (answer : Written) (w : World)
      → w.holding ≡ xs ++ (t ∷ ys)
      → Step w (failing answer t w)
  leaves :
      (xs ys : List Ticket) (t : Ticket) (w : World)
      → w.holding ≡ xs ++ (t ∷ ys)
      → Step w (record w {
        health = release t.id t.addr w.health;
        holding = xs ++ ys;
        leaving = t.addr ∷ w.leaving;
      })
  unlocks :
      (xs ys : List ℕ) (a : ℕ) (w : World)
      → w.leaving ≡ xs ++ (a ∷ ys)
      → Step w (record w { health = set_lock false a w.health; leaving = xs ++ ys })

abbrev pub at : ℕ → List Ticket → ℕ
at a [] = 0
at a (t ∷ ts) = let rest = at a ts in if nat_beq t.addr a then suc rest else rest

abbrev pub among : ℕ → List ℕ → ℕ
among a [] = 0
among a (b ∷ bs) = let rest = among a bs in if nat_beq b a then suc rest else rest

abbrev pub Live : Health → Ticket → Type 0
Live h t = lookup t.id h.health ≡ some t.addr

abbrev pub one_if : Bool → ℕ
one_if true = 1
one_if false = 0

abbrev pub is_pending : Health → Option ℕ → Bool
is_pending h none = false
is_pending h (some a) = (h.states a).pending_failure

-- Every reference is counted and its state is the one in the map; a lock is taken once; a state is in
-- the map under one upstream, and only while it is referred to or remembers a failure.
pub record Inv (w : World) : Type 0 where
  pub waits : All (Live w.health) w.waiting
  pub holds : All (Live w.health) w.holding
  pub refs : (a : ℕ) → (w.health.states a).references ≡ at a w.waiting + at a w.holding
  pub locks : (a : ℕ) → at a w.holding + among a w.leaving ≡ one_if (w.health.states a).lock
  pub known : (id a : ℕ) → lookup id w.health.health ≡ some a → a < w.health.next
  pub apart :
      (id id' a : ℕ)
      → lookup id w.health.health ≡ some a
      → lookup id' w.health.health ≡ some a
      → id ≡ id'
  pub fresh :
      (a : ℕ)
      → w.health.next ≤ a
      → ((w.health.states a).references ≡ 0) × ((w.health.states a).lock ≡ false)
  pub used :
      (id a : ℕ)
      → lookup id w.health.health ≡ some a
      → (ltb 0 (w.health.states a).references || (w.health.states a).pending_failure) ≡ true
  pub remembered : (id : ℕ) → is_pending w.health (lookup id w.health.health) ≡ w.last_failed id

pub at-split :
    (a : ℕ) (t : Ticket) (xs ys : List Ticket)
    → at a (xs ++ (t ∷ ys)) ≡ at a (xs ++ ys) + one_if (nat_beq t.addr a)
at-split a t [] ys = ground arith
at-split a t (x ∷ xs) ys = ground (arith, at-split a t xs ys)

pub among-split :
    (a b : ℕ) (xs ys : List ℕ)
    → among a (xs ++ (b ∷ ys)) ≡ among a (xs ++ ys) + one_if (nat_beq b a)
among-split a b [] ys = ground arith
among-split a b (x ∷ xs) ys = ground (arith, among-split a b xs ys)

pub All-split :
    (P : Ticket → Type 0) (t : Ticket) (xs ys : List Ticket)
    → All P (xs ++ (t ∷ ys))
    → P t × All P (xs ++ ys)
All-split P t [] ys h = h
All-split P t (x ∷ xs) ys h = let later = All-split P t xs ys h.1 in (later.0, (h.0, later.1))
