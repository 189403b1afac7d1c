-- ===== src/Gateway/HealthLocks/Steps.antt =====
-- internal/gateway/handler.go: each step on the health states keeps what is known of them.
use d_api.Base.{
  ℕ, ◌+◌, ◌-◌, ◌≤◌, ◌<◌, ◌≡◌, refl, subst, ap, ◌∙◌, Bool, true, false, not, ◌&&◌, Option, none,
  some, List, [], ◌∷◌, ◌++◌, arith, nat_beq, nat_key, if◌then◌else◌, All, Option-cases, Bool-cases,
  inl, inr,
}
use d_api.Base.Maps.{lookup, insert, lookup-insert, lookup-delete}
use d_api.Gateway.HealthLocks.{
  UpstreamHealthState, Health, set_state, refer, enter, set_lock, is_at, release,
}
use d_api.Gateway.HealthLocks.Threads.{
  Ticket, World, Inv, Live, at, among, at-split, among-split, All-split, is_pending, one_if,
  entering,
}

abbrev new_state : UpstreamHealthState
new_state = record { lock = false; references = 1; pending_failure = false }

abbrev made : ℕ → Health → Health
made id h = record {
  states = set_state h.next new_state h.states;
  health = insert id h.next h.health;
  next = h.next + 1;
}

made-Live :
    (id : ℕ) (h : Health) (ts : List Ticket)
    → lookup id h.health ≡ none
    → All (Live h) ts
    → All (Live (made id h)) ts
made-Live id h [] gone live = tt
made-Live id h (t ∷ ts) gone live = (
  ground (arith, gone, live.0, nat_key.same_iff id t.id, lookup-insert id t.id h.next h.health),
  made-Live id h ts gone live.1,
)

is_pending-set :
    (a : ℕ) (s : UpstreamHealthState) (h : Health) (o : Option ℕ)
    → s.pending_failure ≡ (h.states a).pending_failure
    → is_pending (record h { states = set_state a s h.states }) o ≡ is_pending h o
is_pending-set a s h none same = refl
is_pending-set a s h (some b) same = ground (arith, same, nat_key.same_iff a b)

is_pending-made :
    (id : ℕ) (h : Health) (o : Option ℕ)
    → ((b : ℕ) → o ≡ some b → b < h.next)
    → is_pending (made id h) o ≡ is_pending h o
is_pending-made id h none known = refl
is_pending-made id h (some b) known = ground (arith, known b refl, nat_key.same_iff h.next b)

enter_new-Inv :
    (id : ℕ) (w : World)
    → lookup id w.health.health ≡ none
    → Inv w
    → Inv (record w {
      health = made id w.health;
      waiting = record { id = id; addr = w.health.next } ∷ w.waiting;
    })
enter_new-Inv id w gone i =
    let next = w.health.next in
    let there = λ (j : ℕ). lookup-insert id j next w.health.health in
    record {
      waits = (
        ground (arith, there id, nat_key.same_iff id id),
        made-Live id w.health w.waiting gone i.waits,
      );
      holds = made-Live id w.health w.holding gone i.holds;
      refs = λ b. ground (arith, i.refs b, i.fresh b, nat_key.same_iff next b);
      locks = λ b. ground (arith, i.locks b, i.fresh b, nat_key.same_iff next b);
      known = λ j b h. ground (arith, h, there j, i.known j b);
      apart = λ j k b h h'. ground (
        arith,
        h,
        h',
        there j,
        there k,
        i.apart j k b,
        i.known j b,
        i.known k b,
        nat_key.same_iff id j,
        nat_key.same_iff id k,
      );
      fresh = λ b beyond. ground (arith, beyond, i.fresh b, nat_key.same_iff next b);
      used = λ j b h. ground (arith, h, there j, i.used j b, i.known j b, nat_key.same_iff next b);
      remembered = λ j. elim (Bool-cases (nat_beq id j)) [
        | inl same ↦ rw (there j) (
            rw same (
              ground (
                arith,
                same,
                gone,
                i.remembered id,
                nat_key.same_iff id j,
                nat_key.same_iff next next,
              )))
        | inr other ↦ rw (there j) (
            rw other
              (is_pending-made id w.health (lookup j w.health.health) (i.known j) ∙ i.remembered j))
      ];
    }

enter_old-Inv :
    (id a : ℕ) (w : World)
    → lookup id w.health.health ≡ some a
    → Inv w
    → Inv
        (record w { health = refer a w.health; waiting = record { id = id; addr = a } ∷ w.waiting })
enter_old-Inv id a w found i = record {
  waits = (found, i.waits);
  holds = i.holds;
  refs = λ b. ground (arith, i.refs b, i.refs a, nat_key.same_iff a b);
  locks = λ b. ground (arith, i.locks b, nat_key.same_iff a b);
  known = i.known;
  apart = i.apart;
  fresh = λ b beyond.
      ground (arith, beyond, i.fresh b beyond, i.known id a found, nat_key.same_iff a b);
  used = λ j b there. ground (arith, i.used j b there, nat_key.same_iff a b);
  remembered = λ j.
      is_pending-set a
        (record (w.health.states a) { references = (w.health.states a).references + 1 }) w.health
        (lookup j w.health.health) refl
      ∙ i.remembered j;
}

pub enter-Inv : (id : ℕ) (w : World) → Inv w → Inv (entering id w)
unfolding enter
enter-Inv id w i = elim (Option-cases (lookup id w.health.health)) [
  | inl gone ↦ rw (gone, enter) (enter_new-Inv id w gone i)
  | inr (a, found) ↦ rw (found, enter) (enter_old-Inv id a w found i)
]

pub takes-Inv :
    (xs ys : List Ticket) (t : Ticket) (w : World)
    → w.waiting ≡ xs ++ (t ∷ ys)
    → (w.health.states t.addr).lock ≡ false
    → Inv w
    → Inv (record w {
      health = set_lock true t.addr w.health;
      waiting = xs ++ ys;
      holding = t ∷ w.holding;
    })
takes-Inv xs ys t w split free i =
    let (mine, others) =
      All-split (Live w.health) t xs ys (subst (All (Live w.health)) split i.waits) in
    let count = λ (b : ℕ). ap (at b) split ∙ at-split b t xs ys in
    record {
      waits = others;
      holds = (mine, i.holds);
      refs = λ b. ground (arith, i.refs b, count b, nat_key.same_iff t.addr b);
      locks = λ b. ground (arith, i.locks b, free, nat_key.same_iff t.addr b);
      known = i.known;
      apart = i.apart;
      fresh = λ b beyond.
          ground
            (arith, i.fresh b beyond, i.known t.id t.addr mine, beyond, nat_key.same_iff t.addr b);
      used = λ j b h. ground (arith, i.used j b h, nat_key.same_iff t.addr b);
      remembered = λ j.
          is_pending-set t.addr (record (w.health.states t.addr) { lock = true }) w.health
            (lookup j w.health.health) refl
          ∙ i.remembered j;
    }

-- One reference less.
abbrev less : UpstreamHealthState → UpstreamHealthState
less s = record s { references = s.references - 1 }

-- Nothing is left to keep the state for.
abbrev is_over : UpstreamHealthState → Bool
is_over s = nat_beq (s.references - 1) 0 && not s.pending_failure

release-states :
    (id a : ℕ) (h : Health)
    → ((release id a h).states ≡ set_state a (less (h.states a)) h.states)
      × ((release id a h).next ≡ h.next)
unfolding release
release-states id a h = elim (Bool-cases (is_over (h.states a) && is_at a (lookup id h.health))) [
  | inl over ↦ rw (over, release) (refl, refl)
  | inr kept ↦ rw (kept, release) (refl, refl)
]

is_pending-release :
    (id a : ℕ) (h : Health) (o : Option ℕ) → is_pending (release id a h) o ≡ is_pending h o
is_pending-release id a h none = refl
is_pending-release id a h (some b) =
    ap (λ (f : ℕ → UpstreamHealthState). (f b).pending_failure) (release-states id a h).0
    ∙ is_pending-set a (less (h.states a)) h (some b) refl

release-lookup :
    (id a j : ℕ) (h : Health)
    → lookup id h.health ≡ some a
    → lookup j (release id a h).health
      ≡ (if is_over (h.states a) && nat_beq id j then none else lookup j h.health)
unfolding release
release-lookup id a j h found =
    ground (arith, found, nat_key.same_iff a a, nat_key.same_iff id j, lookup-delete id j h.health)

release-Live :
    (id a : ℕ) (h : Health) (ts : List Ticket)
    → lookup id h.health ≡ some a
    → at a ts ≤ (h.states a).references - 1
    → All (Live h) ts
    → All (Live (release id a h)) ts
release-Live id a h [] found few live = tt
release-Live id a h (t ∷ ts) found few live = (
  ground (
    arith,
    found,
    few,
    live.0,
    release-lookup id a t.id h found,
    nat_key.same_iff id t.id,
    nat_key.same_iff t.addr a,
  ),
  release-Live id a h ts found (ground (arith, few)) live.1,
)

release-Inv :
    (t : Ticket) (w : World) (waiting holding : List Ticket) (leaving : List ℕ)
    → lookup t.id w.health.health ≡ some t.addr
    → All (Live w.health) waiting
    → All (Live w.health) holding
    → ((b : ℕ)
        → at b w.waiting + at b w.holding ≡ at b waiting + at b holding + one_if (nat_beq t.addr b))
    → ((b : ℕ) → at b holding + among b leaving ≡ at b w.holding + among b w.leaving)
    → Inv w
    → Inv (record w {
      health = release t.id t.addr w.health;
      waiting = waiting;
      holding = holding;
      leaving = leaving;
    })
release-Inv t w waiting holding leaving found waits holds fewer same i =
    let h = w.health in
    let s = h.states t.addr in
    let (states, next) = release-states t.id t.addr h in
    let now = λ (b : ℕ). ap (λ (f : ℕ → UpstreamHealthState). f b) states in
    let there = λ (j : ℕ). release-lookup t.id t.addr j h found in
    let mine = fewer t.addr in
    record {
      waits =
          release-Live t.id t.addr h waiting found
            (ground (arith, mine, i.refs t.addr, nat_key.same_iff t.addr t.addr)) waits;
      holds =
          release-Live t.id t.addr h holding found
            (ground (arith, mine, i.refs t.addr, nat_key.same_iff t.addr t.addr)) holds;
      refs = λ b. rw (now b) (ground (arith, i.refs b, fewer b, nat_key.same_iff t.addr b));
      locks = λ b. rw (now b) (ground (arith, i.locks b, same b, nat_key.same_iff t.addr b));
      known = λ j b h'. rw next (ground (arith, h', there j, i.known j b));
      apart = λ j k b h' h''. ground (arith, h', h'', there j, there k, i.apart j k b);
      fresh = λ b beyond. rw (now b) (
          ground
            (arith, beyond, next, i.fresh b, i.known t.id t.addr found, nat_key.same_iff t.addr b));
      used = λ j b h'. rw (now b) (
          ground (
            arith,
            h',
            there j,
            i.used j b,
            i.apart t.id j b,
            found,
            nat_key.same_iff t.addr b,
            nat_key.same_iff t.id j,
          ));
      remembered = λ j. rw (there j) (elim (Bool-cases (is_over s && nat_beq t.id j)) [
        | inl gone ↦
            rw gone (ground (arith, gone, found, i.remembered t.id, nat_key.same_iff t.id j))
        | inr kept ↦ rw kept (is_pending-release t.id t.addr h (lookup j h.health) ∙ i.remembered j)
      ]);
    }

pub gives_up-Inv :
    (xs ys : List Ticket) (t : Ticket) (w : World)
    → w.waiting ≡ xs ++ (t ∷ ys)
    → Inv w
    → Inv (record w { health = release t.id t.addr w.health; waiting = xs ++ ys })
gives_up-Inv xs ys t w split i =
    let (mine, others) =
      All-split (Live w.health) t xs ys (subst (All (Live w.health)) split i.waits) in
    release-Inv t w (xs ++ ys) w.holding w.leaving mine others i.holds
      (λ b. omega (arith, ap (at b) split ∙ at-split b t xs ys)) (λ b. refl) i

pub leaves-Inv :
    (xs ys : List Ticket) (t : Ticket) (w : World)
    → w.holding ≡ xs ++ (t ∷ ys)
    → Inv w
    → Inv (record w {
      health = release t.id t.addr w.health;
      holding = xs ++ ys;
      leaving = t.addr ∷ w.leaving;
    })
leaves-Inv xs ys t w split i =
    let (mine, others) =
      All-split (Live w.health) t xs ys (subst (All (Live w.health)) split i.holds) in
    release-Inv t w w.waiting (xs ++ ys) (t.addr ∷ w.leaving) mine i.waits others
      (λ b. omega (arith, ap (at b) split ∙ at-split b t xs ys))
      (λ b. ground (arith, ap (at b) split ∙ at-split b t xs ys)) i

pub unlocks-Inv :
    (xs ys : List ℕ) (a : ℕ) (w : World)
    → w.leaving ≡ xs ++ (a ∷ ys)
    → Inv w
    → Inv (record w { health = set_lock false a w.health; leaving = xs ++ ys })
unlocks-Inv xs ys a w split i =
    let count = λ (b : ℕ). ap (among b) split ∙ among-split b a xs ys in
    record {
      waits = i.waits;
      holds = i.holds;
      refs = λ b. ground (arith, i.refs b, nat_key.same_iff a b);
      locks = λ b. ground (arith, i.locks b, count b, nat_key.same_iff a b);
      known = i.known;
      apart = i.apart;
      fresh = λ b beyond. ground (arith, i.fresh b beyond, nat_key.same_iff a b);
      used = λ j b h. ground (arith, i.used j b h, nat_key.same_iff a b);
      remembered = λ j.
          is_pending-set a (record (w.health.states a) { lock = false }) w.health
            (lookup j w.health.health) refl
          ∙ i.remembered j;
    }

-- A mark changes at most whether the state of its upstream remembers a failure.
pub marks-Inv :
    (xs ys : List Ticket) (t : Ticket) (pending : Bool) (last : ℕ → Bool) (w : World)
    → w.holding ≡ xs ++ (t ∷ ys)
    → ((j : ℕ) → last j ≡ (if nat_beq t.id j then pending else w.last_failed j))
    → Inv w
    → Inv (record w {
      health = record w.health {
        states =
            set_state t.addr
              (record (w.health.states t.addr) { pending_failure = pending })
              w.health.states;
      };
      last_failed = last;
    })
marks-Inv xs ys t pending last w split lasts i =
    let (mine, others) =
      All-split (Live w.health) t xs ys (subst (All (Live w.health)) split i.holds) in
    let count = λ (b : ℕ). ap (at b) split ∙ at-split b t xs ys in
    record {
      waits = i.waits;
      holds = i.holds;
      refs = λ b. ground (arith, i.refs b, nat_key.same_iff t.addr b);
      locks = λ b. ground (arith, i.locks b, nat_key.same_iff t.addr b);
      known = i.known;
      apart = i.apart;
      fresh = λ b beyond. ground (arith, i.fresh b beyond, nat_key.same_iff t.addr b);
      used = λ j b h. ground (arith, i.used j b h, i.refs b, count b, nat_key.same_iff t.addr b);
      remembered = λ j. elim (Option-cases (lookup j w.health.health)) [
        | inl out ↦
            rw out (ground (arith, out, lasts j, mine, i.remembered j, nat_key.same_iff t.id j))
        | inr (b, there) ↦ rw there (
            ground (
              arith,
              there,
              lasts j,
              mine,
              i.remembered j,
              i.apart t.id j b,
              nat_key.same_iff t.id j,
              nat_key.same_iff t.addr b,
            ))
      ];
    }
