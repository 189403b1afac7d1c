-- ===== src/Ops/Pending/Queue.antt =====
-- One upstream's queue: at most sixteen events, no two of one type.
use text.Mathlib.TextEquality.{eq_iff}
use d_api.Base.{
  ℕ, zero, suc, ◌+◌, ◌-◌, ◌≤◌, ◌<◌, ◌≡◌, refl, sym, subst, ◌≢◌, ap, ◌∙◌, ◌⊎◌, inl, inr, String,
  Bool, true, false, ◌||◌, Option, none, some, List, [], ◌∷◌, ◌++◌, arith, ◌==◌, string_key,
  same_refl, if◌then◌else◌, length, length-append, length-drop, drop, Bool-cases, Option-cases,
}
use d_api.Ops.Pending.{
  Event, event_eq, event_beq_iff, max_pending_events_per_upstream, replace_kind, push, add_event,
  remove_first,
}

abbrev pub has_kind : String → List Event → Bool
has_kind k [] = false
has_kind k (x ∷ xs) = let rest = has_kind k xs in if x.kind == k then true else rest

-- The event of a type that the queue holds.
abbrev pub event_of_kind : String → List Event → Option Event
event_of_kind k [] = none
event_of_kind k (x ∷ xs) = let rest = event_of_kind k xs in if x.kind == k then some x else rest

abbrev pub IsDistinct : List Event → Type 0
IsDistinct [] = Unit
IsDistinct (x ∷ xs) = (has_kind x.kind xs ≡ false) × IsDistinct xs

pub record IsQueue (es : List Event) : Type 0 where
  pub bounded : length es ≤ max_pending_events_per_upstream
  pub distinct : IsDistinct es

replace_kind-none :
    (e : Event) (es : List Event) → replace_kind e es ≡ none → has_kind e.kind es ≡ false
unfolding replace_kind
replace_kind-none e [] h = refl
replace_kind-none e (x ∷ xs) h = ground (arith, replace_kind-none e xs)

-- A replacement keeps the length, the types and all other events.
record Replaced (e : Event) (es ys : List Event) : Type 0 where
  same_length : length ys ≡ length es
  same_kinds : (k : String) → has_kind k ys ≡ has_kind k es
  events : (k : String) → event_of_kind k ys ≡ (if e.kind == k then some e else event_of_kind k es)

replace_kind-some :
    (e : Event) (es ys : List Event) → replace_kind e es ≡ some ys → Replaced e es ys
unfolding replace_kind
replace_kind-some e [] ys h = absurd (cc)
replace_kind-some e (x ∷ xs) ys h = elim (Bool-cases (x.kind == e.kind)) [
  | inl hit ↦ record {
    same_length = ground arith;
    same_kinds = λ k. ground (arith, eq_iff x.kind e.kind);
    events = λ k. ground (arith, eq_iff x.kind e.kind, eq_iff x.kind k, eq_iff e.kind k);
  }
  | inr miss ↦ elim (Option-cases (replace_kind e xs)) [
    | inl missing ↦ absurd (ground arith)
    | inr (zs, found) ↦
        let rest = replace_kind-some e xs zs found in
        record {
          same_length = ground (arith, rest.same_length);
          same_kinds = λ k. ground (arith, rest.same_kinds k);
          events = λ k.
              ground (arith, rest.events k, eq_iff x.kind e.kind, eq_iff x.kind k, eq_iff e.kind k);
        }
  ]
]

replace_kind-IsDistinct :
    (e : Event) (es ys : List Event) → replace_kind e es ≡ some ys → IsDistinct es → IsDistinct ys
unfolding replace_kind
replace_kind-IsDistinct e [] ys h d = absurd (cc)
replace_kind-IsDistinct e (x ∷ xs) ys h d = elim (Bool-cases (x.kind == e.kind)) [
  | inl hit ↦ ground (arith, eq_iff x.kind e.kind)
  | inr miss ↦ elim (Option-cases (replace_kind e xs)) [
    | inl missing ↦ absurd (ground arith)
    | inr (zs, found) ↦ ground (
      arith,
      replace_kind-IsDistinct e xs zs found d.1,
      (replace_kind-some e xs zs found).same_kinds x.kind,
    )
  ]
]

has_kind-append :
    (k : String) (xs : List Event) (e : Event)
    → has_kind k (xs ++ e ∷ []) ≡ (has_kind k xs || (e.kind == k))
has_kind-append k [] e = ground arith
has_kind-append k (x ∷ xs) e = ground (arith, has_kind-append k xs e)

IsDistinct-append :
    (xs : List Event) (e : Event)
    → IsDistinct xs
    → has_kind e.kind xs ≡ false
    → IsDistinct (xs ++ e ∷ [])
IsDistinct-append [] e d h = (refl, tt)
IsDistinct-append (x ∷ xs) e d h = ground (
  arith,
  has_kind-append x.kind xs e,
  IsDistinct-append xs e d.1,
  eq_iff x.kind e.kind,
  eq_iff e.kind x.kind,
)

has_kind-drop :
    (k : String) (n : ℕ) (xs : List Event) → has_kind k xs ≡ false → has_kind k (drop n xs) ≡ false
has_kind-drop k zero xs h = h
has_kind-drop k (suc n) [] h = refl
has_kind-drop k (suc n) (x ∷ xs) h = has_kind-drop k n xs (ground arith)

IsDistinct-drop : (n : ℕ) (xs : List Event) → IsDistinct xs → IsDistinct (drop n xs)
IsDistinct-drop zero xs d = d
IsDistinct-drop (suc n) [] d = d
IsDistinct-drop (suc n) (x ∷ xs) d = IsDistinct-drop n xs d.1

event_of_kind-append :
    (k : String) (xs : List Event) (e : Event)
    → event_of_kind k (xs ++ e ∷ [])
      ≡ (if has_kind k xs then event_of_kind k xs else (if e.kind == k then some e else none))
event_of_kind-append k [] e = refl
event_of_kind-append k (x ∷ xs) e = ground (arith, event_of_kind-append k xs e)

event_of_kind-none :
    (k : String) (xs : List Event) → has_kind k xs ≡ false → event_of_kind k xs ≡ none
event_of_kind-none k [] h = refl
event_of_kind-none k (x ∷ xs) h = ground (arith, event_of_kind-none k xs)

push-IsQueue :
    (e : Event) (es : List Event) → IsQueue es → has_kind e.kind es ≡ false → IsQueue (push e es)
unfolding push
push-IsQueue e es q h =
    let n = length es - max_pending_events_per_upstream + 1 in
    ground (
      arith,
      length-append es (e ∷ []),
      length-append (drop n es) (e ∷ []),
      length-drop n es,
      IsDistinct-append es e q.distinct h,
      IsDistinct-append (drop n es) e (IsDistinct-drop n es q.distinct)
          (has_kind-drop e.kind n es h),
    )

push-event :
    (e : Event) (es : List Event)
    → has_kind e.kind es ≡ false
    → event_of_kind e.kind (push e es) ≡ some e
unfolding push
push-event e es h =
    let n = length es - max_pending_events_per_upstream + 1 in
    ground (
      arith,
      event_of_kind-append e.kind es e,
      event_of_kind-append e.kind (drop n es) e,
      has_kind-drop e.kind n es h,
      same_refl e.kind,
    )

push-others :
    (e : Event) (es : List Event) (k : String)
    → length es < max_pending_events_per_upstream
    → (e.kind == k) ≡ false
    → event_of_kind k (push e es) ≡ event_of_kind k es
unfolding push
push-others e es k l h = ground (arith, event_of_kind-append k es e, event_of_kind-none k es)

-- Queueing an event keeps the queue well formed, makes it the one event of its type, and leaves the
-- events of other types alone unless a new type comes to a full queue.
pub add_event-IsQueue :
    (e : Event) (es : List Event)
    → IsQueue es
    → IsQueue (add_event e es)
      × (event_of_kind e.kind (add_event e es) ≡ some e)
      × ((k : String)
          → (e.kind == k) ≡ false
          → (length es < max_pending_events_per_upstream) ⊎ (has_kind e.kind es ≡ true)
          → event_of_kind k (add_event e es) ≡ event_of_kind k es)
unfolding add_event
add_event-IsQueue e es q = elim (Option-cases (replace_kind e es)) [
  | inl fresh ↦
      let h = replace_kind-none e es fresh in
      rw (fresh, add_event)
        (
          push-IsQueue e es q h,
          push-event e es h,
          λ k other room. push-others e es k (ground arith) other,
        )
  | inr (ys, found) ↦
      let r = replace_kind-some e es ys found in
      rw (found, add_event)
        (
          record {
            bounded = omega (arith, r.same_length, q.bounded);
            distinct = replace_kind-IsDistinct e es ys found q.distinct;
          },
          ground (arith, r.events e.kind, same_refl e.kind),
          λ k other room. ground (arith, r.events k),
        )
]

has_kind-remove_first :
    (k : String) (sent : Event) (es : List Event)
    → has_kind k es ≡ false
    → has_kind k (remove_first sent es) ≡ false
unfolding remove_first
has_kind-remove_first k sent [] h = h
has_kind-remove_first k sent (x ∷ xs) h = ground (arith, has_kind-remove_first k sent xs)

IsDistinct-remove_first :
    (sent : Event) (es : List Event) → IsDistinct es → IsDistinct (remove_first sent es)
unfolding remove_first
IsDistinct-remove_first sent [] d = d
IsDistinct-remove_first sent (x ∷ xs) d =
    ground (arith, IsDistinct-remove_first sent xs d.1, has_kind-remove_first x.kind sent xs)

length-remove_first : (sent : Event) (es : List Event) → length (remove_first sent es) ≤ length es
unfolding remove_first
length-remove_first sent [] = omega arith
length-remove_first sent (x ∷ xs) = ground (arith, length-remove_first sent xs)

event_of_kind-has :
    (k : String) (es : List Event) (e : Event)
    → event_of_kind k es ≡ some e
    → (e.kind ≡ k) × (has_kind k es ≡ true)
event_of_kind-has k [] e h = absurd (cc)
event_of_kind-has k (x ∷ xs) e h = ground (arith, eq_iff x.kind k, event_of_kind-has k xs e)

pub remove_first-IsQueue :
    (sent : Event) (es : List Event) → IsQueue es → IsQueue (remove_first sent es)
remove_first-IsQueue sent es q = record {
  bounded = omega (arith, q.bounded, length-remove_first sent es);
  distinct = IsDistinct-remove_first sent es q.distinct;
}

-- What is left of the event of a type, after one event was sent.
abbrev pub unsent : Event → Option Event → Option Event
unsent sent none = none
unsent sent (some e) = if e == sent then none else some e

unsent_other :
    (sent : Event) (k : String) (es : List Event)
    → sent.kind ≢ k
    → unsent sent (event_of_kind k es) ≡ event_of_kind k es
unsent_other sent k es h = elim (Option-cases (event_of_kind k es)) [
  | inl e ↦ rw e
  | inr (y, e) ↦
      let kind : y.kind ≡ k = (event_of_kind-has k es y e).0 in
      elim (Bool-cases (y == sent)) [
        | inl same ↦
            absurd (h (ap (λ (z : Event). z.kind) (sym ((event_beq_iff y sent).0 same)) ∙ kind))
        | inr other ↦ ground arith
      ]
]

-- In a well-formed queue, acknowledging takes out the sent event and no other: an event of its type
-- that was queued since the delivery began stays, and so does every event of another type.
pub event_of_kind-remove_first :
    (sent : Event) (es : List Event) (k : String)
    → IsDistinct es
    → event_of_kind k (remove_first sent es) ≡ unsent sent (event_of_kind k es)
unfolding remove_first
event_of_kind-remove_first sent [] k d = refl
event_of_kind-remove_first sent (x ∷ xs) k d = elim (Bool-cases (x == sent)) [
  | inl same ↦
      let eq : x ≡ sent = (event_beq_iff x sent).0 same in
      elim (Bool-cases (x.kind == k)) [
        | inl hit ↦
            let kind : x.kind ≡ k = (eq_iff x.kind k).0 hit in
            ground (arith, event_of_kind-none k xs (subst (λ j. has_kind j xs ≡ false) kind d.0))
        | inr miss ↦
            rw (same, miss)
              (sym (
                unsent_other sent k xs
                  λ e. cc ((eq_iff x.kind k).1 (ap (λ (z : Event). z.kind) eq ∙ e))))
      ]
  | inr other ↦ ground (arith, event_of_kind-remove_first sent xs k d.1, eq_iff x.kind k)
]
