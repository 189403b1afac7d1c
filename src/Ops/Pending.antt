-- ===== src/Ops/Pending.antt =====
-- internal/ops/monitor.go, `setPending`, `ackPending` and `retryPending`: the balance notifications
-- that could not be delivered, kept for each upstream. The events of this queue set neither
-- `ActiveSince` nor `Evidence`; comparing two of them compares the fields below.
pub mod Queue
pub mod Retry
use d_api.Base.{
  ℕ, ◌+◌, ◌-◌, ◌≡◌, refl, ◌↔◌, String, Bool, true, false, not, ◌&&◌, ◌||◌, Option, none, some, List,
  [], ◌∷◌, ◌++◌, leb, nat_beq, nat_beq_iff, Key, ◌==◌, string_key, nat_key, if◌then◌else◌, length,
  drop, arith,
}
use text.Mathlib.TextEquality.{eq_iff}
use d_api.Base.Maps.{Map, lookup, insert, delete}

pub record Event : Type 0 where
  pub kind : String
  pub state : String
  pub previous : String
  pub upstream_id : ℕ
  pub upstream_name : String
  pub message : String
  pub at : ℕ

unfoldable pub event_beq : Event → Event → Bool
event_beq a b =
    a.kind == b.kind
    && (a.state == b.state
        && (a.previous == b.previous
            && (a.upstream_id == b.upstream_id
                && (a.upstream_name == b.upstream_name
                    && (a.message == b.message && a.at == b.at)))))

pub event_beq_iff : (a b : Event) → (event_beq a b ≡ true) ↔ (a ≡ b)
unfolding event_beq
event_beq_iff a b = ground (
  arith,
  eq_iff a.kind b.kind,
  eq_iff a.state b.state,
  eq_iff a.previous b.previous,
  eq_iff a.upstream_name b.upstream_name,
  eq_iff a.message b.message,
)

instance abbrev pub event_eq : Key Event
event_eq = record { same = event_beq; same_iff = event_beq_iff }

abbrev pub max_pending_events_per_upstream : ℕ
max_pending_events_per_upstream = 16

pub record Monitor : Type 0 where
  pub pending : Map ℕ (List Event)
  pub in_flight : Map ℕ Bool

abbrev pub events_or_nil : Option (List Event) → List Event
events_or_nil none = []
events_or_nil (some es) = es

abbrev pub pending_of : ℕ → Monitor → List Event
pending_of id m = events_or_nil (lookup id m.pending)

-- The loop of `setPending`: the first event of the same type is replaced, if there is one.
unfoldable pub replace_kind : Event → List Event → Option (List Event)
replace_kind e [] = none
replace_kind e (x ∷ xs) =
    let rest = replace_kind e xs in
    if x.kind == e.kind then some (e ∷ xs) else elim rest [ none ↦ none | some ys ↦ some (x ∷ ys) ]

unfoldable pub push : Event → List Event → List Event
push e es =
    if leb max_pending_events_per_upstream (length es)
    then drop (length es - max_pending_events_per_upstream + 1) es ++ e ∷ []
    else es ++ e ∷ []

unfoldable pub add_event : Event → List Event → List Event
add_event e es = elim (replace_kind e es) [ some ys ↦ ys | none ↦ push e es ]

unfoldable pub set_pending : Event → Monitor → Monitor
set_pending e m = record m {
  pending = insert e.upstream_id (add_event e (pending_of e.upstream_id m)) m.pending;
}

-- The loop of `ackPending`: the first event equal to the one sent is taken out.
unfoldable pub remove_first : Event → List Event → List Event
remove_first e [] = []
remove_first e (x ∷ xs) = let rest = remove_first e xs in if x == e then xs else x ∷ rest

abbrev pub store_events : ℕ → List Event → Monitor → Monitor
store_events id [] m = record m { pending = delete id m.pending }
store_events id (e ∷ es) m = record m { pending = insert id (e ∷ es) m.pending }

unfoldable pub ack_pending : Event → Monitor → Monitor
ack_pending sent m =
    store_events sent.upstream_id (remove_first sent (pending_of sent.upstream_id m)) m

pub data RetryError : Type 0 where
  in_progress not_delivered : RetryError

-- Each delivery of the loop: the events that others queue while it runs, and its outcome.
unfoldable pub set_all : List Event → Monitor → Monitor
set_all [] m = m
set_all (e ∷ es) m = set_all es (set_pending e m)

-- Where the list of outcomes ends, the deliveries that are left fail.
unfoldable pub deliver_all :
    List Event → List (List Event × Bool) → Monitor → Monitor × Option RetryError
deliver_all [] outcomes m = (m, none)
deliver_all (e ∷ es) [] m = (m, some not_delivered)
deliver_all (e ∷ es) ((queued, delivered) ∷ outcomes) m =
    let m' = set_all queued m in
    let rest = deliver_all es outcomes (ack_pending e m') in
    if delivered then rest else (m', some not_delivered)

abbrev pub is_flying : ℕ → Monitor → Bool
is_flying id m = elim (lookup id m.in_flight) [ none ↦ false | some b ↦ b ]

unfoldable pub retry_pending :
    Bool → ℕ → List (List Event × Bool) → Monitor → Monitor × Option RetryError
retry_pending has_notifier id outcomes m =
    if not has_notifier
    then (m, none)
    else (if is_flying id m then (m, some in_progress) else elim (pending_of id m) [
      | [] ↦ (m, none)
      | e ∷ es ↦
          let begun = record m { in_flight = insert id true m.in_flight } in
          let (m', err) = deliver_all (e ∷ es) outcomes begun in
          (record m' { in_flight = delete id m'.in_flight }, err)
    ])
