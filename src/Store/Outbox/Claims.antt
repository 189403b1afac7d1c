-- ===== src/Store/Outbox/Claims.antt =====
-- internal/store/notifications.go, `ClaimNotificationJobs`: which rows a claim leases, and for how
-- long.
use d_api.Base.{
  ℕ, zero, suc, ◌+◌, ◌*◌, ◌<◌, ◌≤◌, ◌≡◌, ◌≢◌, refl, ap, map, inl, inr, Bool, true, false, not, ◌&&◌,
  none, some, List, [], ◌∷◌, arith, nat_key, nat_beq, take, All, if◌then◌else◌, Option-cases,
  Bool-cases, All-take,
}
use d_api.Base.Maps.{Map, lookup, insert, lookup-insert}
use d_api.Base.Maps.Distinct.{IsDistinct}
use d_api.Store.Outbox.{
  Row, Job, Outbox, before, insert_due, due_rows, is_due, lease, job_of, put, lease_each, claim,
  owned, second,
}

abbrev Picks : Type 0
Picks = List (ℕ × ℕ)

All-insert_due :
    (Q : ℕ × ℕ → Type 0) (a : ℕ × ℕ) (bs : Picks) → Q a → All Q bs → All Q (insert_due a bs)
unfolding insert_due
All-insert_due Q a [] q h = (q, h)
All-insert_due Q a (b ∷ bs) q h = ground (arith, q, h, All-insert_due Q a bs q h.1)

abbrev Absent : ℕ → Picks → Type 0
Absent id = All (λ (a : ℕ × ℕ). a.1 ≢ id)

abbrev Apart : Picks → Type 0
Apart [] = Unit
Apart (a ∷ more) = Absent a.1 more × Apart more

insert_due-Apart : (a : ℕ × ℕ) (bs : Picks) → Absent a.1 bs → Apart bs → Apart (insert_due a bs)
unfolding insert_due
insert_due-Apart a [] h d = (h, d)
insert_due-Apart a (b ∷ bs) h d = elim (Bool-cases (before a b)) [
  | inl first ↦ rw (first, insert_due) (h, d)
  | inr later ↦
      rw (later, insert_due)
        (All-insert_due _ a bs (λ e. h.0 (ground (arith, e))) d.0, insert_due-Apart a bs h.1 d.1)
]

-- In the order of time and id.
abbrev pub IsSorted : Picks → Type 0
IsSorted [] = Unit
IsSorted (a ∷ more) = All (λ (b : ℕ × ℕ). before a b ≡ true) more × IsSorted more

before_every :
    (a b : ℕ × ℕ) (bs : Picks)
    → before a b ≡ true
    → All (λ (c : ℕ × ℕ). before b c ≡ true) bs
    → All (λ (c : ℕ × ℕ). before a c ≡ true) bs
before_every a b [] h s = tt
before_every a b (c ∷ cs) h s = (ground (arith, h, s.0), before_every a b cs h s.1)

insert_due-IsSorted : (a : ℕ × ℕ) (bs : Picks) → IsSorted bs → IsSorted (insert_due a bs)
unfolding insert_due
insert_due-IsSorted a [] s = (tt, tt)
insert_due-IsSorted a (b ∷ bs) s = elim (Bool-cases (before a b)) [
  | inl first ↦ rw (first, insert_due) ((first, before_every a b bs first s.0), s)
  | inr later ↦
      rw (later, insert_due)
        (All-insert_due _ a bs (ground (arith, later)) s.0, insert_due-IsSorted a bs s.1)
]

Apart-take : (n : ℕ) (picks : Picks) → Apart picks → Apart (take n picks)
Apart-take zero picks d = tt
Apart-take (suc n) [] d = tt
Apart-take (suc n) (a ∷ more) d = (All-take _ n more d.0, Apart-take n more d.1)

abbrev pub limit_of : ℕ → ℕ
limit_of limit = if nat_beq limit 0 then 20 else limit

module _ {P : Type 0} where
  due_rows-IsSorted :
      (locked : ℕ → Bool) (now : ℕ) (rows : Map ℕ (Row P)) → IsSorted (due_rows locked now rows)
  unfolding due_rows
  due_rows-IsSorted locked now [] = tt
  due_rows-IsSorted locked now ((id, r) ∷ rows) =
      elim (Bool-cases (is_due now r && not (locked id))) [
        | inl due ↦
            rw (due, due_rows)
              (insert_due-IsSorted (r.next_attempt_at, id) (due_rows locked now rows)
                (due_rows-IsSorted locked now rows))
        | inr other ↦ rw (other, due_rows) (due_rows-IsSorted locked now rows)
      ]

  -- The row of a pick is there and due.
  abbrev pub Due : (ℕ → Bool) → ℕ → Map ℕ (Row P) → ℕ × ℕ → Type 0
  Due locked now rows a =
      (r : Row P) × (lookup a.1 rows ≡ some r)
      × (r.next_attempt_at ≡ a.0)
      × (is_due now r ≡ true)
      × (locked a.1 ≡ false)

  Due-later :
      (locked : ℕ → Bool) (now id : ℕ) (r : Row P) (rows : Map ℕ (Row P)) (picks : Picks)
      → lookup id rows ≡ none
      → All (Due locked now rows) picks
      → All (Due locked now ((id, r) ∷ rows)) picks × Absent id picks
  unfolding lookup
  Due-later locked now id r rows [] fresh h = (tt, tt)
  Due-later locked now id r rows (a ∷ more) fresh h =
      let (s, found, t, due, free) = h.0 in
      let apart : a.1 ≢ id = λ e. ground (arith, e, found, fresh) in
      let rest = Due-later locked now id r rows more fresh h.1 in
      (
        ((s, ground (arith, found, apart, nat_key.same_iff id a.1), t, due, free), rest.0),
        (apart, rest.1),
      )

  due_rows-Due :
      (locked : ℕ → Bool) (now : ℕ) (rows : Map ℕ (Row P))
      → IsDistinct rows
      → All (Due locked now rows) (due_rows locked now rows) × Apart (due_rows locked now rows)
  unfolding due_rows lookup
  due_rows-Due locked now [] d = (tt, tt)
  due_rows-Due locked now ((id, r) ∷ rows) d =
      let (dues, apart) = due_rows-Due locked now rows d.1 in
      let (later, absent) = Due-later locked now id r rows (due_rows locked now rows) d.0 dues in
      elim (Bool-cases (is_due now r && not (locked id))) [
        | inl due ↦
            rw (due, due_rows)
              (
                All-insert_due _ (r.next_attempt_at, id) (due_rows locked now rows)
                    (
                      r,
                      ground (arith, nat_key.same_iff id id),
                      refl,
                      ground (arith, due),
                      ground (arith, due),
                    )
                    later,
                insert_due-Apart (r.next_attempt_at, id) (due_rows locked now rows) absent apart,
              )
        | inr other ↦ rw (other, due_rows) (later, apart)
      ]

  lease_each-other :
      (now id : ℕ) (picks : Picks) (o : Outbox P)
      → Absent id picks
      → lookup id (lease_each now picks o).0.rows ≡ lookup id o.rows
  unfolding lease_each
  lease_each-other now id [] o h = refl
  lease_each-other now id ((t, k) ∷ picks) o h = elim (Option-cases (lookup k o.rows)) [
    | inl gone ↦ rw (gone, lease_each) (lease_each-other now id picks o h.1)
    | inr (r, found) ↦
        rw (found, lease_each)
          (ground (
            arith,
            h.0,
            nat_key.same_iff k id,
            lookup-insert k id (lease now r) o.rows,
            lease_each-other now id picks (put k (lease now r) o) h.1,
          ))
  ]

  -- The row is there and alive.
  abbrev Alive : Map ℕ (Row P) → ℕ × ℕ → Type 0
  Alive rows a = (r : Row P) × (lookup a.1 rows ≡ some r) × (r.dead_at ≡ none)

  Alive-put :
      (k : ℕ) (r : Row P) (rows : Map ℕ (Row P)) (picks : Picks)
      → r.dead_at ≡ none
      → Absent k picks
      → All (Alive rows) picks
      → All (Alive (insert k r rows)) picks
  Alive-put k r rows [] alive far h = tt
  Alive-put k r rows (a ∷ more) alive far h = (
    (
      h.0.0,
      ground (arith, far.0, nat_key.same_iff k a.1, lookup-insert k a.1 r rows, h.0.1),
      h.0.2,
    ),
    Alive-put k r rows more alive far.1 h.1,
  )

  -- The job holds its row from `now` for a minute, and for a quarter of an hour at most.
  abbrev pub Leased : ℕ → Outbox P → Job P → Type 0
  Leased now o j =
      ((later : ℕ) → later < now + 60 * second → owned j later o ≡ true)
      × ((later : ℕ) → now + 900 * second ≤ later → owned j later o ≡ false)

  Leased-put :
      (now k : ℕ) (r : Row P) (o o' : Outbox P)
      → r.dead_at ≡ none
      → lookup k o'.rows ≡ some (lease now r)
      → Leased now o' (job_of k (lease now r))
  Leased-put now k r o o' alive found = (
    (λ later soon. ground (arith, found, alive, soon)),
    (λ later late. ground (arith, found, alive, late)),
  )

  abbrev pub ids_of : List (Job P) → List ℕ
  ids_of jobs = map (λ (j : Job P). j.id) jobs

  lease_each-Leased :
      (now : ℕ) (picks : Picks) (o : Outbox P)
      → Apart picks
      → All (Alive o.rows) picks
      → All (Leased now (lease_each now picks o).0) (lease_each now picks o).1
        × (ids_of (lease_each now picks o).1 ≡ map (λ (a : ℕ × ℕ). a.1) picks)
  unfolding lease_each
  lease_each-Leased now [] o d h = (tt, refl)
  lease_each-Leased now ((t, k) ∷ picks) o d h =
      let (r, found, alive) = h.0 in
      let leased : Outbox P = put k (lease now r) o in
      let later =
        lease_each-Leased now picks leased d.1
          (Alive-put k (lease now r) o.rows picks alive d.0 h.1) in
      let mine : lookup k (lease_each now picks leased).0.rows ≡ some (lease now r) = ground (
        arith,
        lease_each-other now k picks leased d.0,
        nat_key.same_iff k k,
        lookup-insert k k (lease now r) o.rows,
      ) in
      rw (found, lease_each)
        (
          (Leased-put now k r o (lease_each now picks leased).0 alive mine, later.0),
          ap (◌∷◌ k) later.1,
        )

  Due-Alive :
      (locked : ℕ → Bool) (now : ℕ) (rows : Map ℕ (Row P)) (picks : Picks)
      → All (Due locked now rows) picks
      → All (Alive rows) picks
  Due-Alive locked now rows [] h = tt
  Due-Alive locked now rows (a ∷ more) h =
      let (r, found, t, due, free) = h.0 in
      ((r, found, ground (arith, due)), Due-Alive locked now rows more h.1)

  -- If no id stands twice in the outbox, a claim gives out the first of the rows that `due_rows` lists,
  -- as many as its limit allows; the listed rows are due, unlocked and in the order of time and id; and
  -- whoever gets a row holds it for at least a minute from then on, and at most fifteen.
  pub claim-Leased :
      (locked : ℕ → Bool) (limit now : ℕ) (o : Outbox P)
      → IsDistinct o.rows
      → let done = claim locked limit now o in
        let due = due_rows locked now o.rows in
        All (Leased now done.0) done.1
        × (ids_of done.1 ≡ map (λ (a : ℕ × ℕ). a.1) (take (limit_of limit) due))
        × (All (Due locked now o.rows) due × IsSorted due)
  unfolding claim
  claim-Leased locked limit now o distinct =
      let due = due_rows locked now o.rows in
      let (dues, apart) = due_rows-Due locked now o.rows distinct in
      let n = limit_of limit in
      let (leased, count) =
        lease_each-Leased now (take n due) o (Apart-take n due apart)
          (Due-Alive locked now o.rows (take n due) (All-take _ n due dues)) in
      (leased, count, (dues, due_rows-IsSorted locked now o.rows))
