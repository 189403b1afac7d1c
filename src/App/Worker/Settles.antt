-- ===== src/App/Worker/Settles.antt =====
-- internal/app/notifications.go: what becomes of the rows of the jobs in one run of the worker.
use d_api.Base.{
  ℕ, ◌+◌, ◌≡◌, ◌≢◌, refl, ◌⊎◌, inl, inr, Bool, true, false, ◌||◌, none, List, [], ◌∷◌, ◌++◌, arith,
  Option-cases, Bool-cases, nat_key, nat_beq, leb,
}
use d_api.Base.Maps.{Map, lookup, lookup-insert, lookup-delete}
use d_api.Store.Outbox.{
  Outbox, Row, Job, claim, renew, complete, fail, bury, lease, lease_each, put, update_owned,
}
use d_api.App.Worker.{
  Event, Group, group_key, World, External, run_statement, group_jobs, renew_all, complete_all,
  fail_one, fail_all, ids_of, events_of, aggregate, noted, settle_all, deliver_group, run_groups,
  run, notification_retry_delay,
}

abbrev pub elem : ℕ → List ℕ → Bool
elem id [] = false
elem id (i ∷ is) = nat_beq i id || elem id is

elem_append : (id : ℕ) (is js : List ℕ) → elem id (is ++ js) ≡ (elem id is || elem id js)
elem_append id [] js = refl
elem_append id (i ∷ is) js = ground (arith, elem_append id is js)

module _ {P : Type 0} where
  -- The row is there, or its job was delivered.
  abbrev pub Kept : ℕ → World P → Type 0
  Kept id w = (lookup id w.outbox.rows ≢ none) ⊎ (elem id w.delivered ≡ true)

  -- A statement that removes no row of this id.
  abbrev Keeps : ℕ → (ℕ → Outbox P → Outbox P × Bool) → Type 0
  Keeps id f = (t : ℕ) (o : Outbox P) → lookup id o.rows ≢ none → lookup id (f t o).0.rows ≢ none

  update-Keeps :
      (id : ℕ) (j : Job P) (f : ℕ → Row P → Row P) → Keeps id (λ t o. update_owned j t (f t) o)
  update-Keeps id j f t o h = elim (Option-cases (lookup j.id o.rows)) [
    | inl gone ↦ ground (arith, gone, h)
    | inr (r, found) ↦
        ground (arith, found, h, nat_key.same_iff j.id id, lookup-insert j.id id (f t r) o.rows)
  ]

  complete-Keeps : (id : ℕ) (j : Job P) → j.id ≢ id → Keeps id (complete j)
  unfolding complete
  complete-Keeps id j far t o h =
      ground (arith, far, h, nat_key.same_iff j.id id, lookup-delete j.id id o.rows)

  lease_each-Keeps :
      (id now : ℕ) (picks : List (ℕ × ℕ)) (o : Outbox P)
      → lookup id o.rows ≢ none
      → lookup id (lease_each now picks o).0.rows ≢ none
  unfolding lease_each
  lease_each-Keeps id now [] o h = h
  lease_each-Keeps id now ((t, k) ∷ picks) o h = elim (Option-cases (lookup k o.rows)) [
    | inl gone ↦ rw (gone, lease_each) (lease_each-Keeps id now picks o h)
    | inr (r, found) ↦
        rw (found, lease_each)
          (lease_each-Keeps id now picks (put k (lease now r) o)
            (ground (arith, h, nat_key.same_iff k id, lookup-insert k id (lease now r) o.rows)))
  ]

module _ {P : Type 0} (x : External P) where
  statement-Kept :
      (id : ℕ) (f : ℕ → Outbox P → Outbox P × Bool) (w : World P)
      → Keeps id f
      → Kept id w
      → Kept id (run_statement x f w).0
  unfolding run_statement
  statement-Kept id f w keeps (inr sent) = inr (ground (arith, sent))
  statement-Kept id f w keeps (inl there) =
      inl (ground (arith, there, keeps (x.clock w.statements) w.outbox there))

  delivered_statement :
      (id : ℕ) (f : ℕ → Outbox P → Outbox P × Bool) (w : World P)
      → elem id w.delivered ≡ true
      → elem id (run_statement x f w).0.delivered ≡ true
  unfolding run_statement
  delivered_statement id f w h = ground (arith, h)

  renew_all-Kept :
      (id : ℕ) (js : List (Job P × Event)) (w : World P) → Kept id w → Kept id (renew_all x js w).1
  unfolding renew_all renew
  renew_all-Kept id [] w k = k
  renew_all-Kept id ((j, e) ∷ js) w k =
      renew_all-Kept id js (run_statement x (renew j) w).0
        (statement-Kept id (renew j) w (update-Keeps id j _) k)

  fail_one-Kept : (id : ℕ) (j : Job P) (w : World P) → Kept id w → Kept id (fail_one x j w)
  unfolding fail_one fail bury
  fail_one-Kept id j w k = elim (Bool-cases (leb 5 j.attempts)) [
    | inl last ↦
        rw (last, fail_one) (statement-Kept id (bury x.error_text j) w (update-Keeps id j _) k)
    | inr again ↦
        rw (again, fail_one)
          (statement-Kept id
            (fail x.error_text (x.clock w.statements + notification_retry_delay j.attempts) j) w
            (update-Keeps id j _) k)
  ]

  fail_all-Kept :
      (id : ℕ) (js : List (Job P × Event)) (w : World P) → Kept id w → Kept id (fail_all x js w)
  unfolding fail_all
  fail_all-Kept id [] w k = k
  fail_all-Kept id ((j, e) ∷ js) w k = fail_all-Kept id js (fail_one x j w) (fail_one-Kept id j w k)

  -- Completing jobs that were all delivered.
  complete_all-Kept :
      (id : ℕ) (js : List (Job P × Event)) (w : World P)
      → Kept id w
      → (elem id (ids_of x js) ≡ true → elem id w.delivered ≡ true)
      → Kept id (complete_all x js w)
  unfolding complete_all
  complete_all-Kept id [] w k sent = k
  complete_all-Kept id ((j, e) ∷ js) w k sent =
      let w' = (run_statement x (complete j) w).0 in
      elim (Bool-cases (nat_beq j.id id)) [
        | inl mine ↦
            let here : elem id w.delivered ≡ true = sent (ground (arith, mine)) in
            complete_all-Kept id js w' (inr (delivered_statement id (complete j) w here))
              (λ _. delivered_statement id (complete j) w here)
        | inr other ↦
            complete_all-Kept id js w'
              (statement-Kept id (complete j) w (complete-Keeps id j (ground (arith, other))) k)
              (λ h. delivered_statement id (complete j) w (sent (ground (arith, h))))
      ]

  noted-Kept :
      (id : ℕ) (sent : Bool) (js : List (Job P × Event)) (w : World P)
      → Kept id w
      → Kept id (noted x sent js w) × Kept id (settle_all x sent js (noted x sent js w))
  noted-Kept id true js w k =
      let w' = noted x true js w in
      let k' : Kept id w' = elim k [
        | inl there ↦ inl there
        | inr before ↦ inr (ground (arith, before, elem_append id w.delivered (ids_of x js)))
      ] in
      (
        k',
        complete_all-Kept id js w' k'
            (λ h. ground (arith, h, elem_append id w.delivered (ids_of x js))),
      )
  noted-Kept id false js w k = (k, fail_all-Kept id js w k)

  deliver_group-Kept :
      (id : ℕ) (g : Group) (js : List (Job P × Event)) (w : World P)
      → Kept id w
      → Kept id (deliver_group x g js w).0
  unfolding deliver_group
  deliver_group-Kept id g [] w k = k
  deliver_group-Kept id g ((j, e) ∷ js) w k =
      let sent = x.deliver g.channel_id (aggregate x.line e (events_of x js)) in
      let both = noted-Kept id sent ((j, e) ∷ js) w k in
      elim (Bool-cases (x.stopped w.statements)) [
        | inl over ↦ rw (over, deliver_group) both.0
        | inr on ↦ rw (on, deliver_group) both.1
      ]

  run_groups-Kept :
      (id : ℕ) (groups : Map Group (List (Job P × Event))) (w : World P)
      → Kept id w
      → Kept id (run_groups x groups w).0
  unfolding run_groups
  run_groups-Kept id [] w k = k
  run_groups-Kept id ((g, js) ∷ groups) w k =
      let renewed = renew_all x js w in
      let done = deliver_group x g renewed.0 renewed.1 in
      let kept : Kept id done.0 =
        deliver_group-Kept id g renewed.0 renewed.1 (renew_all-Kept id js w k) in
      elim (Bool-cases done.1) [
        | inl on ↦ rw (on, run_groups) (run_groups-Kept id groups done.0 kept)
        | inr over ↦ rw (over, run_groups) kept
      ]

  group_jobs-Kept :
      (id : ℕ) (js : List (Job P)) (groups : Map Group (List (Job P × Event))) (w : World P)
      → ((p : P) → x.decode p ≢ none)
      → Kept id w
      → Kept id (group_jobs x js groups w).1
  unfolding group_jobs
  group_jobs-Kept id [] groups w valid k = k
  group_jobs-Kept id (j ∷ js) groups w valid k = elim (Option-cases (x.decode j.payload)) [
    | inl bad ↦ absurd (valid j.payload bad)
    | inr (e, good) ↦ rw (good, group_jobs) (group_jobs-Kept id js _ w valid k)
  ]

  claim-Keeps :
      (id : ℕ) (locked : ℕ → Bool) (limit now : ℕ) (o : Outbox P)
      → lookup id o.rows ≢ none
      → lookup id (claim locked limit now o).0.rows ≢ none
  unfolding claim
  claim-Keeps id locked limit now o h = lease_each-Keeps id now _ o h

  -- If every payload is an event, a run of the worker removes a row only if its job was delivered:
  -- whatever the deliveries answer, whichever statements break or lose their lease, and also if the
  -- worker is stopped on the way.
  pub run-Kept :
      (id : ℕ) (locked : ℕ → Bool) (w : World P)
      → ((p : P) → x.decode p ≢ none)
      → Kept id w
      → Kept id (run x locked w).0
  unfolding run
  run-Kept id locked w valid k =
      let claimed = claim locked 5 (x.clock w.statements) w.outbox in
      let start : World P = record w { outbox = claimed.0; statements = w.statements + 1 } in
      let kept : Kept id start = elim k [
        | inl there ↦ inl (claim-Keeps id locked 5 (x.clock w.statements) w.outbox there)
        | inr sent ↦ inr sent
      ] in
      let grouped = group_jobs x claimed.1 [] start in
      elim (Bool-cases (x.breaks w.statements)) [
        | inl broken ↦ rw (broken, run) k
        | inr on ↦
            rw (on, run)
              (run_groups-Kept id grouped.0 grouped.1
                (group_jobs-Kept id claimed.1 [] start valid kept))
      ]
