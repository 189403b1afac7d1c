-- ===== src/Store/Outbox/Leases.antt =====
-- internal/store/notifications.go: a lease is used up once.
use d_api.Base.{
  ℕ, ◌+◌, ◌<◌, ◌≤◌, ◌≡◌, refl, inl, inr, String, Bool, true, false, Option, none, some, List, [],
  ◌∷◌, arith, nat_key, Option-cases,
}
use d_api.Base.Maps.{lookup, lookup-insert, lookup-delete}
use d_api.Store.Outbox.{
  Row, Job, Outbox, new_row, enqueue, enqueue_each, enqueue_for_channels, lease, put, lease_each,
  claim, owned, update_owned, renew, complete, fail, bury, revived, retry_dead,
}

-- The lease `version` of the row `id` is over: the row is gone for good, or has a later lease.
abbrev pub Over : {P : Type 0} → ℕ → Option (Row P) → Type 0
Over version none = Unit
Over version (some r) = version < r.lease_version

abbrev pub Spent : {P : Type 0} → ℕ → ℕ → Outbox P → Type 0
Spent id version o = (id < o.next_id) × Over version (lookup id o.rows)

-- A statement on the outbox.
pub data Call (P : Type 0) : Type 0 where
  enqueuing : Bool → List ℕ → P → ℕ → Call P
  claiming : (ℕ → Bool) → ℕ → ℕ → Call P
  renewing completing : Job P → ℕ → Call P
  failing : String → ℕ → Job P → ℕ → Call P
  burying : String → Job P → ℕ → Call P
  reviving : (Option ℕ → Bool) → ℕ → ℕ → Call P

-- The end of a delivery.
pub data Settlement : Type 0 where
  completes : Settlement
  fails : String → ℕ → Settlement
  buries : String → Settlement

module _ {P : Type 0} where
  unfoldable pub settle : Settlement → Job P → ℕ → Outbox P → Outbox P × Bool
  settle Settlement.completes j now o = complete j now o
  settle (Settlement.fails message next) j now o = fail message next j now o
  settle (Settlement.buries message) j now o = bury message j now o

  unfoldable pub exec : Call P → Outbox P → Outbox P
  exec (Call.enqueuing broken channels payload t) o =
      (enqueue_for_channels broken channels payload t o).0
  exec (Call.claiming locked limit now) o = (claim locked limit now o).0
  exec (Call.renewing j now) o = (renew j now o).0
  exec (Call.completing j now) o = (complete j now o).0
  exec (Call.failing message next j now) o = (fail message next j now o).0
  exec (Call.burying message j now) o = (bury message j now o).0
  exec (Call.reviving enabled id now) o = (retry_dead enabled id now o).0

  unfoldable pub exec_all : List (Call P) → Outbox P → Outbox P
  exec_all [] o = o
  exec_all (c ∷ cs) o = exec_all cs (exec c o)

  put-Spent :
      (id v : ℕ) (k : ℕ) (r r' : Row P) (o : Outbox P)
      → Spent id v o
      → lookup k o.rows ≡ some r
      → r.lease_version ≤ r'.lease_version
      → Spent id v (put k r' o)
  put-Spent id v k r r' o s found grows =
      ground (arith, nat_key.same_iff k id, lookup-insert k id r' o.rows, s, found)

  enqueue-Spent :
      (id v : ℕ) (c : Option ℕ) (p : P) (t : ℕ) (o : Outbox P)
      → Spent id v o
      → Spent id v (enqueue c p t o)
  unfolding enqueue
  enqueue-Spent id v c p t o s =
      ground
        (arith, nat_key.same_iff o.next_id id, lookup-insert o.next_id id (new_row c p t) o.rows, s)

  enqueue_each-Spent :
      (id v : ℕ) (cs : List ℕ) (p : P) (t : ℕ) (o : Outbox P)
      → Spent id v o
      → Spent id v (enqueue_each cs p t o)
  unfolding enqueue_each
  enqueue_each-Spent id v [] p t o s = s
  enqueue_each-Spent id v (c ∷ cs) p t o s =
      enqueue_each-Spent id v cs p t (enqueue (some c) p t o) (enqueue-Spent id v (some c) p t o s)

  lease_each-Spent :
      (id v now : ℕ) (picked : List (ℕ × ℕ)) (o : Outbox P)
      → Spent id v o
      → Spent id v (lease_each now picked o).0
  unfolding lease_each
  lease_each-Spent id v now [] o s = s
  lease_each-Spent id v now ((t, k) ∷ picked) o s = elim (Option-cases (lookup k o.rows)) [
    | inl gone ↦ rw (gone, lease_each) (lease_each-Spent id v now picked o s)
    | inr (r, found) ↦
        rw (found, lease_each)
          (lease_each-Spent id v now picked (put k (lease now r) o)
            (put-Spent id v k r (lease now r) o s found (omega arith)))
  ]

  complete-Spent :
      (id v : ℕ) (j : Job P) (now : ℕ) (o : Outbox P)
      → Spent id v o
      → Spent id v (complete j now o).0
  unfolding complete
  complete-Spent id v j now o s = ground (arith, lookup-delete j.id id o.rows, s)

  update-Spent :
      (id v : ℕ) (j : Job P) (now : ℕ) (f : Row P → Row P) (o : Outbox P)
      → ((r : Row P) → r.lease_version ≤ (f r).lease_version)
      → Spent id v o
      → Spent id v (update_owned j now f o).0
  update-Spent id v j now f o grows s = elim (Option-cases (lookup j.id o.rows)) [
    | inl gone ↦ ground (arith, gone, s)
    | inr (r, found) ↦ ground (arith, found, s, put-Spent id v j.id r (f r) o s found (grows r))
  ]

  exec-Spent : (id v : ℕ) (c : Call P) (o : Outbox P) → Spent id v o → Spent id v (exec c o)
  unfolding exec enqueue_for_channels claim renew fail bury retry_dead
  exec-Spent id v (Call.enqueuing broken [] payload t) o s =
      ground (arith, s, enqueue-Spent id v none payload t o s)
  exec-Spent id v (Call.enqueuing broken (c ∷ cs) payload t) o s =
      ground (arith, s, enqueue_each-Spent id v (c ∷ cs) payload t o s)
  exec-Spent id v (Call.claiming locked limit now) o s = lease_each-Spent id v now _ o s
  exec-Spent id v (Call.renewing j now) o s = update-Spent id v j now _ o (λ r. omega arith) s
  exec-Spent id v (Call.completing j now) o s = complete-Spent id v j now o s
  exec-Spent id v (Call.failing message next j now) o s =
      update-Spent id v j now _ o (λ r. omega arith) s
  exec-Spent id v (Call.burying message j now) o s =
      update-Spent id v j now _ o (λ r. omega arith) s
  exec-Spent id v (Call.reviving enabled k now) o s = elim (Option-cases (lookup k o.rows)) [
    | inl gone ↦ ground (arith, gone, s)
    | inr (r, found) ↦
        ground (arith, found, s, put-Spent id v k r (revived now r) o s found (omega arith))
  ]

  exec_all-Spent :
      (id v : ℕ) (cs : List (Call P)) (o : Outbox P) → Spent id v o → Spent id v (exec_all cs o)
  unfolding exec_all
  exec_all-Spent id v [] o s = s
  exec_all-Spent id v (c ∷ cs) o s = exec_all-Spent id v cs (exec c o) (exec-Spent id v c o s)

  Spent-owned :
      (j : Job P) (now : ℕ) (o : Outbox P) → Spent j.id j.lease_version o → owned j now o ≡ false
  Spent-owned j now o s = elim (Option-cases (lookup j.id o.rows)) [
    | inl gone ↦ ground (arith, gone)
    | inr (r, found) ↦ ground (arith, found, s)
  ]

  bump-Spent :
      (f : Row P → Row P) (j : Job P) (now : ℕ) (o : Outbox P)
      → ((r : Row P) → (f r).lease_version ≡ r.lease_version + 1)
      → j.id < o.next_id
      → (update_owned j now f o).1 ≡ true
      → Spent j.id j.lease_version (update_owned j now f o).0
  bump-Spent f j now o grows known h = elim (Option-cases (lookup j.id o.rows)) [
    | inl gone ↦ ground (arith, gone, h)
    | inr (r, found) ↦ ground (
      arith,
      found,
      h,
      known,
      grows r,
      nat_key.same_iff j.id j.id,
      lookup-insert j.id j.id (f r) o.rows,
    )
  ]

  settle-Spent :
      (s : Settlement) (j : Job P) (now : ℕ) (o : Outbox P)
      → j.id < o.next_id
      → (settle s j now o).1 ≡ true
      → Spent j.id j.lease_version (settle s j now o).0
  unfolding settle complete fail bury
  settle-Spent Settlement.completes j now o known h =
      ground (arith, h, nat_key.same_iff j.id j.id, lookup-delete j.id j.id o.rows)
  settle-Spent (Settlement.fails message next) j now o known h =
      bump-Spent _ j now o (λ r. refl) known h
  settle-Spent (Settlement.buries message) j now o known h =
      bump-Spent _ j now o (λ r. refl) known h

  settle_lost :
      (s : Settlement) (j : Job P) (now : ℕ) (o : Outbox P)
      → Spent j.id j.lease_version o
      → ((settle s j now o).0 ≡ o) × ((settle s j now o).1 ≡ false)
  unfolding settle complete fail bury
  settle_lost Settlement.completes j now o s = ground (arith, Spent-owned j now o s)
  settle_lost (Settlement.fails message next) j now o s = ground (arith, Spent-owned j now o s)
  settle_lost (Settlement.buries message) j now o s = ground (arith, Spent-owned j now o s)

  renew_lost :
      (j : Job P) (now : ℕ) (o : Outbox P)
      → Spent j.id j.lease_version o
      → ((renew j now o).0 ≡ o) × ((renew j now o).1 ≡ false)
  unfolding renew
  renew_lost j now o s = ground (arith, Spent-owned j now o s)

  -- A delivery is settled at most once. After a worker completed, failed or buried the job of an id
  -- that was given out, and whatever statements any workers run then, renewing or settling that job
  -- again, in whatever way and at whatever time, loses the lease and changes nothing.
  pub settled_once :
      (s s' : Settlement) (j : Job P) (now later : ℕ) (cs : List (Call P)) (o : Outbox P)
      → j.id < o.next_id
      → (settle s j now o).1 ≡ true
      → let after = exec_all cs (settle s j now o).0 in
        ((settle s' j later after).1 ≡ false)
        × ((settle s' j later after).0 ≡ after)
        × ((renew j later after).1 ≡ false)
        × ((renew j later after).0 ≡ after)
  settled_once s s' j now later cs o known h =
      let after = exec_all cs (settle s j now o).0 in
      let spent =
        exec_all-Spent j.id j.lease_version cs (settle s j now o).0
          (settle-Spent s j now o known h) in
      let settled = settle_lost s' j later after spent in
      let renewed = renew_lost j later after spent in (settled.1, settled.0, renewed.1, renewed.0)

  -- A later lease of each of the jobs.
  abbrev pub Revoked : Outbox P → List (Job P) → Type 0
  Revoked o [] = Unit
  Revoked o (j ∷ js) = ((v : ℕ) → v < j.lease_version → Spent j.id v o) × Revoked o js

  lease_each-Revoked :
      (now : ℕ) (picked : List (ℕ × ℕ)) (o : Outbox P)
      → ((k : ℕ) (r : Row P) → lookup k o.rows ≡ some r → k < o.next_id)
      → Revoked (lease_each now picked o).0 (lease_each now picked o).1
  unfolding lease_each
  lease_each-Revoked now [] o fresh = tt
  lease_each-Revoked now ((t, k) ∷ picked) o fresh = elim (Option-cases (lookup k o.rows)) [
    | inl gone ↦ rw (gone, lease_each) (lease_each-Revoked now picked o fresh)
    | inr (r, found) ↦
        let leased : Outbox P = put k (lease now r) o in
        rw (found, lease_each)
          (
            (λ v older. lease_each-Spent k v now picked leased (
                ground (
                  arith,
                  older,
                  fresh k r found,
                  nat_key.same_iff k k,
                  lookup-insert k k (lease now r) o.rows,
                ))),
            lease_each-Revoked now picked leased (λ k' r' found'. ground (
              arith,
              found',
              fresh k r found,
              fresh k' r',
              nat_key.same_iff k k',
              lookup-insert k k' (lease now r) o.rows,
            )),
          )
  ]

  -- A claim takes each job that it returns away from whoever had it: every earlier lease of its row
  -- is over.
  pub claim-Revoked :
      (locked : ℕ → Bool) (limit now : ℕ) (o : Outbox P)
      → ((k : ℕ) (r : Row P) → lookup k o.rows ≡ some r → k < o.next_id)
      → Revoked (claim locked limit now o).0 (claim locked limit now o).1
  unfolding claim
  claim-Revoked locked limit now o fresh = lease_each-Revoked now _ o fresh
