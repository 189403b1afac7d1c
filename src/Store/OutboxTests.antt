-- ===== src/Store/OutboxTests.antt =====
-- Runs of the outbox on small inputs.
use d_api.Base.{ℕ, ◌≡◌, refl, String, false, none, some, [], ◌∷◌, arith, All, map, take, nat_key}
use d_api.Base.Maps.{lookup, insert}
use d_api.Store.Outbox.{Outbox, Row, Job, fail, renew, claim, due_rows, insert_due, lease_each}
use d_api.Store.Outbox.Leases.{Call, Settlement, settle, exec_all, settled_once}
use d_api.Store.Outbox.Claims.{Leased, Due, IsSorted, claim-Leased, ids_of}

abbrev waiting : ℕ → Row String
waiting t = record {
  channel_id = some 3;
  payload = "low";
  next_attempt_at = t;
  attempts = 0;
  lease_version = 0;
  dead_at = none;
  last_error = "";
}

abbrev pub two_rows : Outbox String
two_rows = record { rows = (1, waiting 50) ∷ (2, waiting 40) ∷ []; next_id = 3 }

-- The row that is due for longer comes first.
claim_run : ids_of (claim (λ id. false) 1 100 two_rows).1 ≡ 2 ∷ []
unfolding claim due_rows insert_due lease_each lookup
claim_run = refl

abbrev leased : Outbox String
leased = (claim (λ id. false) 1 100 two_rows).0

abbrev job : Job String
job = record { id = 2; channel_id = 3; payload = "low"; attempts = 1; lease_version = 1 }

abbrev completes : Settlement
completes = Settlement.completes

abbrev retries : Settlement
retries = Settlement.fails "timeout" 500

-- The worker fails the job, it is claimed again, and then its lease is of no use.
settled_once_example :
    let again = Call.claiming (λ id. false) 5 600 ∷ [] in
    let after = exec_all again (settle retries job 200 leased).0 in
    ((settle completes job 700 after).1 ≡ false)
    × ((settle completes job 700 after).0 ≡ after)
    × ((renew job 700 after).1 ≡ false)
    × ((renew job 700 after).0 ≡ after)
unfolding settle fail claim due_rows insert_due lease_each lookup insert
settled_once_example =
    settled_once retries completes job 200 700 (Call.claiming (λ id. false) 5 600 ∷ []) leased
      (omega arith) refl

claim-Leased_example :
    let due = due_rows (λ id. false) 100 two_rows.rows in
    All (Leased 100 leased) (claim (λ id. false) 1 100 two_rows).1
    × (ids_of (claim (λ id. false) 1 100 two_rows).1 ≡ map (λ (a : ℕ × ℕ). a.1) (take 1 due))
    × (All (Due (λ id. false) 100 two_rows.rows) due × IsSorted due)
unfolding lookup
claim-Leased_example = claim-Leased (λ id. false) 1 100 two_rows (refl, (refl, tt))
