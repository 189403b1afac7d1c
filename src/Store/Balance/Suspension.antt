-- ===== src/Store/Balance/Suspension.antt =====
-- internal/store/upstreams.go, `SaveBalance`: when an upstream is suspended and resumed.
use d_api.Base.{
  ℕ, ◌+◌, ◌≤◌, ◌≡◌, ◌≢◌, ◌↔◌, refl, Bool, true, false, Option, none, some, List, [], ◌∷◌, length,
  arith, string_key,
}
use d_api.Store.Balance.{
  BalanceTransition, Balance, BalanceRow, Signs, Steps, Saved, is_zero, balance_protection_state,
  write_balance, save_balance, carry, previous_of,
}

-- A call of `SaveBalance`.
pub record Call (Amount : Type 0) : Type 0 where
  pub now : ℕ
  pub expected : ℕ
  pub reading : Balance Amount
  pub immediate : Bool
  pub steps : Steps

abbrev pub suspensions : BalanceTransition → ℕ
suspensions BalanceTransition.suspended = 1
suspensions _ = 0

abbrev pub resumptions : BalanceTransition → ℕ
resumptions BalanceTransition.resumed = 1
resumptions _ = 0

abbrev pub one_if : Bool → ℕ
one_if true = 1
one_if false = 0

abbrev pub row_suspended : {Amount : Type 0} → Option (BalanceRow Amount) → Bool
row_suspended none = false
row_suspended (some r) = r.suspended

module _ {Amount : Type 0} (signs : Signs Amount) where
  abbrev pub save : Call Amount → Option (BalanceRow Amount) → Saved Amount
  save c row = save_balance signs c.now c.expected c.reading c.immediate c.steps row

  pub save_all : List (Call Amount) → Option (BalanceRow Amount) → Option (BalanceRow Amount)
  save_all [] row = row
  save_all (c ∷ cs) row = save_all cs (save c row).row

  -- The transitions that the calls return, counted.
  unfoldable pub suspensions_of : List (Call Amount) → Option (BalanceRow Amount) → ℕ
  suspensions_of [] row = 0
  suspensions_of (c ∷ cs) row =
      suspensions (save c row).transition + suspensions_of cs (save c row).row

  pub resumptions_of : List (Call Amount) → Option (BalanceRow Amount) → ℕ
  resumptions_of [] row = 0
  resumptions_of (c ∷ cs) row =
      resumptions (save c row).transition + resumptions_of cs (save c row).row

  protection-counts :
      (enabled suspended : Bool) (checks : ℕ) (b : Balance Amount) (immediate : Bool)
      → let next = balance_protection_state signs enabled suspended checks b immediate in
        suspensions next.transition + one_if suspended
        ≡ resumptions next.transition + one_if next.suspended
  unfolding balance_protection_state
  protection-counts enabled suspended checks b immediate = ground arith

  write-counts :
      (b : Balance Amount) (immediate : Bool) (steps : Steps) (r : BalanceRow Amount)
      → let done = write_balance signs b immediate steps r in
        suspensions done.transition + one_if r.suspended
        ≡ resumptions done.transition + one_if (row_suspended done.row)
  unfolding write_balance
  write-counts b immediate steps r =
      ground (arith, protection-counts r.protection r.suspended r.zero_checks b immediate)

  save-counts :
      (c : Call Amount) (row : Option (BalanceRow Amount))
      → suspensions (save c row).transition + one_if (row_suspended row)
        ≡ resumptions (save c row).transition + one_if (row_suspended (save c row).row)
  unfolding save_balance
  save-counts c none = ground arith
  save-counts c (some r) =
      ground
        (arith, write-counts (carry c.now (previous_of r.balance) c.reading) c.immediate c.steps r)

  -- Over any calls, failing ones included, the suspensions reported and the resumptions reported
  -- account for the row exactly: with one more suspension if the row was suspended at first, they
  -- are as many as the resumptions, and one more if it is suspended at the end.
  pub transitions-balance :
      (cs : List (Call Amount)) (row : Option (BalanceRow Amount))
      → suspensions_of cs row + one_if (row_suspended row)
        ≡ resumptions_of cs row + one_if (row_suspended (save_all cs row))
  unfolding suspensions_of resumptions_of save_all
  transitions-balance [] row = refl
  transitions-balance (c ∷ cs) row =
      omega (arith, save-counts c row, transitions-balance cs (save c row).row)

  -- A call that returns an error leaves the row as it is and drops no route. One that succeeds drops
  -- the routes exactly when it changes whether the upstream is suspended.
  pub save_balance-commits :
      (now expected : ℕ) (b : Balance Amount) (immediate : Bool) (steps : Steps)
      (r : BalanceRow Amount)
      → let done = save_balance signs now expected b immediate steps (some r) in
        (done.error ≢ none → (done.row ≡ some r) × (done.invalidated ≡ false))
        × (done.error ≡ none
            → ((done.invalidated ≡ false) ↔ (row_suspended done.row ≡ r.suspended)))
  unfolding save_balance write_balance
  save_balance-commits now expected b immediate steps r = ground (
    arith,
    protection-counts r.protection r.suspended r.zero_checks (carry now (previous_of r.balance) b)
        immediate,
  )

  -- Readings one after the other, as the scheduled checks save them.
  pub read_all : List (Balance Amount) → Bool → ℕ → Bool × ℕ
  read_all [] suspended checks = (suspended, checks)
  read_all (b ∷ bs) suspended checks =
      let next = balance_protection_state signs true suspended checks b false in
      read_all bs next.suspended next.checks

  unfoldable pub Empty : List (Balance Amount) → Type 0
  Empty [] = Unit
  Empty (b ∷ bs) = (is_zero signs true b ≡ true) × Empty bs

  zero-counts :
      (b : Balance Amount)
      → is_zero signs true b ≡ true
      → (checks : ℕ) (suspended : Bool) → ((suspended ≡ true) ↔ (2 ≤ checks))
      → let next = balance_protection_state signs true suspended checks b false in
        ((next.suspended ≡ true) ↔ (2 ≤ checks + 1)) × (next.checks ≡ checks + 1)
  unfolding balance_protection_state
  zero-counts b e checks suspended h = ground (arith, e, h)

  -- If an upstream is suspended exactly when its zero readings in a row are two or more, then after
  -- further scheduled readings that are all zero the same holds with them added, and each is counted.
  pub read_all-suspends :
      (bs : List (Balance Amount)) (checks : ℕ) (suspended : Bool)
      → Empty bs
      → ((suspended ≡ true) ↔ (2 ≤ checks))
      → (((read_all bs suspended checks).0 ≡ true) ↔ (2 ≤ checks + length bs))
        × ((read_all bs suspended checks).1 ≡ checks + length bs)
  unfolding read_all Empty
  read_all-suspends [] checks suspended e h = ground (arith, h)
  read_all-suspends (b ∷ bs) checks suspended e h =
      let one = zero-counts b e.0 checks suspended h in
      ground (
        arith,
        one,
        read_all-suspends bs (balance_protection_state signs true suspended checks b false).checks
            (balance_protection_state signs true suspended checks b false).suspended e.1
            (ground (arith, one, h)),
      )
