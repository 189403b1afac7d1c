-- ===== src/Store/Balance.antt =====
-- internal/store/upstreams.go, `SaveBalance` and `balanceProtectionState`: an upstream whose balance
-- is used up is suspended. Amounts are float64 values in the source and are read by two tests only,
-- which are parameters. The columns of a balance that the method passes on unread are left out.
pub mod Suspension
use d_api.Base.{
  ℕ, ◌+◌, String, Bool, true, false, not, ◌&&◌, ◌||◌, Option, none, some, ltb, leb, nat_beq, ◌==◌,
  string_key, if◌then◌else◌,
}

pub data BalanceTransition : Type 0 where
  unchanged suspended resumed : BalanceTransition

-- `*Available <= 0` and `*Available > 0`.
pub record Signs (Amount : Type 0) : Type 0 where
  pub at_most_zero : Amount → Bool
  pub above_zero : Amount → Bool

pub record Balance (Amount : Type 0) : Type 0 where
  pub status : String
  pub available : Option Amount
  pub used : Option Amount
  pub currency : String
  pub currency_reported : Bool
  pub unlimited : Bool
  pub updated_at : Option ℕ
  pub last_success : Option ℕ

abbrev pub holds_of : {A : Type 0} → (A → Bool) → Option A → Bool
holds_of p none = false
holds_of p (some a) = p a

abbrev pub is_suspended : BalanceTransition → Bool
is_suspended BalanceTransition.suspended = true
is_suspended _ = false

abbrev pub is_unchanged : BalanceTransition → Bool
is_unchanged BalanceTransition.unchanged = true
is_unchanged _ = false

abbrev pub transition_of : Bool → Bool → BalanceTransition
transition_of false true = BalanceTransition.suspended
transition_of true false = BalanceTransition.resumed
transition_of _ _ = BalanceTransition.unchanged

-- The row of an upstream, in the columns that the method reads or writes.
pub record BalanceRow (Amount : Type 0) : Type 0 where
  pub protection : Bool
  pub suspended : Bool
  pub zero_checks : ℕ
  pub balance : Option (Balance Amount)
  pub config_version : ℕ

pub record Next : Type 0 where
  pub suspended : Bool
  pub checks : ℕ
  pub transition : BalanceTransition

-- Whether the steps of the transaction succeed: the query of the row, the decoding of its balance,
-- the encoding of the new one, the update, the two records of a transition, the commit.
pub record Steps : Type 0 where
  pub query : Bool
  pub decode : Bool
  pub encode : Bool
  pub update : Bool
  pub audit : Bool
  pub alert : Bool
  pub commit : Bool

pub data SaveError : Type 0 where
  not_found upstream_config_changed step_failed : SaveError

pub record Saved (Amount : Type 0) : Type 0 where
  pub row : Option (BalanceRow Amount)
  pub transition : BalanceTransition
  pub error : Option SaveError
  -- `invalidateRouteCache` was called.
  pub invalidated : Bool

module _ {Amount : Type 0} (signs : Signs Amount) where
  abbrev pub is_zero : Bool → Balance Amount → Bool
  is_zero enabled b =
      enabled && (b.status == "ok" && (not b.unlimited && holds_of signs.at_most_zero b.available))

  abbrev pub is_usable : Bool → Balance Amount → Bool
  is_usable enabled b =
      enabled && (b.status == "ok" && (b.unlimited || holds_of signs.above_zero b.available))

  abbrev pub next_checks : Bool → ℕ → ℕ
  next_checks immediate zero_checks = if immediate then 2 else zero_checks + 1

  unfoldable pub balance_protection_state : Bool → Bool → ℕ → Balance Amount → Bool → Next
  balance_protection_state enabled was zero_checks b immediate =
      if not enabled
      then record { suspended = false; checks = 0; transition = transition_of was false }
      else (if is_zero enabled b
          then record {
            suspended = leb 2 (next_checks immediate zero_checks) || was;
            checks = next_checks immediate zero_checks;
            transition = transition_of was (leb 2 (next_checks immediate zero_checks) || was);
          }
          else (if is_usable enabled b
              then record { suspended = false; checks = 0; transition = transition_of was false }
              else record { suspended = was; checks = 0; transition = transition_of was was }))

abbrev pub or_else : {A : Type 0} → Option A → Option A → Option A
or_else none b = b
or_else (some a) b = some a

abbrev pub no_balance : {Amount : Type 0} → Balance Amount
no_balance = record {
  status = "";
  available = none;
  used = none;
  currency = "";
  currency_reported = false;
  unlimited = false;
  updated_at = none;
  last_success = none;
}

abbrev pub previous_of : {Amount : Type 0} → Option (Balance Amount) → Balance Amount
previous_of none = no_balance
previous_of (some b) = b

-- What a new reading takes over from the previous one.
unfoldable pub carry : {Amount : Type 0} → ℕ → Balance Amount → Balance Amount → Balance Amount
carry now previous b = record b {
  used = or_else b.used previous.used;
  currency = if b.currency == "" && not (b.status == "ok") then previous.currency else b.currency;
  currency_reported =
      if b.currency == "" && not (b.status == "ok")
      then previous.currency_reported
      else b.currency_reported;
  last_success = or_else b.last_success (
      if b.status == "ok"
      then some now
      else or_else previous.last_success
          (if previous.status == "ok" then previous.updated_at else none));
}

abbrev pub has_balance : {Amount : Type 0} → Option (Balance Amount) → Bool
has_balance none = false
has_balance (some b) = true

abbrev pub refused : {Amount : Type 0} → SaveError → Option (BalanceRow Amount) → Saved Amount
refused error row = record {
  row = row;
  transition = BalanceTransition.unchanged;
  error = some error;
  invalidated = false;
}

-- One of the steps up to the commit fails; the transition is recorded only if there is one.
abbrev pub broken : {Amount : Type 0} → Steps → BalanceRow Amount → BalanceTransition → Bool
broken steps r transition =
    (has_balance r.balance && not steps.decode)
    || (not steps.encode
        || (not steps.update
            || ((not (is_unchanged transition) && (not steps.audit || not steps.alert))
                || not steps.commit)))

module _ {Amount : Type 0} (signs : Signs Amount) where
  -- The protection's answer for a row and a completed reading.
  abbrev pub next_of : Balance Amount → Bool → BalanceRow Amount → Next
  next_of b immediate r =
      balance_protection_state signs r.protection r.suspended r.zero_checks b immediate

  unfoldable pub write_balance : Balance Amount → Bool → Steps → BalanceRow Amount → Saved Amount
  write_balance b immediate steps r =
      let next = next_of b immediate r in
      if broken steps r next.transition then refused SaveError.step_failed (some r) else record {
        row =
            some (record r {
              suspended = next.suspended;
              zero_checks = next.checks;
              balance = some b;
            });
        transition = next.transition;
        error = none;
        invalidated = not (is_unchanged next.transition);
      }

  unfoldable pub save_balance :
      ℕ → ℕ → Balance Amount → Bool → Steps → Option (BalanceRow Amount) → Saved Amount
  save_balance now expected b immediate steps none =
      refused (if steps.query then SaveError.not_found else SaveError.step_failed) none
  save_balance now expected b immediate steps (some r) =
      if not steps.query
      then refused SaveError.step_failed (some r)
      else (if ltb 0 expected && not (nat_beq expected r.config_version)
          then refused SaveError.upstream_config_changed (some r)
          else write_balance (carry now (previous_of r.balance) b) immediate steps r)
