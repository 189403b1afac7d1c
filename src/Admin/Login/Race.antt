-- ===== src/Admin/Login/Race.antt =====
-- internal/httpapi/admin.go, `login`: requests to log in whose calls of the limiter come in any order.
pub mod Calls
pub mod Checks
use d_api.Base.{
  ℕ, suc, ◌+◌, ◌≤◌, ◌<◌, ◌≡◌, ◌⊎◌, refl, sym, subst, String, Bool, true, false, ◌&&◌, ◌||◌, none,
  List, [], ◌∷◌, ◌++◌, arith, ltb, ◌==◌, length, string_key, Bool-cases, inl, inr,
}
use d_api.Base.Maps.{lookup}
use d_api.Base.Maps.Distinct.{IsDistinct}
use d_api.Admin.Login.{LoginLimiter, quarter, wait, fail, success, Login, Phase, next_call}
use d_api.Admin.Login.Bound.{
  Tried, Counts, fail_other-Counts, fail_self-Counts, success_other-Counts, wait-Counts, wait_few,
}

abbrev pub is_failed : Phase → Bool
is_failed Phase.failed = true
is_failed _ = false

-- The password is compared and the failure is not counted yet.
abbrev pub is_flying : Phase → Bool
is_flying Phase.checking = true
is_flying Phase.failing = true
is_flying _ = false

abbrev pub is_right : Phase → Bool
is_right Phase.forgiving = true
is_right Phase.logged_in = true
is_right _ = false

abbrev pub is_checked : Phase → Bool
is_checked p = is_failed p || (is_flying p || is_right p)

abbrev pub one_if : Bool → ℕ
one_if true = 1
one_if false = 0

-- How many of the logins for an account are in a phase of that kind.
abbrev pub tally : (Phase → Bool) → String → List Login → ℕ
tally p k [] = 0
tally p k (r ∷ rs) = one_if (p r.phase && r.account_key == k) + tally p k rs

-- The passwords that were compared for an account, and the logins for it between the comparison and
-- the count of its failure.
pub checks : String → List Login → ℕ
checks k rs = tally is_checked k rs

unfoldable pub in_flight : String → List Login → ℕ
in_flight k rs = tally is_flying k rs

pub tally-split :
    (p : Phase → Bool) (k : String) (r : Login) (rs rs' : List Login)
    → tally p k (rs ++ (r ∷ rs')) ≡ one_if (p r.phase && r.account_key == k) + tally p k (rs ++ rs')
tally-split p k r [] rs' = refl
tally-split p k r (s ∷ rs) rs' = omega (arith, tally-split p k r rs rs')

one_if-checked :
    (p : Phase) (same : Bool)
    → one_if (is_checked p && same)
      ≡ one_if (is_failed p && same) + (one_if (is_flying p && same) + one_if (is_right p && same))
one_if-checked Phase.arrived same = refl
one_if-checked Phase.ip_free same = refl
one_if-checked Phase.refusing same = refl
one_if-checked Phase.checking same = ground arith
one_if-checked Phase.failing same = ground arith
one_if-checked Phase.forgiving same = ground arith
one_if-checked Phase.turned_away same = refl
one_if-checked Phase.failed same = ground arith
one_if-checked Phase.logged_in same = ground arith

pub tally-checked :
    (k : String) (rs : List Login)
    → tally is_checked k rs ≡ tally is_failed k rs + (tally is_flying k rs + tally is_right k rs)
tally-checked k [] = refl
tally-checked k (r ∷ rs) =
    omega (arith, one_if-checked r.phase (r.account_key == k), tally-checked k rs)

-- The address is not the key `k`, and if the login is for `k` then its password is wrong.
abbrev pub IsGuess : String → Login → Type 0
IsGuess k r = ((r.ip == k) ≡ false) × ((r.account_key ≡ k) → r.correct ≡ false)

abbrev pub after_call : Login → ℕ → LoginLimiter → Login
after_call r now l = record r { phase = (next_call r.phase now r l).1 }

-- The logins that came and the limiter, while at most `m` guesses for the account `k` are in flight at
-- once. A login comes at any time, and each of its calls may follow any call of another; the calls
-- fall into the quarter of an hour from `start` and find a limiter that is not full.
pub data Reach (m start : ℕ) (k : String) (l0 : LoginLimiter)
    : List Login → LoginLimiter → Type 0 where
  starts : Reach m start k l0 [] l0
  arrives :
      (r : Login) (rs : List Login) (l : LoginLimiter)
      → Reach m start k l0 rs l
      → r.phase ≡ Phase.arrived
      → Reach m start k l0 (r ∷ rs) l
  calls :
      (now : ℕ) (r : Login) (rs rs' : List Login) (l : LoginLimiter)
      → Reach m start k l0 (rs ++ (r ∷ rs')) l
      → IsGuess k r
      → start ≤ now
      → now < start + quarter
      → length l.attempts < 4096
      → in_flight k (rs ++ (after_call r now l ∷ rs')) ≤ m
      → Reach m start k l0 (rs ++ (after_call r now l ∷ rs')) (next_call r.phase now r l).0
