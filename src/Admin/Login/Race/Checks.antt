-- ===== src/Admin/Login/Race/Checks.antt =====
-- internal/httpapi/admin.go, `login`: how many passwords can be tried for an account.
use d_api.Base.{
  ℕ, ◌+◌, ◌≤◌, ◌<◌, ◌≡◌, refl, sym, subst, String, Bool, ◌&&◌, none, List, ◌∷◌, ◌++◌, arith, ◌==◌,
  string_key, Bool-cases, inl, inr,
}
use d_api.Base.Maps.{lookup}
use d_api.Base.Maps.Distinct.{IsDistinct}
use d_api.Admin.Login.{LoginLimiter, quarter, Login, Phase, next_call}
use d_api.Admin.Login.Bound.{Tried, Counts}
use d_api.Admin.Login.Race.{
  is_failed, is_right, is_checked, tally, checks, in_flight, tally-split, tally-checked, after_call,
  Reach,
}
use d_api.Admin.Login.Race.Calls.{recount, call-Went}

-- What holds of the logins that came.
record Holds (m start : ℕ) (k : String) (rs : List Login) (l : LoginLimiter) : Type 0 where
  counts : Counts start k (tally is_failed k rs) l
  wrong : tally is_right k rs ≡ 0
  bound : tally is_checked k rs ≤ 4 + m

Reach-Holds :
    (m start : ℕ) (k : String) (l0 : LoginLimiter) (rs : List Login) (l : LoginLimiter)
    → quarter < start
    → Counts start k 0 l0
    → Reach m start k l0 rs l
    → Holds m start k rs l
unfolding in_flight
Reach-Holds m start k l0 _ _ late i Reach.starts = record {
  counts = i;
  wrong = refl;
  bound = omega arith;
}
Reach-Holds m start k l0 _ _ late i (Reach.arrives r rs l reach new) =
    let h = Reach-Holds m start k l0 rs l late i reach in
    record {
      counts =
          recount start (tally is_failed k rs) (tally is_failed k (r ∷ rs)) k l
            (ground (arith, new)) h.counts;
      wrong = ground (arith, new, h.wrong);
      bound = ground (arith, new, h.bound);
    }
Reach-Holds m start k l0 _ _ late i (Reach.calls now r rs rs' l reach guess since soon room few) =
    let h = Reach-Holds m start k l0 (rs ++ (r ∷ rs')) l late i reach in
    let r' = after_call r now l in
    let l' = (next_call r.phase now r l).0 in
    let n = tally is_failed k (rs ++ rs') in
    let split = λ (p : Phase → Bool) (r : Login). tally-split p k r rs rs' in
    let went =
      call-Went start now k soon n r.phase r l guess since late room
        (recount start _ _ k l (split is_failed r) h.counts)
        (ground (arith, split is_right r, h.wrong)) in
    record {
      counts = recount start _ _ k l' (sym (split is_failed r')) went.counts;
      wrong = ground (arith, split is_right r, split is_right r', h.wrong, went.wrong);
      bound = elim (Bool-cases (is_checked r'.phase && r.account_key == k)) [
        | inr out ↦ ground (arith, split is_checked r, split is_checked r', h.bound, out)
        | inl checked ↦ elim (went.few checked) [
          | inl before ↦
              ground (arith, split is_checked r, split is_checked r', h.bound, before, checked)
          | inr most ↦ ground (
            arith,
            tally-checked k (rs ++ (r' ∷ rs')),
            split is_failed r',
            split is_right r',
            split is_right r,
            h.wrong,
            went.wrong,
            most,
            few,
          )
        ]
      ];
    }

-- If nothing is kept yet of an account, then in a quarter of an hour at most `4 + m` passwords are
-- compared for it while none is right, where `m` is how many guesses for it are ever in flight at
-- once, between the comparison and the count of the failure: five if they come one after another.
-- The addresses and the other logins do not matter, as long as no address is the account's key and
-- the limiter is not full at any call.
pub Reach-checks :
    (m start : ℕ) (k : String) (l0 : LoginLimiter) (rs : List Login) (l : LoginLimiter)
    → quarter < start
    → IsDistinct l0.attempts
    → lookup k l0.attempts ≡ none
    → Reach m start k l0 rs l
    → checks k rs ≤ 4 + m
unfolding checks
Reach-checks m start k l0 rs l late distinct unseen reach =
    (Reach-Holds m start k l0 rs l late
      (record { distinct = distinct; tried = subst (Tried start 0) (sym unseen) refl }) reach).bound
