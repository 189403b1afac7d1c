-- ===== src/Admin/Login/Race/Calls.antt =====
-- internal/httpapi/admin.go, `login`: what one call makes of the failures that are counted.
use d_api.Base.{
  ℕ, suc, ◌+◌, ◌≤◌, ◌<◌, ◌≡◌, ◌⊎◌, refl, sym, subst, String, Bool, true, false, ◌&&◌, arith, ltb,
  ◌==◌, length, string_key, Bool-cases, inl, inr,
}
use d_api.Admin.Login.{LoginLimiter, quarter, wait, fail, success, Login, Phase, next_call}
use d_api.Admin.Login.Bound.{
  Counts, fail_other-Counts, fail_self-Counts, success_other-Counts, wait-Counts, wait_few,
}
use d_api.Admin.Login.Race.{is_failed, is_right, is_checked, one_if, IsGuess}

-- What a call makes of a login for `k` (`same`) or another, when `n` others have failed for `k`.
pub record Went (start : ℕ) (k : String) (n : ℕ) (p p' : Phase) (same : Bool) (l' : LoginLimiter)
    : Type 0 where
  pub counts : Counts start k (one_if (is_failed p' && same) + n) l'
  pub wrong : (is_right p' && same) ≡ false
  pub few :
      (is_checked p' && same ≡ true)
      → ((is_checked p && same) ≡ true) ⊎ (one_if (is_failed p' && same) + n ≤ 4)

pub recount :
    (start n m : ℕ) (k : String) (l : LoginLimiter)
    → n ≡ m
    → Counts start k n l
    → Counts start k m l
recount start n m k l same i = subst (λ c. Counts start k c l) same i

added :
    (start n : ℕ) (k : String) (l : LoginLimiter) → Counts start k n l → Counts start k (0 + n) l
added start n k l i = recount start n (0 + n) k l (omega arith) i

module _ (start now : ℕ) (k : String) (soon : now < start + quarter) where
  -- No password is compared.
  unmoved :
      (n : ℕ) (p p' : Phase) (same : Bool) (l' : LoginLimiter)
      → is_checked p' ≡ false
      → Counts start k n l'
      → Went start k n p p' same l'
  unmoved n p p' same l' h i = record {
    counts = recount start n (one_if (is_failed p' && same) + n) k l' (ground (arith, h)) i;
    wrong = ground (arith, h);
    few = λ checked. absurd (ground (arith, h, checked));
  }

  arrived-Went :
      (n : ℕ) (r : Login) (l : LoginLimiter)
      → Counts start k n l
      → let after = next_call Phase.arrived now r l in
        Went start k n Phase.arrived after.1 (r.account_key == k) after.0
  unfolding next_call
  arrived-Went n r l i =
      unmoved n Phase.arrived (next_call Phase.arrived now r l).1 (r.account_key == k)
        (wait r.ip now l).0 (ground arith) (wait-Counts start n now k r.ip l soon i)

  ip_free-Went :
      (n : ℕ) (r : Login) (l : LoginLimiter)
      → Counts start k n l
      → let after = next_call Phase.ip_free now r l in
        Went start k n Phase.ip_free after.1 (r.account_key == k) after.0
  unfolding next_call
  ip_free-Went n r l i =
      let waited = wait r.account_key now l in
      let same = r.account_key == k in
      let i' = wait-Counts start n now k r.account_key l soon i in
      elim (Bool-cases (ltb 0 waited.1)) [
        | inl blocked ↦ rw blocked (unmoved n Phase.ip_free Phase.turned_away same waited.0 refl i')
        | inr free ↦ elim (Bool-cases r.too_long) [
          | inl long ↦
              rw (free, long) (unmoved n Phase.ip_free Phase.refusing same waited.0 refl i')
          | inr short ↦
              rw (free, short)
                (record {
                  counts = added start n k waited.0 i';
                  wrong = refl;
                  few = λ mine.
                      let eq : r.account_key ≡ k = (string_key.same_iff r.account_key k).0 mine in
                      let most : n ≤ 4 =
                        wait_few start n now k l soon i
                          (subst (λ key. ltb 0 (wait key now l).1 ≡ false) eq free) in
                      inr (omega (arith, most));
                })
        ]
      ]

  checking-Went :
      (n : ℕ) (r : Login) (l : LoginLimiter)
      → IsGuess k r
      → Counts start k n l
      → let after = next_call Phase.checking now r l in
        Went start k n Phase.checking after.1 (r.account_key == k) after.0
  unfolding next_call
  checking-Went n r l (other, wrong) i = elim (Bool-cases r.correct) [
    | inl right ↦
        let apart : (r.account_key == k) ≡ false =
          ground (arith, right, wrong, string_key.same_iff r.account_key k) in
        rw (right, apart)
          (record {
            counts =
                added start n k (success r.ip l) (success_other-Counts start n k r.ip l other i);
            wrong = refl;
            few = λ checked. absurd (cc);
          })
    | inr bad ↦ rw bad (record {
      counts =
          added start n k (fail r.ip now l).0 (fail_other-Counts start n now k r.ip l soon other i);
      wrong = refl;
      few = λ checked. inl checked;
    })
  ]

  failing-Went :
      (n : ℕ) (r : Login) (l : LoginLimiter)
      → start ≤ now
      → quarter < start
      → length l.attempts < 4096
      → Counts start k n l
      → let after = next_call Phase.failing now r l in
        Went start k n Phase.failing after.1 (r.account_key == k) after.0
  unfolding next_call
  failing-Went n r l since late room i = elim (Bool-cases (r.account_key == k)) [
    | inl mine ↦
        let eq : r.account_key ≡ k = (string_key.same_iff r.account_key k).0 mine in
        rw mine (record {
          counts =
              subst (λ key. Counts start k (1 + n) (fail key now l).0) (sym eq)
                (recount start (suc n) (1 + n) k _ (omega arith)
                  (fail_self-Counts start n now k l soon since late room i));
          wrong = refl;
          few = λ checked. inl refl;
        })
    | inr apart ↦ rw apart (record {
      counts =
          added start n k (fail r.account_key now l).0
            (fail_other-Counts start n now k r.account_key l soon apart i);
      wrong = refl;
      few = λ checked. absurd (cc);
    })
  ]

  forgiving-Went :
      (n : ℕ) (r : Login) (l : LoginLimiter)
      → (r.account_key == k) ≡ false
      → Counts start k n l
      → let after = next_call Phase.forgiving now r l in
        Went start k n Phase.forgiving after.1 (r.account_key == k) after.0
  unfolding next_call
  forgiving-Went n r l apart i = rw apart (record {
    counts =
        added start n k (success r.account_key l)
          (success_other-Counts start n k r.account_key l apart i);
    wrong = refl;
    few = λ checked. absurd (cc);
  })

  bare : (n : ℕ) (l : LoginLimiter) → Counts start k (0 + n) l → Counts start k n l
  bare n l i = recount start (0 + n) n k l (omega arith) i

  pub call-Went :
      (n : ℕ) (p : Phase) (r : Login) (l : LoginLimiter)
      → IsGuess k r
      → start ≤ now
      → quarter < start
      → length l.attempts < 4096
      → Counts start k (one_if (is_failed p && r.account_key == k) + n) l
      → (is_right p && r.account_key == k) ≡ false
      → Went start k n p (next_call p now r l).1 (r.account_key == k) (next_call p now r l).0
  unfolding next_call
  call-Went n Phase.arrived r l guess since late room i right = arrived-Went n r l (bare n l i)
  call-Went n Phase.ip_free r l guess since late room i right = ip_free-Went n r l (bare n l i)
  call-Went n Phase.refusing r l guess since late room i right =
      unmoved n Phase.refusing Phase.turned_away (r.account_key == k) (fail r.ip now l).0 refl
        (fail_other-Counts start n now k r.ip l soon guess.0 (bare n l i))
  call-Went n Phase.checking r l guess since late room i right =
      checking-Went n r l guess (bare n l i)
  call-Went n Phase.failing r l guess since late room i right =
      failing-Went n r l since late room (bare n l i)
  call-Went n Phase.forgiving r l guess since late room i right =
      forgiving-Went n r l right (bare n l i)
  call-Went n Phase.turned_away r l guess since late room i right =
      unmoved n Phase.turned_away Phase.turned_away (r.account_key == k) l refl (bare n l i)
  call-Went n Phase.failed r l guess since late room i right = record {
    counts = i;
    wrong = right;
    few = λ checked. inl checked;
  }
  call-Went n Phase.logged_in r l guess since late room i right = record {
    counts = i;
    wrong = right;
    few = λ checked. inl checked;
  }
