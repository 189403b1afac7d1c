-- ===== src/Admin/Login/Bound.antt =====
-- internal/httpapi/admin.go, `loginLimiter`: what it keeps of the failures of a key.
use d_api.Base.{
  ℕ, suc, ◌+◌, ◌-◌, ◌≤◌, ◌<◌, ◌≡◌, refl, sym, subst, String, false, not, ◌&&◌, Option, none, some,
  arith, ltb, nat_beq, ◌==◌, length, string_key, if◌then◌else◌, Bool-cases, inl, inr,
}
use d_api.Base.Maps.{lookup, insert, lookup-insert, lookup-delete}
use d_api.Base.Maps.Distinct.{
  IsDistinct, kept, lookup-retain, retain-IsDistinct, insert-IsDistinct, delete-IsDistinct,
  length-retain_le,
}
use d_api.Admin.Login.{
  LoginAttempt, LoginLimiter, minute, quarter, attempt_or_zero, is_stale, is_full, cleanup, wait,
  failed_again, fail, success,
}

-- What is kept of a key after `n` failures since `start`.
abbrev pub Tried : ℕ → ℕ → Option LoginAttempt → Type 0
Tried start n none = n ≡ 0
Tried start n (some e) =
    (e.count ≡ n) × (start ≤ e.window_start) × (5 ≤ n → start + quarter ≤ e.blocked_till)

-- The key `k` failed `n` times since `start`.
pub record Counts (start : ℕ) (k : String) (n : ℕ) (l : LoginLimiter) : Type 0 where
  pub distinct : IsDistinct l.attempts
  pub tried : Tried start n (lookup k l.attempts)

Tried-kept :
    (start n now : ℕ) (o : Option LoginAttempt)
    → now < start + quarter
    → Tried start n o
    → Tried start n (kept (λ e. not (is_stale now e)) o)
Tried-kept start n now none soon h = h
Tried-kept start n now (some e) soon h = ground (arith, soon, h)

cleanup-Counts :
    (start n now : ℕ) (k : String) (l : LoginLimiter)
    → now < start + quarter
    → Counts start k n l
    → Counts start k n (cleanup now l)
unfolding cleanup
cleanup-Counts start n now k l soon i =
    elim (Bool-cases (not (nat_beq l.last_cleanup 0) && ltb now (l.last_cleanup + minute))) [
      | inl early ↦ rw (early, cleanup) i
      | inr due ↦
          rw (due, cleanup)
            (record {
              distinct = retain-IsDistinct (λ ip e. not (is_stale now e)) l.attempts i.distinct;
              tried =
                  subst (Tried start n)
                    (sym (lookup-retain (λ ip e. not (is_stale now e)) k l.attempts i.distinct))
                    (Tried-kept start n now (lookup k l.attempts) soon i.tried);
            })
    ]

length-cleanup_le :
    (now : ℕ) (l : LoginLimiter) → length (cleanup now l).attempts ≤ length l.attempts
unfolding cleanup
length-cleanup_le now l =
    ground (
      arith,
      length-retain_le (λ (ip : String) (e : LoginAttempt). not (is_stale now e)) l.attempts,
    )

inserted-Counts :
    (start n m : ℕ) (k key : String) (e : LoginAttempt) (l : LoginLimiter)
    → Tried start m (if key == k then some e else lookup k l.attempts)
    → Counts start k n l
    → Counts start k m (record l { attempts = insert key e l.attempts })
inserted-Counts start n m k key e l tried i = record {
  distinct = insert-IsDistinct key e l.attempts i.distinct;
  tried = subst (Tried start m) (sym (lookup-insert key k e l.attempts)) tried;
}

pub fail_other-Counts :
    (start n now : ℕ) (k key : String) (l : LoginLimiter)
    → now < start + quarter
    → (key == k) ≡ false
    → Counts start k n l
    → Counts start k n (fail key now l).0
unfolding fail
fail_other-Counts start n now k key l soon other i =
    let l' = cleanup now l in
    let i' = cleanup-Counts start n now k l soon i in
    elim (Bool-cases (is_full key l')) [
      | inl full ↦ rw (full, fail) i'
      | inr fits ↦
          rw (fits, fail)
            (inserted-Counts start n n k key
              (failed_again now (attempt_or_zero (lookup key l'.attempts))) l' (rw other i'.tried)
              i')
    ]

Tried-failed_again :
    (start n now : ℕ) (o : Option LoginAttempt)
    → now < start + quarter
    → start ≤ now
    → quarter < start
    → Tried start n o
    → Tried start (suc n) (some (failed_again now (attempt_or_zero o)))
Tried-failed_again start n now none soon since late h = ground (arith, soon, since, late, h)
Tried-failed_again start n now (some e) soon since late h = ground (arith, soon, since, late, h)

pub fail_self-Counts :
    (start n now : ℕ) (k : String) (l : LoginLimiter)
    → now < start + quarter
    → start ≤ now
    → quarter < start
    → length l.attempts < 4096
    → Counts start k n l
    → Counts start k (suc n) (fail k now l).0
unfolding fail
fail_self-Counts start n now k l soon since late room i =
    let l' = cleanup now l in
    let i' = cleanup-Counts start n now k l soon i in
    let e = failed_again now (attempt_or_zero (lookup k l'.attempts)) in
    elim (Bool-cases (is_full k l')) [
      | inl full ↦ absurd (ground (arith, full, room, length-cleanup_le now l))
      | inr fits ↦
          rw (fits, fail)
            (inserted-Counts start n (suc n) k k e l'
              (rw ((string_key.same_iff k k).1 refl)
                (Tried-failed_again start n now (lookup k l'.attempts) soon since late i'.tried))
              i')
    ]

pub success_other-Counts :
    (start n : ℕ) (k key : String) (l : LoginLimiter)
    → (key == k) ≡ false
    → Counts start k n l
    → Counts start k n (success key l)
unfolding success
success_other-Counts start n k key l other i = record {
  distinct = delete-IsDistinct key l.attempts i.distinct;
  tried = subst (Tried start n) (sym (lookup-delete key k l.attempts)) (rw other i.tried);
}

Tried-few :
    (start n now : ℕ) (o : Option LoginAttempt)
    → now < start + quarter
    → Tried start n o
    → ltb 0 ((attempt_or_zero o).blocked_till - now) ≡ false
    → n ≤ 4
Tried-few start n now none soon h free = ground (arith, h)
Tried-few start n now (some e) soon h free = ground (arith, h, soon, free)

pub wait-Counts :
    (start n now : ℕ) (k key : String) (l : LoginLimiter)
    → now < start + quarter
    → Counts start k n l
    → Counts start k n (wait key now l).0
unfolding wait
wait-Counts start n now k key l soon i = cleanup-Counts start n now k l soon i

-- The key is let through only after four failures at most.
pub wait_few :
    (start n now : ℕ) (k : String) (l : LoginLimiter)
    → now < start + quarter
    → Counts start k n l
    → ltb 0 (wait k now l).1 ≡ false
    → n ≤ 4
unfolding wait
wait_few start n now k l soon i free =
    let l' = cleanup now l in
    let i' = cleanup-Counts start n now k l soon i in
    elim (Bool-cases (is_full k l')) [
      | inl full ↦ absurd (ground (arith, full, free))
      | inr fits ↦
          Tried-few start n now (lookup k l'.attempts) soon i'.tried (ground (arith, fits, free))
    ]
