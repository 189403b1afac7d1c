-- ===== src/Gateway/Rate/Window.antt =====
-- The rate limiter over a sequence of calls: the requests that one key gets in one window.
use d_api.Base.{
  ℕ, ◌+◌, ◌≤◌, ◌<◌, ◌≡◌, refl, not, ◌&&◌, ◌||◌, none, List, [], ◌∷◌, arith, leb, ltb, nat_beq,
  if◌then◌else◌, nat_key, inl, inr, Bool-cases, leb→le,
}
use d_api.Base.Maps.{lookup, lookup-insert}
use d_api.Base.Maps.Distinct.{IsDistinct, insert-IsDistinct, retain-IsDistinct, lookup-retain}
use d_api.Gateway.Rate.{
  RequestRate, RequestRateLimiter, rate_or_zero, minute, window_of, empty, cleanup, current, allow,
}

-- The stored rate of a key.
abbrev pub rate : ℕ → RequestRateLimiter → RequestRate
rate k l = rate_or_zero (lookup k l.entries)

-- What a key has used of a window.
abbrev pub used : ℕ → ℕ → RequestRateLimiter → ℕ
used k w l = if nat_beq (rate k l).window w then (rate k l).count else 0

-- The stored window is no later than the time, and within the maximum.
pub record Inv (k max time : ℕ) (l : RequestRateLimiter) : Type 0 where
  pub distinct : IsDistinct l.entries
  pub past : (rate k l).window ≤ window_of time
  pub within : (rate k l).count ≤ max

cleanup-IsDistinct :
    (now : ℕ) (l : RequestRateLimiter) → IsDistinct l.entries → IsDistinct (cleanup now l).entries
unfolding cleanup
cleanup-IsDistinct now l d = ground (
  arith,
  retain-IsDistinct (λ (id : ℕ) (r : RequestRate). not (ltb r.window (window_of now))) l.entries d,
)

-- The sweep keeps every rate of the current window or a later one.
rate-cleanup :
    (k now : ℕ) (l : RequestRateLimiter)
    → IsDistinct l.entries
    → rate k (cleanup now l) ≡ (
        if (nat_beq l.last_cleanup 0 || leb (l.last_cleanup + minute) now)
          && ltb (rate k l).window (window_of now)
        then rate_or_zero none
        else rate k l)
unfolding cleanup
rate-cleanup k now l d = ground (
  arith,
  lookup-retain (λ (id : ℕ) (r : RequestRate). not (ltb r.window (window_of now))) k l.entries d,
)

-- The rate that a call leaves under each key.
rate-allow :
    (k j max now : ℕ) (l : RequestRateLimiter)
    → let swept = cleanup now l in
      let entry = current j (window_of now) swept in
      rate k (allow j max now l).0 ≡ (
        if nat_beq j k
        then (if leb max entry.count then entry else record entry { count = entry.count + 1 })
        else rate k swept)
unfolding allow
rate-allow k j max now l =
    let swept = cleanup now l in
    let entry = current j (window_of now) swept in
    ground (
      arith,
      lookup-insert j k entry swept.entries,
      lookup-insert j k (record entry { count = entry.count + 1 }) swept.entries,
    )

allow-IsDistinct :
    (j max now : ℕ) (l : RequestRateLimiter)
    → IsDistinct l.entries
    → IsDistinct (allow j max now l).0.entries
unfolding allow
allow-IsDistinct j max now l d =
    let swept = cleanup now l in
    let entry = current j (window_of now) swept in
    ground (
      arith,
      insert-IsDistinct j entry swept.entries (cleanup-IsDistinct now l d),
      insert-IsDistinct j (record entry { count = entry.count + 1 }) swept.entries
          (cleanup-IsDistinct now l d),
    )

window_of_mono : (s t : ℕ) → s ≤ t → window_of s ≤ window_of t
window_of_mono s t h = omega arith

allowed-eq :
    (j max now : ℕ) (l : RequestRateLimiter)
    → (allow j max now l).1 ≡ not (leb max (current j (window_of now) (cleanup now l)).count)
unfolding allow
allowed-eq j max now l = ground arith

allow-Inv :
    (k j max time now : ℕ) (l : RequestRateLimiter)
    → time ≤ now
    → Inv k max time l
    → Inv k max now (allow j max now l).0
unfolding current
allow-Inv k j max time now l h v = record {
  distinct = allow-IsDistinct j max now l v.distinct;
  past =
      ground
        (arith, rate-allow k j max now l, rate-cleanup k now l v.distinct, window_of_mono time now);
  within = ground (arith, rate-allow k j max now l, rate-cleanup k now l v.distinct);
}

-- A granted request is one.
abbrev pub granted : ℕ → ℕ → ℕ → ℕ → RequestRateLimiter → ℕ → ℕ
granted k w j max l now =
    if (allow j max now l).1 && nat_beq j k && nat_beq (window_of now) w then 1 else 0

-- While the window lasts, what was granted is what the entry counts.
used-allow :
    (k w j max time now : ℕ) (l : RequestRateLimiter)
    → time ≤ now
    → window_of now ≤ w
    → Inv k max time l
    → granted k w j max l now + used k w l ≤ used k w (allow j max now l).0
unfolding current
used-allow k w j max time now l h lt v = ground (
  arith,
  rate-allow k j max now l,
  rate-cleanup k now l v.distinct,
  window_of_mono time now,
  allowed-eq j max now l,
)

abbrev pub IsAscending : ℕ → List (ℕ × ℕ) → Type 0
IsAscending t [] = Unit
IsAscending t ((j, now) ∷ cs) = (t ≤ now) × IsAscending now cs

-- The requests of key `k` that are let in within window `w`, over calls of (key, time).
unfoldable pub grants : ℕ → ℕ → ℕ → List (ℕ × ℕ) → RequestRateLimiter → ℕ
grants k w max [] l = 0
grants k w max ((j, now) ∷ cs) l = granted k w j max l now + grants k w max cs (allow j max now l).0

-- Past the window no more are counted.
grants_past :
    (k w max time : ℕ) (cs : List (ℕ × ℕ)) (l : RequestRateLimiter)
    → w < window_of time
    → IsAscending time cs
    → grants k w max cs l ≡ 0
unfolding grants
grants_past k w max time [] l h c = refl
grants_past k w max time ((j, now) ∷ cs) l h c =
    let later : w < window_of now = omega (arith, window_of_mono time now c.0) in
    ground (arith, grants_past k w max now cs (allow j max now l).0 later c.1)

grants-used :
    (k w max time : ℕ) (cs : List (ℕ × ℕ)) (l : RequestRateLimiter)
    → Inv k max time l
    → IsAscending time cs
    → grants k w max cs l + used k w l ≤ max
unfolding grants
grants-used k w max time [] l v c = ground (arith, v.within)
grants-used k w max time ((j, now) ∷ cs) l v c = elim (Bool-cases (leb (window_of now) w)) [
  | inl inside ↦
      let step : granted k w j max l now + used k w l ≤ used k w (allow j max now l).0 =
        used-allow k w j max time now l c.0 (leb→le _ _ inside) v in
      let rest : grants k w max cs (allow j max now l).0 + used k w (allow j max now l).0 ≤ max =
        grants-used k w max now cs (allow j max now l).0 (allow-Inv k j max time now l c.0 v) c.1 in
      omega arith
  | inr over ↦
      let none_left : grants k w max cs (allow j max now l).0 ≡ 0 =
        grants_past k w max now cs (allow j max now l).0 (ground arith) c.1 in
      ground (arith, none_left, v.within)
]

empty-Inv : (k max : ℕ) → Inv k max 0 empty
unfolding empty lookup
empty-Inv k max = record { distinct = tt; past = omega arith; within = omega arith }

-- Over any sequence of calls by any keys whose times do not go back, a fresh limiter lets in at
-- most `max` requests of one key in one minute window.
pub grants-le-max :
    (k w max : ℕ) (cs : List (ℕ × ℕ)) → IsAscending 0 cs → grants k w max cs empty ≤ max
grants-le-max k w max cs c =
    let bound : grants k w max cs empty + used k w empty ≤ max =
      grants-used k w max 0 cs empty (empty-Inv k max) c in
    omega arith

-- A refusal happens only when the window's allowance is used up: a request is let in exactly when
-- what the key has used of the current window is below the maximum, provided that the limiter's
-- entries have one binding for each key.
pub allow_iff :
    (k max now : ℕ) (l : RequestRateLimiter)
    → IsDistinct l.entries
    → (allow k max now l).1 ≡ ltb (used k (window_of now) l) max
unfolding current
allow_iff k max now l d = ground (arith, allowed-eq k max now l, rate-cleanup k now l d)
