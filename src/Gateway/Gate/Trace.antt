-- ===== src/Gateway/Gate/Trace.antt =====
-- The gate against the requests that it let in and that have not ended.
use d_api.Base.{
  ℕ, zero, suc, ◌+◌, ◌-◌, ◌≤◌, ◌<◌, ◌≡◌, refl, sym, subst, true, false, ◌&&◌, Option, none, some,
  List, [], ◌∷◌, arith, ltb, nat_beq, if◌then◌else◌, nat_key, length,
}
use d_api.Base.Maps.{lookup, lookup-insert, lookup-delete}
use d_api.Gateway.Gate.{Limits, RequestGate, count_or_zero, empty, acquire, release}

-- How many of the requests belong to a key.
abbrev pub count : ℕ → List ℕ → ℕ
count k [] = 0
count k (h ∷ hs) = let rest = count k hs in if nat_beq h k then suc rest else rest

-- One request of the key ends.
abbrev pub drop_one : ℕ → List ℕ → List ℕ
drop_one k [] = []
drop_one k (h ∷ hs) = let rest = drop_one k hs in if nat_beq h k then hs else h ∷ rest

-- What the map of counts holds for a number of requests: no entry for none.
abbrev pub entry : ℕ → Option ℕ
entry zero = none
entry (suc n) = some (suc n)

-- The gate counts exactly the requests in flight, and they are within the limits.
pub record Tracks (l : Limits) (hs : List ℕ) (g : RequestGate) : Type 0 where
  pub total : g.active ≡ length hs
  pub per_key : (k : ℕ) → lookup k g.by_key ≡ entry (count k hs)
  pub total_bounded : length hs ≤ l.max_concurrent_requests
  pub key_bounded : (k : ℕ) → count k hs ≤ l.max_concurrent_per_key

count_or_zero-entry : (n : ℕ) → count_or_zero (entry n) ≡ n
count_or_zero-entry zero = refl
count_or_zero-entry (suc n) = refl

length-drop_one : (k : ℕ) (hs : List ℕ) → 0 < count k hs → suc (length (drop_one k hs)) ≡ length hs
length-drop_one k [] h = absurd (omega arith)
length-drop_one k (x ∷ hs) h = ground (arith, length-drop_one k hs)

count-drop_one_self : (k : ℕ) (hs : List ℕ) → count k (drop_one k hs) ≡ count k hs - 1
count-drop_one_self k [] = omega arith
count-drop_one_self k (x ∷ hs) = ground (arith, count-drop_one_self k hs)

count-drop_one_ne :
    (k j : ℕ) (hs : List ℕ) → nat_beq k j ≡ false → count j (drop_one k hs) ≡ count j hs
count-drop_one_ne k j [] h = refl
count-drop_one_ne k j (x ∷ hs) h = ground (arith, count-drop_one_ne k j hs h)

-- A request is let in exactly when both counts are below their limits.
pub acquire_iff :
    (l : Limits) (hs : List ℕ) (g : RequestGate) (k : ℕ)
    → Tracks l hs g
    → (acquire k l g).1
      ≡ (ltb (length hs) l.max_concurrent_requests && ltb (count k hs) l.max_concurrent_per_key)
unfolding acquire
acquire_iff l hs g k t =
    rw (t.per_key k) (rw (count_or_zero-entry (count k hs)) (rw t.total (ground arith)))

empty-Tracks : (l : Limits) → Tracks l [] empty
unfolding empty lookup
empty-Tracks l = record {
  total = refl;
  per_key = λ k. refl;
  total_bounded = omega arith;
  key_bounded = λ k. omega arith;
}

acquire-Tracks :
    (l : Limits) (hs : List ℕ) (g : RequestGate) (k : ℕ)
    → Tracks l hs g
    → (acquire k l g).1 ≡ true
    → Tracks l (k ∷ hs) (acquire k l g).0
unfolding acquire
acquire-Tracks l hs g k t ok = record {
  total = ground (arith, t.total);
  per_key = λ j. ground (
    arith,
    t.per_key k,
    t.per_key j,
    count_or_zero-entry (count k hs),
    lookup-insert k j (count_or_zero (lookup k g.by_key) + 1) g.by_key,
  );
  total_bounded = ground (arith, t.total);
  key_bounded = λ j. ground (arith, t.per_key k, count_or_zero-entry (count k hs), t.key_bounded j);
}

release-Tracks :
    (l : Limits) (hs : List ℕ) (g : RequestGate) (k : ℕ)
    → Tracks l hs g
    → 0 < count k hs
    → Tracks l (drop_one k hs) (release k g)
unfolding release
release-Tracks l hs g k t held = record {
  total = ground (arith, t.total, length-drop_one k hs held);
  per_key = λ j. ground (
    arith,
    t.per_key k,
    t.per_key j,
    count_or_zero-entry (count k hs),
    count-drop_one_self k hs,
    count-drop_one_ne k j hs,
    lookup-insert k j (count_or_zero (lookup k g.by_key) - 1) g.by_key,
    lookup-delete k j g.by_key,
  );
  total_bounded = omega (arith, t.total_bounded, length-drop_one k hs held);
  key_bounded =
      λ j. ground (arith, t.key_bounded j, count-drop_one_self k hs, count-drop_one_ne k j hs);
}

-- The histories of a gate, with the requests in flight: each `release` is the deferred one of a
-- request that was let in (handler.go), and the requests interleave in any order.
pub data Reach (l : Limits) : List ℕ → RequestGate → Type 0 where
  start : Reach l [] empty
  admit :
      {hs : List ℕ} {g : RequestGate} (k : ℕ)
      → Reach l hs g
      → (acquire k l g).1 ≡ true
      → Reach l (k ∷ hs) (acquire k l g).0
  refuse :
      {hs : List ℕ} {g : RequestGate} (k : ℕ)
      → Reach l hs g
      → (acquire k l g).1 ≡ false
      → Reach l hs (acquire k l g).0
  finish :
      {hs : List ℕ} {g : RequestGate} (k : ℕ)
      → Reach l hs g
      → 0 < count k hs
      → Reach l (drop_one k hs) (release k g)

-- A refusal changes nothing.
acquire_refused :
    (l : Limits) (g : RequestGate) (k : ℕ) → (acquire k l g).1 ≡ false → (acquire k l g).0 ≡ g
unfolding acquire
acquire_refused l g k h = ground arith

-- After any interleaving of admissions, refusals and ends of requests, the gate's total is the
-- number of requests in flight, the map holds for each key the number of its requests and no entry
-- for a key with none, and neither count is above its limit.
pub Reach-Tracks : {l : Limits} {hs : List ℕ} {g : RequestGate} → Reach l hs g → Tracks l hs g
Reach-Tracks {l} start = empty-Tracks l
Reach-Tracks {l} (admit {hs = hs} {g = g} k r ok) = acquire-Tracks l hs g k (Reach-Tracks r) ok
Reach-Tracks {l} (refuse {hs = hs} {g = g} k r bad) =
    subst (Tracks l hs) (sym (acquire_refused l g k bad)) (Reach-Tracks r)
Reach-Tracks {l} (finish {hs = hs} {g = g} k r held) = release-Tracks l hs g k (Reach-Tracks r) held

-- In any history, a request is let in exactly when fewer requests than the limit are in flight in
-- all and fewer than the key's limit under its key.
pub Reach-acquire_iff :
    {l : Limits} {hs : List ℕ} {g : RequestGate} (k : ℕ)
    → Reach l hs g
    → (acquire k l g).1
      ≡ (ltb (length hs) l.max_concurrent_requests && ltb (count k hs) l.max_concurrent_per_key)
Reach-acquire_iff {l} {hs} {g} k r = acquire_iff l hs g k (Reach-Tracks r)
