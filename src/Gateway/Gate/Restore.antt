-- ===== src/Gateway/Gate/Restore.antt =====
-- internal/gateway/limits.go, `requestGate`: a request that leaves gives back what it took.
use d_api.Base.{ℕ, ◌+◌, ◌≡◌, true, false, arith, nat_key}
use d_api.Base.Maps.{lookup, insert, lookup-insert, lookup-delete}
use d_api.Gateway.Gate.{Limits, RequestGate, acquire, release, count_or_zero}

pub release-acquire :
    (k : ℕ) (l : Limits) (g : RequestGate) (j : ℕ)
    → (acquire k l g).1 ≡ true
    → ((release k (acquire k l g).0).active ≡ g.active)
      × (count_or_zero (lookup j (release k (acquire k l g).0).by_key)
          ≡ count_or_zero (lookup j g.by_key))
unfolding acquire release
release-acquire k l g j h = ground (
  arith,
  h,
  nat_key.same_iff k j,
  nat_key.same_iff k k,
  lookup-insert k k (count_or_zero (lookup k g.by_key) + 1) g.by_key,
  lookup-insert k j (count_or_zero (lookup k g.by_key) + 1) g.by_key,
  lookup-insert k j (count_or_zero (lookup k g.by_key))
      (insert k (count_or_zero (lookup k g.by_key) + 1) g.by_key),
  lookup-delete k j (insert k (count_or_zero (lookup k g.by_key) + 1) g.by_key),
)

pub refused-acquire :
    (k : ℕ) (l : Limits) (g : RequestGate) → (acquire k l g).1 ≡ false → (acquire k l g).0 ≡ g
unfolding acquire
refused-acquire k l g h = ground (arith, h)
