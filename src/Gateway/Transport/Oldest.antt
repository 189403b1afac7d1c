-- ===== src/Gateway/Transport/Oldest.antt =====
-- internal/gateway/transport.go, `client`: the loop that finds the least recently used client.
use d_api.Base.{
  ℕ, ◌≤◌, ◌<◌, ◌≡◌, ◌⊎◌, refl, sym, ap, subst, ◌||◌, none, some, [], ◌∷◌, arith, ltb, nat_beq, All,
  Bool-cases, inl, inr,
}
use d_api.Base.Maps.{Map, lookup}
use d_api.Base.Maps.Distinct.{IsDistinct}
use d_api.Gateway.Transport.{TransportKey, transport_key, TransportEntry, oldest, zero_key}

abbrev pub Entries : Type 0
Entries = Map TransportKey TransportEntry

-- Each client was used at a time, which is never the zero time.
abbrev pub IsUsed : Entries → Type 0
IsUsed m = All (λ (b : TransportKey × TransportEntry). 0 < b.1.used) m

abbrev pub IsLeast : ℕ → Entries → Type 0
IsLeast at m = All (λ (b : TransportKey × TransportEntry). at ≤ b.1.used) m

-- The key's client was used before or with all others.
abbrev pub IsOldest : TransportKey → Entries → Type 0
IsOldest key m = (e : TransportEntry) × (lookup key m ≡ some e) × IsLeast e.used m

-- The key has an entry that was used at that time.
abbrev IsEntry : TransportKey × ℕ → Entries → Type 0
IsEntry (key, at) m = (e : TransportEntry) × (lookup key m ≡ some e) × (e.used ≡ at)

IsEntry-later :
    (b : TransportKey × ℕ) (j : TransportKey) (w : TransportEntry) (m : Entries)
    → lookup j m ≡ none
    → IsEntry b m
    → IsEntry b ((j, w) ∷ m)
unfolding lookup
IsEntry-later (key, at) j w m fresh (e, found, used) =
    (e, ground (arith, fresh, found, transport_key.same_iff j key), used)

IsEntry-first :
    (j : TransportKey) (w : TransportEntry) (m : Entries) (b : TransportKey × ℕ)
    → b ≡ (j, w.used)
    → IsEntry b ((j, w) ∷ m)
unfolding lookup
IsEntry-first j w m (key, at) same =
    let same_key : key ≡ j = ap (λ (b : TransportKey × ℕ). b.0) same in
    (
      w,
      ground (arith, same_key, transport_key.same_iff j key),
      ap (λ (b : TransportKey × ℕ). b.1) (sym same),
    )

-- What the loop has found over a list.
abbrev Found : Entries → TransportKey × ℕ → TransportKey × ℕ → Type 0
Found m best b = ((b ≡ best) ⊎ IsEntry b m) × (b.1 ≤ best.1) × IsLeast b.1 m

Found-newer :
    (key : TransportKey) (e : TransportEntry) (m : Entries) (best b : TransportKey × ℕ)
    → lookup key m ≡ none
    → e.used ≤ best.1
    → Found m (key, e.used) b
    → Found ((key, e) ∷ m) best b
Found-newer key e m best b fresh newer (inl same, bound, least) =
    (inr (IsEntry-first key e m b same), omega (arith, newer, bound), (bound, least))
Found-newer key e m best b fresh newer (inr there, bound, least) =
    (inr (IsEntry-later b key e m fresh there), omega (arith, newer, bound), (bound, least))

Found-older :
    (key : TransportKey) (e : TransportEntry) (m : Entries) (best b : TransportKey × ℕ)
    → lookup key m ≡ none
    → best.1 ≤ e.used
    → Found m best b
    → Found ((key, e) ∷ m) best b
Found-older key e m best b fresh older (inl same, bound, least) =
    (inl same, bound, (omega (arith, older, bound), least))
Found-older key e m best b fresh older (inr there, bound, least) =
    (inr (IsEntry-later b key e m fresh there), bound, (omega (arith, older, bound), least))

-- The loop finds the entry that it starts with or one of the list, and none was used before it.
oldest-Found :
    (m : Entries) (best : TransportKey × ℕ)
    → IsDistinct m
    → IsUsed m
    → 0 < best.1
    → Found m best (oldest m best)
unfolding oldest
oldest-Found [] best d u h = (inl refl, omega arith, tt)
oldest-Found ((key, e) ∷ m) best d u h = elim (Bool-cases (nat_beq best.1 0 || ltb e.used best.1)) [
  | inl newer ↦
      let next : oldest ((key, e) ∷ m) best ≡ oldest m (key, e.used) = rw (newer, oldest) refl in
      subst (Found ((key, e) ∷ m) best) (sym next) (
        Found-newer key e m best (oldest m (key, e.used)) d.0 (ground (arith, newer, h))
          (oldest-Found m (key, e.used) d.1 u.1 u.0))
  | inr older ↦
      let next : oldest ((key, e) ∷ m) best ≡ oldest m best = rw (older, oldest) refl in
      subst (Found ((key, e) ∷ m) best) (sym next) (
        Found-older key e m best (oldest m best) d.0 (ground (arith, older))
          (oldest-Found m best d.1 u.1 h))
]

IsEntry-IsOldest :
    (b : TransportKey × ℕ) (m : Entries) → IsEntry b m → IsLeast b.1 m → IsOldest b.0 m
IsEntry-IsOldest (key, at) m (e, found, used) least =
    (e, found, subst (λ n. IsLeast n m) (sym used) least)

Found-IsOldest :
    (b : TransportKey × ℕ) (key : TransportKey) (e : TransportEntry) (m : Entries)
    → Found ((key, e) ∷ m) (key, e.used) b
    → IsOldest b.0 ((key, e) ∷ m)
Found-IsOldest b key e m (inl same, bound, least) =
    IsEntry-IsOldest b ((key, e) ∷ m) (IsEntry-first key e m b same) least
Found-IsOldest b key e m (inr there, bound, least) = IsEntry-IsOldest b ((key, e) ∷ m) there least

-- With no time to compare with, the first client is taken.
pub oldest-IsOldest :
    (b : TransportKey × TransportEntry) (m : Entries)
    → IsDistinct (b ∷ m)
    → IsUsed (b ∷ m)
    → IsOldest (oldest (b ∷ m) (zero_key, 0)).0 (b ∷ m)
unfolding oldest
oldest-IsOldest (key, e) m d u = Found-IsOldest (oldest m (key, e.used)) key e m (
    Found-newer key e m (key, e.used) (oldest m (key, e.used)) d.0 (omega arith)
      (oldest-Found m (key, e.used) d.1 u.1 u.0))
