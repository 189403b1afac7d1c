-- ===== src/Base/Maps/Every.antt =====
-- What holds of every binding of a Go map.
use mathlib.Core.Path.{◌≡◌, subst}
use mathlib.Core.Logic.{inl, inr}
use mathlib.Core.Bool.{Bool}
use mathlib.Core.Option.{some}
use mathlib.Core.List.{[], ◌∷◌}
use native.Mathlib.Omega.{arith}
use d_api.Base.Tests.{Key, ◌==◌, Bool-cases}
use d_api.Base.Maps.{Map, lookup, insert, retain}

module _ {ℓ κ μ} {K : Type ℓ} {V : Type κ} ⦃e : Key K⦄ where
  abbrev pub Every : (K → V → Type μ) → Map K V → Type μ
  Every P [] = Unit
  Every P ((k, v) ∷ m) = P k v × Every P m

  pub Every-lookup :
      (P : K → V → Type μ) (k : K) (v : V) (m : Map K V) → Every P m → lookup k m ≡ some v → P k v
  unfolding lookup
  Every-lookup P k v [] all h = absurd (cc)
  Every-lookup P k v ((j, w) ∷ m) all h = elim (Bool-cases (j == k)) [
    | inl same ↦
        let here : w ≡ v = ground (arith, same, h) in
        subst (λ i. P i v) ((e.same_iff j k).0 same) (subst (P j) here all.0)
    | inr other ↦ Every-lookup P k v m all.1 (ground (arith, other, h))
  ]

  pub Every-insert :
      (P : K → V → Type μ) (k : K) (v : V) (m : Map K V)
      → P k v
      → Every P m
      → Every P (insert k v m)
  unfolding insert
  Every-insert P k v [] here all = (here, tt)
  Every-insert P k v ((j, w) ∷ m) here all = elim (Bool-cases (j == k)) [
    | inl same ↦ rw (same, insert) (here, all.1)
    | inr other ↦ rw (other, insert) (all.0, Every-insert P k v m here all.1)
  ]

  pub Every-retain :
      (P : K → V → Type μ) (p : K → V → Bool) (m : Map K V) → Every P m → Every P (retain p m)
  unfolding retain
  Every-retain P p [] all = tt
  Every-retain P p ((j, w) ∷ m) all = elim (Bool-cases (p j w)) [
    | inl kept ↦ rw (kept, retain) (all.0, Every-retain P p m all.1)
    | inr out ↦ rw (out, retain) (Every-retain P p m all.1)
  ]
