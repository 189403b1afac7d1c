-- ===== src/Base/Maps/Distinct.antt =====
-- Association lists with one binding for each key: what each operation keeps.
use d_api.Base.Tests.{Key, if◌then◌else◌}
use d_api.Base.Lists.{length}
use Prim.Native.Nat.{suc, ◌≤◌}
use mathlib.Core.Path.{◌≡◌, refl}
use mathlib.Core.Bool.{Bool}
use mathlib.Core.Option.{Option, none, some}
use mathlib.Core.List.{[], ◌∷◌}
use native.Mathlib.Omega.{arith}
use d_api.Base.Maps.{Map, lookup, insert, delete, retain, lookup-insert, lookup-delete}

-- What a filter leaves of one binding.
abbrev pub kept {ℓ} : {V : Type ℓ} → (V → Bool) → Option V → Option V
kept p none = none
kept p (some v) = if p v then some v else none

module _ {ℓ κ} {K : Type ℓ} {V : Type κ} ⦃e : Key K⦄ where
  abbrev pub IsDistinct : Map K V → Type κ
  IsDistinct [] = Unit
  IsDistinct ((k, v) ∷ m) = (lookup k m ≡ none) × IsDistinct m

  pub insert-IsDistinct : (k : K) (v : V) (m : Map K V) → IsDistinct m → IsDistinct (insert k v m)
  unfolding insert lookup
  insert-IsDistinct k v [] d = (refl, tt)
  insert-IsDistinct k v ((j, w) ∷ m) d =
      ground
        (arith, e.same_iff j k, e.same_iff k j, lookup-insert k j v m, insert-IsDistinct k v m d.1)

  pub lookup-retain :
      (p : K → V → Bool) (k : K) (m : Map K V)
      → IsDistinct m
      → lookup k (retain p m) ≡ kept (p k) (lookup k m)
  unfolding lookup retain
  lookup-retain p k [] d = refl
  lookup-retain p k ((j, w) ∷ m) d = ground (arith, e.same_iff j k, lookup-retain p k m d.1)

  pub retain-IsDistinct : (p : K → V → Bool) (m : Map K V) → IsDistinct m → IsDistinct (retain p m)
  unfolding retain
  retain-IsDistinct p [] d = d
  retain-IsDistinct p ((j, w) ∷ m) d =
      ground (arith, lookup-retain p j m d.1, retain-IsDistinct p m d.1)

  pub delete-IsDistinct : (k : K) (m : Map K V) → IsDistinct m → IsDistinct (delete k m)
  unfolding delete
  delete-IsDistinct k [] d = d
  delete-IsDistinct k ((j, w) ∷ m) d =
      ground (arith, lookup-delete k j m, delete-IsDistinct k m d.1)

  -- Inserting under a key that is bound keeps the size, and adds one otherwise.
  pub length-insert_fresh :
      (k : K) (v : V) (m : Map K V) → lookup k m ≡ none → length (insert k v m) ≡ suc (length m)
  unfolding insert lookup
  length-insert_fresh k v [] h = refl
  length-insert_fresh k v ((j, w) ∷ m) h = ground (arith, length-insert_fresh k v m)

  pub length-insert_bound :
      (k : K) (v w : V) (m : Map K V) → lookup k m ≡ some w → length (insert k v m) ≡ length m
  unfolding insert lookup
  length-insert_bound k v w [] h = absurd (cc)
  length-insert_bound k v w ((j, u) ∷ m) h = ground (arith, length-insert_bound k v w m)

  pub length-retain_le : (p : K → V → Bool) (m : Map K V) → length (retain p m) ≤ length m
  unfolding retain
  length-retain_le p [] = omega arith
  length-retain_le p ((j, w) ∷ m) = ground (arith, length-retain_le p m)
