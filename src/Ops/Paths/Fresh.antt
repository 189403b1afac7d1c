-- ===== src/Ops/Paths/Fresh.antt =====
-- internal/ops/probe_cache.go: a path is used only if it was found within the last hour.
use d_api.Base.{
  ℕ, ◌+◌, ◌≤◌, ◌<◌, ◌≡◌, ◌⊎◌, refl, String, List, [], ◌∷◌, arith, ltb, leb, length, nat_beq,
  nat_key, string_key, Option-cases, Bool-cases, inl, inr,
}
use d_api.Base.Maps.{lookup, delete, retain, length-insert, length-delete}
use d_api.Base.Maps.Distinct.{length-retain_le}
use d_api.Base.Maps.Every.{Every, Every-lookup, Every-insert, Every-retain}
use d_api.Ops.Paths.{
  BalancePath, Paths, hour, preferred_balance_path, is_known, remember_balance_path,
  forget_balance_path,
}

-- A probe that found a path.
pub record Finding : Type 0 where
  pub key : ℕ
  pub path : String
  pub at : ℕ

-- Some finding of the list is this one.
abbrev pub Found : ℕ → String → ℕ → List Finding → Type 0
Found key path at [] = ⊥
Found key path at (f ∷ fs) = ((f.key ≡ key) × (f.path ≡ path) × (f.at ≡ at)) ⊎ Found key path at fs

pub data Call : Type 0 where
  asking : ℕ → ℕ → Call
  finding : Finding → Call
  forgetting : ℕ → Call

abbrev pub exec : Call → Paths → Paths
exec (Call.asking key now) paths = (preferred_balance_path key now paths).0
exec (Call.finding f) paths = remember_balance_path f.key f.path f.at paths
exec (Call.forgetting key) paths = forget_balance_path key paths

-- The findings among the calls.
abbrev pub findings : Call → List Finding → List Finding
findings (Call.asking key now) fs = fs
findings (Call.finding f) fs = f ∷ fs
findings (Call.forgetting key) fs = fs

pub data Reach : List Finding → Paths → Type 0 where
  starts : Reach [] []
  steps :
      (c : Call) (fs : List Finding) (paths : Paths)
      → Reach fs paths
      → Reach (findings c fs) (exec c paths)

-- Where an entry comes from.
abbrev Comes : List Finding → ℕ → BalancePath → Type 0
Comes fs key e = (at : ℕ) × (e.expires ≡ at + hour) × Found key e.path at fs

Every-delete : (P : ℕ → BalancePath → Type 0) (k : ℕ) (m : Paths) → Every P m → Every P (delete k m)
unfolding delete
Every-delete P k [] all = tt
Every-delete P k ((j, w) ∷ m) all = elim (Bool-cases (nat_beq j k)) [
  | inl same ↦ rw (same, delete) (Every-delete P k m all.1)
  | inr other ↦ rw (other, delete) (all.0, Every-delete P k m all.1)
]

Every-Comes :
    (f : Finding) (fs : List Finding) (m : Paths) → Every (Comes fs) m → Every (Comes (f ∷ fs)) m
Every-Comes f fs [] all = tt
Every-Comes f fs ((k, e) ∷ m) all =
    let (at, expires, found) = all.0 in ((at, expires, inr found), Every-Comes f fs m all.1)

-- The entries come from findings, and there are at most 1024.
abbrev Kept : List Finding → Paths → Type 0
Kept fs paths = Every (Comes fs) paths × (length paths ≤ 1024)

delete-Kept : (k : ℕ) (fs : List Finding) (m : Paths) → Kept fs m → Kept fs (delete k m)
delete-Kept k fs m h = (Every-delete (Comes fs) k m h.0, omega (arith, h.1, length-delete k m))

preferred_balance_path-Kept :
    (key now : ℕ) (fs : List Finding) (paths : Paths)
    → Kept fs paths
    → Kept fs (preferred_balance_path key now paths).0
unfolding preferred_balance_path
preferred_balance_path-Kept key now fs paths h = elim (Option-cases (lookup key paths)) [
  | inl gone ↦ rw (gone, preferred_balance_path) (delete-Kept key fs paths h)
  | inr (e, found) ↦
      rw (found, preferred_balance_path)
        (elim (Bool-cases (ltb now e.expires)) [
          | inl fresh ↦ rw fresh h
          | inr old ↦ rw old (delete-Kept key fs paths h)
        ])
]

remember_balance_path-Kept :
    (f : Finding) (fs : List Finding) (paths : Paths)
    → Kept fs paths
    → Kept (f ∷ fs) (remember_balance_path f.key f.path f.at paths)
unfolding remember_balance_path
remember_balance_path-Kept f fs paths h =
    let kept = retain (λ (k : ℕ) (e : BalancePath). ltb f.at e.expires) paths in
    let new : BalancePath = record { path = f.path; expires = f.at + hour } in
    let all = Every-Comes f fs paths h.0 in
    let rest = Every-retain (Comes (f ∷ fs)) (λ k e. ltb f.at e.expires) paths all in
    let few = length-retain_le (λ (k : ℕ) (e : BalancePath). ltb f.at e.expires) paths in
    elim (Bool-cases (is_known f.path f.at (lookup f.key paths))) [
      | inl known ↦ rw (known, remember_balance_path) (all, h.1)
      | inr unknown ↦
          rw (unknown, remember_balance_path)
            (elim (Bool-cases (leb 1024 (length kept))) [
              | inl full ↦ rw full (rest, omega (arith, h.1, few))
              | inr fits ↦ rw fits (
                Every-insert (Comes (f ∷ fs)) f.key new kept (f.at, refl, inl (refl, refl, refl))
                    rest,
                ground (arith, fits, length-insert f.key new kept),
              )
            ])
    ]

exec-Kept :
    (c : Call) (fs : List Finding) (paths : Paths)
    → Kept fs paths
    → Kept (findings c fs) (exec c paths)
unfolding forget_balance_path
exec-Kept (Call.asking key now) fs paths h = preferred_balance_path-Kept key now fs paths h
exec-Kept (Call.forgetting key) fs paths h = delete-Kept key fs paths h
exec-Kept (Call.finding f) fs paths h = remember_balance_path-Kept f fs paths h

Reach-Kept : (fs : List Finding) (paths : Paths) → Reach fs paths → Kept fs paths
Reach-Kept _ _ Reach.starts = (tt, omega arith)
Reach-Kept _ _ (Reach.steps c fs paths r) = exec-Kept c fs paths (Reach-Kept fs paths r)

-- However paths are asked for, found and forgotten, the path that is preferred for an upstream is one
-- that a probe of it found less than an hour ago, or none; and at most 1024 are kept.
pub Reach-preferred_balance_path :
    (fs : List Finding) (paths : Paths) (key now : ℕ)
    → Reach fs paths
    → (length paths ≤ 1024)
      × (((preferred_balance_path key now paths).1 ≡ "")
          ⊎ ((at : ℕ) × (now < at + hour)
              × Found key (preferred_balance_path key now paths).1 at fs))
unfolding preferred_balance_path
Reach-preferred_balance_path fs paths key now r =
    let (all, few) = Reach-Kept fs paths r in
    (
      few,
      elim (Option-cases (lookup key paths)) [
        | inl gone ↦ rw (gone, preferred_balance_path) (inl refl)
        | inr (e, found) ↦
            let (at, expires, source) = Every-lookup (Comes fs) key e paths all found in
            rw (found, preferred_balance_path)
              (elim (Bool-cases (ltb now e.expires)) [
                | inl fresh ↦ rw fresh (inr (at, ground (arith, fresh, expires), source))
                | inr old ↦ rw old (inl refl)
              ])
      ],
    )
