-- ===== src/Core/Routing.antt =====
-- The choice of the upstreams that a request tries (handler.go, `proxy`): a stable sort of the
-- candidates by priority, those that support the request, and at most the attempts allowed.
use mathlib.Core.List.Perm
use mathlib.Core.List.{Perm}
use d_api.Base.{
  ℕ, zero, suc, ◌≤◌, ◌≡◌, refl, String, Bool, true, List, [], ◌∷◌, arith, leb, ltb, nat_beq, ◌∙◌,
  if◌then◌else◌, length, length-take, All-take, keep, take, All, Bool-cases, inl, inr, ◌⊎◌,
}
use d_api.Core.{Upstream, supports}

-- `sort.SliceStable` by priority, as the insertion sort that keeps equal priorities in order.
unfoldable pub insert_by_priority : Upstream → List Upstream → List Upstream
insert_by_priority u [] = u ∷ []
insert_by_priority u (v ∷ vs) =
    let rest = insert_by_priority u vs in if leb u.priority v.priority then u ∷ v ∷ vs else v ∷ rest

unfoldable pub sort_by_priority : List Upstream → List Upstream
sort_by_priority [] = []
sort_by_priority (u ∷ us) = insert_by_priority u (sort_by_priority us)

-- `maxAttempts` within 1 and 5.
unfoldable pub clamp_attempts : ℕ → ℕ
clamp_attempts n = if ltb n 1 then 1 else (if ltb 5 n then 5 else n)

unfoldable pub eligible : List Upstream → String → String → ℕ → ℕ → List Upstream
unfolding clamp_attempts
eligible candidates protocol model now max_attempts =
    take (clamp_attempts max_attempts)
      (keep (λ u. supports u protocol model now) (sort_by_priority candidates))

-- In the order of priority.
abbrev pub IsSorted : List Upstream → Type 0
IsSorted [] = Unit
IsSorted (u ∷ us) = All (λ (v : Upstream). u.priority ≤ v.priority) us × IsSorted us

All-insert :
    (n : ℕ) (u : Upstream) (us : List Upstream)
    → n ≤ u.priority
    → All (λ (v : Upstream). n ≤ v.priority) us
    → All (λ (v : Upstream). n ≤ v.priority) (insert_by_priority u us)
unfolding insert_by_priority
All-insert n u [] h a = (h, tt)
All-insert n u (v ∷ vs) h a = ground (arith, All-insert n u vs h a.1)

All-weaken :
    (m n : ℕ) (us : List Upstream)
    → m ≤ n
    → All (λ (v : Upstream). n ≤ v.priority) us
    → All (λ (v : Upstream). m ≤ v.priority) us
All-weaken m n [] h a = tt
All-weaken m n (v ∷ vs) h a = (omega arith, All-weaken m n vs h a.1)

insert-IsSorted :
    (u : Upstream) (us : List Upstream) → IsSorted us → IsSorted (insert_by_priority u us)
unfolding insert_by_priority
insert-IsSorted u [] s = (tt, tt)
insert-IsSorted u (v ∷ vs) s = elim (Bool-cases (leb u.priority v.priority)) [
  | inl le ↦ rw le ((ground arith, All-weaken u.priority v.priority vs (ground arith) s.0), s)
  | inr gt ↦ rw gt (All-insert v.priority u vs (ground arith) s.0, insert-IsSorted u vs s.1)
]

sort-IsSorted : (us : List Upstream) → IsSorted (sort_by_priority us)
unfolding sort_by_priority
sort-IsSorted [] = tt
sort-IsSorted (u ∷ us) = insert-IsSorted u (sort_by_priority us) (sort-IsSorted us)

insert-perm : (u : Upstream) (us : List Upstream) → Perm (insert_by_priority u us) (u ∷ us)
unfolding insert_by_priority
insert-perm u [] = Perm.refl (u ∷ [])
insert-perm u (v ∷ vs) = elim (Bool-cases (leb u.priority v.priority)) [
  | inl le ↦ rw le (Perm.refl (u ∷ v ∷ vs))
  | inr gt ↦ rw gt (Perm.trans (Perm.cons v (insert-perm u vs)) (Perm.swap u v vs))
]

pub sort-perm : (us : List Upstream) → Perm (sort_by_priority us) us
unfolding sort_by_priority
sort-perm [] = Perm.refl []
sort-perm (u ∷ us) = Perm.trans (insert-perm u (sort_by_priority us)) (Perm.cons u (sort-perm us))

abbrev has_priority : ℕ → Upstream → Bool
has_priority n u = nat_beq u.priority n

insert_stable :
    (n : ℕ) (u : Upstream) (us : List Upstream)
    → keep (has_priority n) (insert_by_priority u us) ≡ keep (has_priority n) (u ∷ us)
unfolding insert_by_priority
insert_stable n u [] = refl
insert_stable n u (v ∷ vs) = ground (arith, insert_stable n u vs)

keep_sorted :
    (n : ℕ) (us : List Upstream)
    → keep (has_priority n) (sort_by_priority us) ≡ keep (has_priority n) us
unfolding sort_by_priority
keep_sorted n [] = refl
keep_sorted n (u ∷ us) = insert_stable n u (sort_by_priority us) ∙ ground (arith, keep_sorted n us)

-- The sort is stable: candidates of one priority stay in the order in which the repository lists
-- them, and the result is in the order of priority and has the same candidates.
pub sort_by_priority_stable :
    (us : List Upstream)
    → ((n : ℕ)
        → keep (λ u. nat_beq u.priority n) (sort_by_priority us)
          ≡ keep (λ u. nat_beq u.priority n) us)
      × IsSorted (sort_by_priority us)
      × (Perm (sort_by_priority us) us)
unfolding sort_by_priority
sort_by_priority_stable us = (λ n. keep_sorted n us, sort-IsSorted us, sort-perm us)

All-keep :
    (P : Upstream → Type 0) (p : Upstream → Bool) (us : List Upstream)
    → All P us
    → All P (keep p us)
All-keep P p [] a = a
All-keep P p (v ∷ vs) a = elim (Bool-cases (p v)) [
  | inl e ↦ rw e (a.0, All-keep P p vs a.1)
  | inr e ↦ rw e (All-keep P p vs a.1)
]

IsSorted-keep : (p : Upstream → Bool) (us : List Upstream) → IsSorted us → IsSorted (keep p us)
IsSorted-keep p [] s = tt
IsSorted-keep p (v ∷ vs) s = elim (Bool-cases (p v)) [
  | inl e ↦ rw e (All-keep _ p vs s.0, IsSorted-keep p vs s.1)
  | inr e ↦ rw e (IsSorted-keep p vs s.1)
]

pub IsSorted-take : (n : ℕ) (us : List Upstream) → IsSorted us → IsSorted (take n us)
IsSorted-take zero us s = tt
IsSorted-take (suc n) [] s = tt
IsSorted-take (suc n) (v ∷ vs) s = (All-take _ n vs s.0, IsSorted-take n vs s.1)

keep_passes : (p : Upstream → Bool) (us : List Upstream) → All (λ u. p u ≡ true) (keep p us)
keep_passes p [] = tt
keep_passes p (v ∷ vs) = elim (Bool-cases (p v)) [
  | inl e ↦ rw e (e, keep_passes p vs)
  | inr e ↦ rw e (keep_passes p vs)
]

-- `u` is one of the upstreams.
abbrev pub Among : Upstream → List Upstream → Type 0
Among u [] = ⊥
Among u (v ∷ vs) = (u ≡ v) ⊎ Among u vs

All-Among :
    (w : Upstream) (all us : List Upstream)
    → All (λ u. Among u all) us
    → All (λ u. Among u (w ∷ all)) us
All-Among w all [] a = tt
All-Among w all (u ∷ us) a = (inr a.0, All-Among w all us a.1)

all_Among : (us : List Upstream) → All (λ u. Among u us) us
all_Among [] = tt
all_Among (u ∷ us) = (inl refl, All-Among u us us (all_Among us))

All-inserted :
    (P : Upstream → Type 0) (u : Upstream) (us : List Upstream)
    → P u
    → All P us
    → All P (insert_by_priority u us)
unfolding insert_by_priority
All-inserted P u [] p a = (p, tt)
All-inserted P u (v ∷ vs) p a = elim (Bool-cases (leb u.priority v.priority)) [
  | inl le ↦ rw le (p, a)
  | inr gt ↦ rw gt (a.0, All-inserted P u vs p a.1)
]

All-sort : (P : Upstream → Type 0) (us : List Upstream) → All P us → All P (sort_by_priority us)
unfolding sort_by_priority
All-sort P [] a = tt
All-sort P (u ∷ us) a = All-inserted P u (sort_by_priority us) a.0 (All-sort P us a.1)

-- Only candidates are chosen.
pub eligible-Among :
    (candidates : List Upstream) (protocol model : String) (now max_attempts : ℕ)
    → All (λ u. Among u candidates) (eligible candidates protocol model now max_attempts)
unfolding eligible
eligible-Among candidates protocol model now max_attempts =
    let P = λ (u : Upstream). Among u candidates in
    let p = λ (u : Upstream). supports u protocol model now in
    All-take P (clamp_attempts max_attempts) (keep p (sort_by_priority candidates))
      (All-keep P p (sort_by_priority candidates) (All-sort P candidates (all_Among candidates)))

-- The upstreams that a request tries all support its protocol and model at that time, come in the
-- order of priority, and are at most as many as the configured attempts within 1 and 5.
pub eligible_lem :
    (candidates : List Upstream) (protocol model : String) (now max_attempts : ℕ)
    → (All
        (λ u. supports u protocol model now ≡ true)
        (eligible candidates protocol model now max_attempts))
      × IsSorted (eligible candidates protocol model now max_attempts)
      × (length (eligible candidates protocol model now max_attempts) ≤ clamp_attempts max_attempts)
      × (clamp_attempts max_attempts ≤ 5)
unfolding eligible
eligible_lem candidates protocol model now max_attempts =
    let good = keep (λ u. supports u protocol model now) (sort_by_priority candidates) in
    (
      All-take _ (clamp_attempts max_attempts) good
          (keep_passes (λ u. supports u protocol model now) (sort_by_priority candidates)),
      IsSorted-take (clamp_attempts max_attempts) good (
          IsSorted-keep (λ u. supports u protocol model now) (sort_by_priority candidates)
            (sort-IsSorted candidates)),
      omega (arith, length-take (clamp_attempts max_attempts) good),
      ground arith,
    )
