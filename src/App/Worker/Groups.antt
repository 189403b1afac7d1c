-- ===== src/App/Worker/Groups.antt =====
-- internal/app/notifications.go: the grouping of claimed jobs, and the event that stands for a group.
use d_api.Base.{
  append_assoc, append_nil, ℕ, suc, ◌≡◌, ◌≤◌, refl, sym, ap, ◌∙◌, none, some, List, [], ◌∷◌, ◌++◌,
  arith, ◌==◌, if◌then◌else◌, Option-cases, inl, inr, String, length, ltb, All,
}
use d_api.Base.Maps.{Map, lookup, insert, lookup-insert}
use d_api.Store.Outbox.{Job, complete}
use d_api.App.Worker.{
  Event, Group, group_key, same_group_iff, World, External, run_statement, key_of, jobs_or_none,
  group_jobs, aggregate, latest, lines_of,
}

module _ {P : Type 0} (x : External P) where
  -- The jobs of one group, in the order in which they were claimed.
  unfoldable pub having : Group → List (Job P) → List (Job P × Event)
  having k [] = []
  having k (j ∷ js) = elim (x.decode j.payload) [
    | none ↦ having k js
    | some e ↦ if key_of x j e == k then (j, e) ∷ having k js else having k js
  ]

  group_jobs-lookup :
      (k : Group) (js : List (Job P)) (groups : Map Group (List (Job P × Event))) (w : World P)
      → jobs_or_none x (lookup k (group_jobs x js groups w).0)
        ≡ jobs_or_none x (lookup k groups) ++ having k js
  unfolding group_jobs having
  group_jobs-lookup k [] groups w = sym (append_nil (jobs_or_none x (lookup k groups)))
  group_jobs-lookup k (j ∷ js) groups w = elim (Option-cases (x.decode j.payload)) [
    | inl bad ↦
        rw (bad, group_jobs, having)
          (group_jobs-lookup k js groups (run_statement x (complete j) w).0)
    | inr (e, good) ↦
        let own = key_of x j e in
        let grown = jobs_or_none x (lookup own groups) ++ (j, e) ∷ [] in
        rw (good, group_jobs, having)
          (group_jobs-lookup k js (insert own grown groups) w
            ∙ ground (
              arith,
              lookup-insert own k grown groups,
              same_group_iff own k,
              append_assoc (jobs_or_none x (lookup own groups)) ((j, e) ∷ []) (having k js),
            ))
  ]

module _ {P : Type 0} (x : External P) where
  -- Each group of the claimed jobs holds exactly the jobs of its type, state, severity and channel
  -- whose payloads are events, in the order in which they were claimed.
  pub group_jobs-having :
      (k : Group) (js : List (Job P)) (w : World P)
      → jobs_or_none x (lookup k (group_jobs x js [] w).0) ≡ having x k js
  unfolding lookup
  group_jobs-having k js w = group_jobs-lookup x k js [] w

-- No event of the list is later.
abbrev pub AreBy : ℕ → List Event → Type 0
AreBy t = All (λ (e : Event). e.at ≤ t)

latest-le : (t : ℕ) (es : List Event) → (t ≤ latest t es) × AreBy (latest t es) es
latest-le t [] = (omega arith, tt)
latest-le t (e ∷ es) =
    let later = latest-le (if ltb t e.at then e.at else t) es in
    (ground (arith, later.0), (ground (arith, later.0), later.1))

length-lines : (es : List Event) → (line : Event → String) → length (lines_of line es) ≡ length es
length-lines [] line = refl
length-lines (e ∷ es) line = ap suc (length-lines es line)

-- The event sent for several counts them all, has a line for each, and is dated by the latest.
pub aggregate_lem :
    (line : Event → String) (first second : Event) (rest : List Event)
    → let all = first ∷ second ∷ rest in
      let one = aggregate line first (second ∷ rest) in
      (one.count ≡ length all) × (length one.details ≡ length all) × AreBy one.at all
unfolding aggregate
aggregate_lem line first second rest = (
  refl,
  length-lines (first ∷ second ∷ rest) line,
  (latest-le first.at (first ∷ second ∷ rest)).1,
)
