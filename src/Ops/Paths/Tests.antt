-- ===== src/Ops/Paths/Tests.antt =====
-- A path that was found and is asked for.
use d_api.Base.{ℕ, ◌+◌, ◌≤◌, ◌<◌, ◌≡◌, ◌⊎◌, [], ◌∷◌, length}
use d_api.Ops.Paths.{Paths, hour, preferred_balance_path}
use d_api.Ops.Paths.Fresh.{Finding, Found, Call, Reach, exec, Reach-preferred_balance_path}

abbrev found : Finding
found = record { key = 7; path = "/api/user/self"; at = 100 }

abbrev paths : Paths
paths = exec (Call.finding found) []

Reach-preferred_balance_path_example :
    (length paths ≤ 1024)
    × (((preferred_balance_path 7 200 paths).1 ≡ "")
        ⊎ ((at : ℕ) × (200 < at + hour)
            × Found 7 (preferred_balance_path 7 200 paths).1 at (found ∷ [])))
Reach-preferred_balance_path_example =
    Reach-preferred_balance_path (found ∷ []) paths 7 200
      (Reach.steps (Call.finding found) [] [] Reach.starts)
