-- ===== src/Gateway/Tests.antt =====
-- Runs of the admission control on concrete requests.
use d_api.Base.{ℕ, ◌≤◌, ◌≡◌, refl, List, [], ◌∷◌, arith}
use d_api.Base.Maps.{lookup, insert, retain}
use d_api.Gateway.Gate.{Limits, RequestGate, empty, acquire}
use d_api.Gateway.Gate.Trace.{Tracks, Reach, start, admit, Reach-Tracks}
use d_api.Gateway.Rate
use d_api.Gateway.Rate.Window.{grants, grants-le-max}

abbrev two_one : Limits
two_one = record { max_concurrent_requests = 2; max_concurrent_per_key = 1 }

-- Keys 7 and 8 are admitted, and a second request of key 7 is refused.
abbrev busy : RequestGate
busy = (acquire 8 two_one (acquire 7 two_one empty).0).0

busy_reach : Reach two_one (8 ∷ 7 ∷ []) busy
unfolding acquire empty lookup insert
busy_reach = admit 8 (admit 7 start refl) refl

Reach-Tracks_example : Tracks two_one (8 ∷ 7 ∷ []) busy
Reach-Tracks_example = Reach-Tracks busy_reach

abbrev burst : List (ℕ × ℕ)
burst = (7, 60000000001) ∷ (7, 60000000002) ∷ (7, 60000000003) ∷ (7, 120000000000) ∷ []

burst-grants : grants 7 60000000000 2 burst Rate.empty ≡ 2
unfolding grants Rate.allow Rate.cleanup Rate.current Rate.empty lookup insert retain
burst-grants = refl

grants-le-max_example : grants 7 60000000000 2 burst Rate.empty ≤ 2
grants-le-max_example = grants-le-max 7 60000000000 2 burst (omega arith)
