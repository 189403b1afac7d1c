-- ===== src/Gateway/HealthLocks/Tests.antt =====
-- A request that marks an upstream as failed, step by step.
use d_api.Base.{nat_key, ◌≡◌, ◌≤◌, ◌||◌, refl, true, [], ◌∷◌}
use d_api.Base.Maps.{lookup}
use d_api.Gateway.ProxyTests.{upstream_at}
use d_api.Gateway.HealthLocks.{Written, set_lock, release, enter, mark_success, needs_success_write}
use d_api.Gateway.HealthLocks.Threads.{Ticket, World, Step, entering, failing}
use d_api.Gateway.HealthLocks.Order.{idle, Reach, working, Reach-one, Reach-mark_success}

abbrev ticket : Ticket
ticket = record { id = 4; addr = 0 }

abbrev entered : World
entered = entering 4 idle

abbrev held : World
held = record entered {
  health = set_lock true 0 entered.health;
  waiting = [];
  holding = ticket ∷ [];
}

abbrev marked : World
marked = failing Written.accepted ticket held

abbrev left : World
left = record marked { health = release 4 0 marked.health; holding = []; leaving = 0 ∷ [] }

marked-Reach : Reach marked
unfolding enter lookup
marked-Reach =
    Reach.steps held marked
      (Reach.steps entered held (Reach.steps idle entered Reach.starts (Step.enters 4 idle))
        (Step.takes [] [] ticket entered refl refl))
      (Step.fails [] [] ticket Written.accepted held refl)

left-Reach : Reach left
left-Reach = Reach.steps marked left marked-Reach (Step.leaves [] [] ticket marked refl)

Reach-one_example : working 4 marked.holding ≤ 1
Reach-one_example = Reach-one marked 4 marked-Reach

-- The next request found the upstream healthy, and still writes its success.
Reach-mark_success_example :
    (mark_success (upstream_at 4 1) Written.accepted (marked.health.states 0)).1
    ≡ (needs_success_write (upstream_at 4 1) || true)
Reach-mark_success_example =
    Reach-mark_success marked [] [] ticket (upstream_at 4 1) Written.accepted marked-Reach refl
