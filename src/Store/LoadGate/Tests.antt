-- ===== src/Store/LoadGate/Tests.antt =====
-- A caller at work on a key, and one that waits for it.
use d_api.Base.{ℕ, ◌≤◌, ◌≡◌, ◌↔◌, true, false, List, [], ◌∷◌, nat_key}
use d_api.Base.Maps.{lookup, insert}
use d_api.Store.LoadGate.{
  LoadGate, Reach, acquire, is_granted, is_closed, loading, holds, Reach-loading,
}

abbrev open_gate : LoadGate ℕ
open_gate = record { active = []; next = 0; closed = [] }

abbrev busy : LoadGate ℕ
busy = (acquire false 4 open_gate).0

abbrev callers : List (ℕ × ℕ)
callers = (4, 0) ∷ []

abbrev asked : ℕ
asked = 4

busy-Reach : Reach callers callers busy
unfolding acquire lookup insert
busy-Reach =
    Reach.acquires false 4 callers [] busy (Reach.acquires false 4 [] [] open_gate Reach.starts)

Reach-loading_example :
    (loading asked callers ≤ 1)
    × ((is_granted (acquire false asked busy).1 ≡ true) ↔ (loading asked callers ≡ 0))
    × ((done : ℕ)
        → holds asked done callers ≡ true
        → is_closed done busy.closed ≡ false
        → holds asked done callers ≡ true)
Reach-loading_example = Reach-loading callers callers busy asked busy-Reach
