-- ===== src/App/Drain.antt =====
-- cmd/dapi/shutdown.go: the requests in flight at a shutdown. `done` counts the calls of
-- `close(d.done)`, of which a second one would panic.
pub mod Tests
use d_api.Base.{
  ℕ, zero, suc, ◌+◌, ◌-◌, ◌≤◌, ◌<◌, ◌≡◌, refl, Bool, true, false, not, ◌&&◌, List, [], ◌∷◌, ◌++◌,
  arith, nat_beq, ltb, if◌then◌else◌,
}

pub record RequestDrain : Type 0 where
  pub active : ℕ
  pub closing : Bool
  pub done : ℕ

unfoldable pub new_request_drain : RequestDrain
new_request_drain = record { active = 0; closing = false; done = 0 }

-- The beginning of a request in `wrap`; `false` says that it is refused.
unfoldable pub enter : RequestDrain → RequestDrain × Bool
enter d = if d.closing then (d, false) else (record d { active = d.active + 1 }, true)

-- Its deferred end.
unfoldable pub leave : RequestDrain → RequestDrain
leave d =
    let left = d.active - 1 in
    record d { active = left; done = if d.closing && nat_beq left 0 then d.done + 1 else d.done }

unfoldable pub begin : RequestDrain → RequestDrain
begin d =
    if d.closing
    then d
    else record d { closing = true; done = if nat_beq d.active 0 then d.done + 1 else d.done }

-- What `shutdownServer` does, and the errors that it joins.
pub data Action : Type 0 where
  shuts_down cancels closes waits flushes : Action

-- `shut`, `close` and `flush` say whether these calls fail; `drained` whether `done` came in time.
unfoldable pub shutdown_server : Bool → Bool → Bool → Bool → List Action × List Action
shutdown_server shut close drained flush = (
  Action.shuts_down
      ∷ ((if shut then Action.cancels ∷ (Action.closes ∷ []) else [])
          ++ (Action.waits ∷ (Action.flushes ∷ (Action.cancels ∷ [])))),
  (if shut then Action.shuts_down ∷ (if close then Action.closes ∷ [] else []) else [])
      ++ ((if drained then [] else Action.waits ∷ [])
          ++ (if flush then Action.flushes ∷ [] else [])),
)

-- The requests in flight, a shutdown, and what they do.
pub data Reach : ℕ → RequestDrain → Type 0 where
  starts : Reach 0 new_request_drain
  enters : (n : ℕ) (d : RequestDrain) → Reach n d → (enter d).1 ≡ true → Reach (suc n) (enter d).0
  refused : (n : ℕ) (d : RequestDrain) → Reach n d → (enter d).1 ≡ false → Reach n (enter d).0
  leaves : (n : ℕ) (d : RequestDrain) → Reach (suc n) d → Reach n (leave d)
  begins : (n : ℕ) (d : RequestDrain) → Reach n d → Reach n (begin d)

abbrev pub once_if : Bool → ℕ
once_if true = 1
once_if false = 0

-- Whatever requests come and go around a shutdown, the drain counts those in flight, and it closes
-- `done` once and exactly when the shutdown has begun and none is in flight.
pub Reach-done :
    (n : ℕ) (d : RequestDrain)
    → Reach n d
    → (d.active ≡ n) × (d.done ≡ once_if (d.closing && nat_beq n 0))
unfolding new_request_drain enter leave begin
Reach-done _ _ Reach.starts = (refl, refl)
Reach-done _ _ (Reach.enters n d r h) = ground (arith, Reach-done n d r, h)
Reach-done _ _ (Reach.refused n d r h) = ground (arith, Reach-done n d r, h)
Reach-done _ _ (Reach.leaves n d r) = ground (arith, Reach-done (suc n) d r)
Reach-done _ _ (Reach.begins n d r) = ground (arith, Reach-done n d r)

unfoldable pub leave_times : ℕ → RequestDrain → RequestDrain
leave_times zero d = d
leave_times (suc n) d = leave_times n (leave d)

leave_times-Reach : (n : ℕ) (d : RequestDrain) → Reach n d → Reach 0 (leave_times n d)
unfolding leave_times
leave_times-Reach zero d r = r
leave_times-Reach (suc n) d r = leave_times-Reach n (leave d) (Reach.leaves n d r)

leave_times-closing : (n : ℕ) (d : RequestDrain) → (leave_times n d).closing ≡ d.closing
unfolding leave_times leave
leave_times-closing zero d = refl
leave_times-closing (suc n) d = leave_times-closing n (leave d)

-- A shutdown that begins at any moment lets in no further request, and is done as soon as those in
-- flight have ended.
pub begin-done :
    (n : ℕ) (d : RequestDrain)
    → Reach n d
    → ((enter (begin d)).1 ≡ false) × ((leave_times n (begin d)).done ≡ 1)
unfolding begin enter
begin-done n d r =
    let after = leave_times n (begin d) in
    let ended = Reach-done 0 after (leave_times-Reach n (begin d) (Reach.begins n d r)) in
    let closes : after.closing ≡ true = ground (arith, leave_times-closing n (begin d)) in
    (ground arith, ground (arith, ended, closes))
