-- ===== src/Ops/Incident/Confirm.antt =====
-- Confirmation of a change by consecutive readings.
use d_api.Base.{
  ℕ, ◌+◌, ◌<◌, ◌≡◌, Bool, true, false, not, ◌||◌, none, List, [], ◌∷◌, arith, leb, min, length,
  subst,
}
use d_api.Ops.Incident.{
  quiet, IncidentState, IncidentPolicy, Reading, arrive, observe_active, observe_normal, observe,
  gap_passed,
}

-- A reading that counts, and that comes no later than the greatest gap after the last one.
abbrev pub Counts : {V : Type 0} → IncidentPolicy → IncidentState V → Reading → Type 0
Counts p s r = (r.ignore ≡ false) × (r.hold ≡ false) × (gap_passed p r.now s ≡ false)

module _ {V : Type 0} (p : IncidentPolicy) where
  -- Readings that all say `active`, each of which counts where it comes.
  abbrev pub IsRunOf : Bool → List Reading → IncidentState V → Type 0
  IsRunOf b [] s = Unit
  IsRunOf b (r ∷ rs) s = (r.active ≡ b) × Counts p s r × IsRunOf b rs (observe p r s).0

  unfoldable pub observe_all : List Reading → IncidentState V → IncidentState V
  observe_all [] s = s
  observe_all (r ∷ rs) s = observe_all rs (observe p r s).0

  -- What `n` active readings leave: the streak stops at the confirmations that are asked for.
  Rising : ℕ → IncidentState V → Type 0
  Rising n s =
      (s.incident.firing_streak ≡ min p.firing_confirmations n)
      × (s.active ≡ leb p.firing_confirmations n)

  Falling : ℕ → IncidentState V → Type 0
  Falling n s =
      (s.incident.recovery_streak ≡ min p.recovery_confirmations n)
      × (s.active ≡ not (leb p.recovery_confirmations n))

  observe-Rising :
      (r : Reading) (n : ℕ) (s : IncidentState V)
      → r.active ≡ true
      → Counts p s r
      → Rising n s
      → Rising (n + 1) (observe p r s).0
  unfolding observe arrive observe_active Rising
  observe-Rising r n s a c h = ground arith

  observe-Falling :
      (r : Reading) (n : ℕ) (s : IncidentState V)
      → r.active ≡ false
      → Counts p s r
      → Falling n s
      → Falling (n + 1) (observe p r s).0
  unfolding observe arrive observe_normal Falling
  observe-Falling r n s a c h = ground arith

  Rising-from :
      (n : ℕ) (rs : List Reading) (s : IncidentState V)
      → IsRunOf true rs s
      → Rising n s
      → Rising (n + length rs) (observe_all rs s)
  unfolding observe_all
  Rising-from n [] s run h = subst (λ k. Rising k s) (omega arith) h
  Rising-from n (r ∷ rs) s run h =
      subst (λ k. Rising k (observe_all rs (observe p r s).0)) (omega arith)
        (Rising-from (n + 1) rs (observe p r s).0 run.2 (observe-Rising r n s run.0 run.1 h))

  Falling-from :
      (n : ℕ) (rs : List Reading) (s : IncidentState V)
      → IsRunOf false rs s
      → Falling n s
      → Falling (n + length rs) (observe_all rs s)
  unfolding observe_all
  Falling-from n [] s run h = subst (λ k. Falling k s) (omega arith) h
  Falling-from n (r ∷ rs) s run h =
      subst (λ k. Falling k (observe_all rs (observe p r s).0)) (omega arith)
        (Falling-from (n + 1) rs (observe p r s).0 run.2 (observe-Falling r n s run.0 run.1 h))

  -- From an inactive state with no firing streak, a run of active readings that count makes the
  -- state active exactly when it is as long as the confirmations that the policy asks for, which
  -- are at least one.
  pub confirmed_active :
      (rs : List Reading) (s : IncidentState V)
      → 0 < p.firing_confirmations
      → s.active ≡ false
      → s.incident.firing_streak ≡ 0
      → IsRunOf true rs s
      → (observe_all rs s).active ≡ leb p.firing_confirmations (length rs)
  unfolding Rising
  confirmed_active rs s pos off zero_streak run =
      ground (arith, Rising-from 0 rs s run (omega arith, ground arith))

  -- From an active state with no recovery streak, a run of normal readings that count makes the
  -- state inactive exactly when it is as long as the confirmations that the policy asks for, which
  -- are at least one.
  pub confirmed_normal :
      (rs : List Reading) (s : IncidentState V)
      → 0 < p.recovery_confirmations
      → s.active ≡ true
      → s.incident.recovery_streak ≡ 0
      → IsRunOf false rs s
      → (observe_all rs s).active ≡ not (leb p.recovery_confirmations (length rs))
  unfolding Falling
  confirmed_normal rs s pos on zero_streak run =
      ground (arith, Falling-from 0 rs s run (omega arith, ground arith))

  -- A reading that is ignored or held sends nothing, keeps the confirmed state and the count of
  -- notifications, and makes every run begin anew.
  pub observe_skipped :
      (r : Reading) (s : IncidentState V)
      → (r.ignore || r.hold) ≡ true
      → ((observe p r s).1 ≡ quiet)
        × ((observe p r s).0.active ≡ s.active)
        × ((observe p r s).0.notification_count ≡ s.notification_count)
        × ((observe p r s).0.incident.firing_streak ≡ 0)
        × ((observe p r s).0.incident.recovery_streak ≡ 0)
        × ((observe p r s).0.incident.normal_since ≡ none)
  unfolding observe arrive
  observe_skipped r s h = ground arith
