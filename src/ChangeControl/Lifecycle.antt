-- ===== src/ChangeControl/Lifecycle.antt =====
-- The lifecycle of a change request: what sequences of accepted transitions can do.
use multi_agent_aircraft_dev.Base.{ℕ, ◌+◌, ◌≡◌, ◌↔◌, refl, List, [], ◌∷◌, arith, count}
use multi_agent_aircraft_dev.Errors.{ok}
use multi_agent_aircraft_dev.ChangeControl.{
  ChangeRequestState, request_eq, open_request, in_progress, ready_for_approval, approved, rejected,
  closed, require_transition,
}

-- The transition diagram that the gate is meant to enforce.
infix 40 ◌⟶◌
pub data ◌⟶◌ : ChangeRequestState → ChangeRequestState → Type 0 where
  start : open_request ⟶ in_progress
  prepare : in_progress ⟶ ready_for_approval
  approve : ready_for_approval ⟶ approved
  reject : ready_for_approval ⟶ rejected
  finish : approved ⟶ closed
  reopen : rejected ⟶ in_progress

ruleset edges = (start, prepare, approve, reject, finish, reopen)

accepts : {s t : ChangeRequestState} → s ⟶ t → require_transition s t ≡ ok tt
unfolding require_transition
accepts start = refl
accepts prepare = refl
accepts approve = refl
accepts reject = refl
accepts finish = refl
accepts reopen = refl

accepted : (s t : ChangeRequestState) → require_transition s t ≡ ok tt → s ⟶ t
unfolding require_transition
accepted s t h = grind (arith, edges)

-- The gate accepts a transition exactly when the diagram has that edge.
pub require_transition_iff : (s t : ChangeRequestState) → (require_transition s t ≡ ok tt) ↔ (s ⟶ t)
require_transition_iff s t = (accepted s t, accepts)

-- A run is the list of the states entered, each by a transition that the gate accepts.
pub data Run : ChangeRequestState → List ChangeRequestState → ChangeRequestState → Type 0 where
  here : {s : ChangeRequestState} → Run s [] s
  step :
      {s t u : ChangeRequestState} {entered : List ChangeRequestState}
      → require_transition s t ≡ ok tt
      → Run t entered u
      → Run s (t ∷ entered) u

-- A prepared request waits for its decision.
abbrev pub pending : ChangeRequestState → ℕ
pending ready_for_approval = 1
pending _ = 0

-- An approval has been given.
abbrev pub decided : ChangeRequestState → ℕ
decided approved = 1
decided closed = 1
decided _ = 0

step-balance :
    {s t : ChangeRequestState}
    → s ⟶ t
    → (count ready_for_approval (t ∷ []) + pending s
        ≡ count approved (t ∷ []) + count rejected (t ∷ []) + pending t)
      × (count approved (t ∷ []) + decided s ≡ decided t)
step-balance start = (refl, refl)
step-balance prepare = (refl, refl)
step-balance approve = (refl, refl)
step-balance reject = (refl, refl)
step-balance finish = (refl, refl)
step-balance reopen = (refl, refl)

-- Along every run each preparation but a pending last one is answered by exactly one approval or
-- rejection, and a request is approved at most once: as often as it is approved or closed at the
-- end and was neither at the start.
pub Run-balance :
    {s u : ChangeRequestState} {entered : List ChangeRequestState}
    → Run s entered u
    → (count ready_for_approval entered + pending s
        ≡ count approved entered + count rejected entered + pending u)
      × (count approved entered + decided s ≡ decided u)
Run-balance here = (omega arith, omega arith)
Run-balance (step h r) =
    let (a, b) = step-balance (accepted _ _ h) in
    let (c, d) = Run-balance r in (omega arith, omega arith)
