-- ===== src/ChangeControl/Tests.antt =====
-- Runs of the change-request lifecycle.
use multi_agent_aircraft_dev.Base.{◌+◌, ◌≡◌, ◌↔◌, refl, List, [], ◌∷◌, count}
use multi_agent_aircraft_dev.Errors.{ok}
use multi_agent_aircraft_dev.ChangeControl.{
  ChangeRequestState, request_eq, open_request, in_progress, ready_for_approval, approved, rejected,
  require_transition,
}
use multi_agent_aircraft_dev.ChangeControl.Lifecycle.{
  ◌⟶◌, Run, here, step, pending, decided, Run-balance, require_transition_iff,
}

-- Prepared, rejected, reopened, prepared again and approved.
abbrev states_0 : List ChangeRequestState
states_0 =
    in_progress ∷ ready_for_approval ∷ rejected ∷ in_progress ∷ ready_for_approval ∷ approved ∷ []

states_0-Run : Run open_request states_0 approved
unfolding require_transition
states_0-Run = step refl (step refl (step refl (step refl (step refl (step refl here)))))

Run-balance_example :
    (count ready_for_approval states_0 + pending open_request
      ≡ count approved states_0 + count rejected states_0 + pending approved)
    × (count approved states_0 + decided open_request ≡ decided approved)
Run-balance_example = Run-balance states_0-Run

require_transition_iff_example :
    (require_transition ready_for_approval approved ≡ ok tt) ↔ (ready_for_approval ⟶ approved)
require_transition_iff_example = require_transition_iff ready_for_approval approved
