-- ===== src/ChangeControl.antt =====
-- domain/change_control.py: capability levels, change requests, and the gate of their lifecycle.
-- `uuid4` identifiers are numbers: the program compares them and sorts by their text, whose order is
-- that of the 128-bit value.
pub mod Lifecycle
pub mod Registry
mod Tests
use multi_agent_aircraft_dev.Base.{
  ℕ, String, ◌≡◌, ◌≢◌, ◌↔◌, Bool, true, not, ◌||◌, Option, none, some, List, [], ◌∷◌, arith, Eq,
  ◌==◌, nat_eq, nat_beq, option_eq, is_none, contains,
}
use multi_agent_aircraft_dev.Errors.{
  ValueError, only_l2_modifies, no_active_workspace, approval_requires_human_l3,
  invalid_change_request_transition, baseline_change_without_workspace,
  workspace_from_other_baseline, Result, ok, ◌>>=◌, ◌>>◌, raise_if,
}

pub data AuthorizationLevel : Type 0 where
  l0_read l1_propose l2_modify_workspace l3_approve : AuthorizationLevel

-- `_AUTH_LEVELS` of application/tool_invocation.py: the place of a level in the order of the four.
abbrev pub level_rank : AuthorizationLevel → ℕ
level_rank l0_read = 0
level_rank l1_propose = 1
level_rank l2_modify_workspace = 2
level_rank l3_approve = 3

pub level_beq_iff :
    (a b : AuthorizationLevel) → (nat_beq (level_rank a) (level_rank b) ≡ true) ↔ (a ≡ b)
level_beq_iff a b = ground arith

instance abbrev pub level_eq : Eq AuthorizationLevel
level_eq = record { beq = λ a b. nat_beq (level_rank a) (level_rank b); beq_iff = level_beq_iff }

pub data ChangeRequestState : Type 0 where
  open_request in_progress ready_for_approval approved rejected closed : ChangeRequestState

abbrev pub request_rank : ChangeRequestState → ℕ
request_rank open_request = 0
request_rank in_progress = 1
request_rank ready_for_approval = 2
request_rank approved = 3
request_rank rejected = 4
request_rank closed = 5

pub request_beq_iff :
    (a b : ChangeRequestState) → (nat_beq (request_rank a) (request_rank b) ≡ true) ↔ (a ≡ b)
request_beq_iff a b = ground arith

instance abbrev pub request_eq : Eq ChangeRequestState
request_eq = record {
  beq = λ a b. nat_beq (request_rank a) (request_rank b);
  beq_iff = request_beq_iff;
}

pub record ChangeRequest : Type 0 where
  pub id : ℕ
  pub external_system : String
  pub external_id : String
  pub title : String
  pub state : ChangeRequestState
  pub source_baseline_id : Option ℕ
  pub workspace_id : Option ℕ

-- `ChangeGate._TRANSITIONS`
abbrev pub transitions : ChangeRequestState → List ChangeRequestState
transitions open_request = in_progress ∷ []
transitions in_progress = ready_for_approval ∷ []
transitions ready_for_approval = approved ∷ rejected ∷ []
transitions approved = closed ∷ []
transitions rejected = in_progress ∷ []
transitions closed = []

unfoldable pub require_workspace_modification :
    AuthorizationLevel → Option ℕ → Result ValueError (Unit {0})
require_workspace_modification level workspace_id = do
  raise_if (not (level == l2_modify_workspace)) only_l2_modifies
  raise_if (is_none workspace_id) no_active_workspace

unfoldable pub require_approval : AuthorizationLevel → Bool → Result ValueError (Unit {0})
require_approval level actor_is_ai =
    raise_if (actor_is_ai || not (level == l3_approve)) approval_requires_human_l3

unfoldable pub require_transition :
    ChangeRequestState → ChangeRequestState → Result ValueError (Unit {0})
unfolding contains
require_transition current target =
    raise_if (not (contains target (transitions current))) invalid_change_request_transition

unfoldable pub require_new_workspace_for_baseline_change :
    ℕ → Option ℕ → Option ℕ → Result ValueError (Unit {0})
require_new_workspace_for_baseline_change baseline_id workspace_id source_baseline_id = do
  raise_if (is_none workspace_id) baseline_change_without_workspace
  raise_if (not (source_baseline_id == some baseline_id)) workspace_from_other_baseline
