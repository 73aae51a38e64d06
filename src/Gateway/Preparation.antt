-- ===== src/Gateway/Preparation.antt =====
-- `prepare_for_approval` of application/governed_gateway_service.py.
use multi_agent_aircraft_dev.Base.{
  ℕ, String, Bool, not, ◌&&◌, ◌||◌, Option, none, some, [], ◌∷◌, ◌==◌, nat_eq, string_eq, option_eq,
  is_some, is_empty, length, if◌then◌else◌,
}
use multi_agent_aircraft_dev.Dict.{lookup}
use multi_agent_aircraft_dev.Errors.{
  ValueError, value_error, service, service_of, not_configured, elements_must_be_omitted,
  exact_profile_required, prepare_needs_active, prepare_needs_in_progress, bound_to_other_profile,
  budget_plan_required, workspace_not_found, Result, ok, err,
}
use multi_agent_aircraft_dev.ChangeControl
use multi_agent_aircraft_dev.ChangeControl.{
  ChangeRequest, ChangeRequestState, request_eq, level_eq, l2_modify_workspace, l3_approve,
  require_approval,
}
use multi_agent_aircraft_dev.Evidence.{ValidationInputs, ValidationEvidence}
use multi_agent_aircraft_dev.Budget.{BudgetGate, BudgetPlan, BudgetDecision, require_within_limit}
use multi_agent_aircraft_dev.Profiles.{StandardProfile}
use multi_agent_aircraft_dev.Validation.{ValidationResult}
use multi_agent_aircraft_dev.Workspaces
use multi_agent_aircraft_dev.Workspaces.{
  Workspace, WorkspaceState, state_eq, bind_profile, bind_validation_evidence,
}
use multi_agent_aircraft_dev.Audit.{issues_found, success, failure, raised, text}
use multi_agent_aircraft_dev.Changes
use multi_agent_aircraft_dev.Gateway.World.{
  Actor, Config, Action, pure, raise, gets, or_raise, lift, ◌>>=◌, ◌>>◌, refuse_if, record_action,
}
use multi_agent_aircraft_dev.Gateway.Service.{
  require_modify, load_workflow, get_active_profile, set_request_state, update_workspace,
}

-- The tests of `prepare_for_approval` on the loaded workflow.
unfoldable pub require_preparable : Workspace → ChangeRequest → String → String → Action (Unit {0})
require_preparable workspace request profile_id profile_version = do
  refuse_if (not (workspace.state == Workspaces.active)) prepare_needs_active
  refuse_if (not (request.state == ChangeControl.in_progress)) prepare_needs_in_progress
  refuse_if
      (is_some workspace.profile_id
        && (not (workspace.profile_id == some profile_id)
            || not (workspace.profile_version == some profile_version)))
      bound_to_other_profile

unfoldable pub over_limit : Actor → ℕ → Result ValueError BudgetDecision → Action (Unit {0})
over_limit actor workspace_id (ok _) = pure tt
over_limit actor workspace_id (err e) = do
  record_action actor "prepare_for_approval" "workspace" (some workspace_id) failure
      (some (raised (value_error e))) []
  raise (service_of e)

-- The budget gate, where one is configured.
unfoldable pub require_budget :
    Actor → ℕ → Option BudgetGate → Option BudgetPlan → Action (Unit {0})
unfolding over_limit
require_budget actor workspace_id none plan = pure tt
require_budget actor workspace_id (some gate) none = raise (service budget_plan_required)
require_budget actor workspace_id (some gate) (some plan) =
    over_limit actor workspace_id (require_within_limit gate plan)

-- The evidence that is bound to the workspace.
unfoldable pub evidence_of :
    Actor → ValidationInputs → Option BudgetGate → Option BudgetPlan → ValidationEvidence
evidence_of actor inputs none plan = record {
  inputs = some inputs;
  budget_plan = none;
  budget_limit_kopeks = none;
  prepared_by_actor_id = some actor.actor_id;
}
evidence_of actor inputs (some gate) none = record {
  inputs = some inputs;
  budget_plan = none;
  budget_limit_kopeks = none;
  prepared_by_actor_id = some actor.actor_id;
}
evidence_of actor inputs (some gate) (some plan) = record {
  inputs = some inputs;
  budget_plan = some plan;
  budget_limit_kopeks = some gate.limit_kopeks;
  prepared_by_actor_id = some actor.actor_id;
}

-- What follows a validation without issues.
unfoldable pub bind_and_submit :
    Actor
    → Workspace
    → ChangeRequest
    → String
    → String
    → String
    → ValidationEvidence
    → Action (Unit {0})
unfolding update_workspace set_request_state
bind_and_submit actor workspace request profile_id profile_version graph_hash evidence = do
  with_profile ← lift (bind_profile workspace profile_id profile_version)
  bound ← lift (bind_validation_evidence with_profile graph_hash evidence)
  lift (Workspaces.require_transition bound.state Workspaces.ready_for_approval)
  update_workspace (record bound { state = Workspaces.ready_for_approval })
  set_request_state request ChangeControl.ready_for_approval
  record_action actor "prepare_for_approval" "workspace" (some workspace.id) success none (
      ("profile_id", text profile_id)
      ∷ ("profile_version", text profile_version)
      ∷ ("graph_hash", text graph_hash)
      ∷ [])

abbrev result_for : String → String → ValidationResult → ValidationResult
result_for profile_id profile_version validation = record {
  profile_id = profile_id;
  profile_version = profile_version;
  graph_hash = validation.graph_hash;
  issues = validation.issues;
}

unfoldable pub issues_recorded : Actor → ℕ → ValidationResult → Action (Unit {0})
issues_recorded actor workspace_id result =
    record_action actor "prepare_for_approval" "workspace" (some workspace_id) failure
      (some (issues_found (length result.issues))) (("graph_hash", text result.graph_hash) ∷ [])

-- The outcome of the validation is bound to the workspace, or recorded.
unfoldable pub bind_if_valid :
    Actor
    → ℕ
    → Workspace
    → ChangeRequest
    → String
    → String
    → ValidationResult
    → ValidationEvidence
    → Action (Unit {0})
unfolding bind_and_submit issues_recorded
bind_if_valid actor workspace_id workspace request profile_id profile_version result evidence =
    if is_empty result.issues
    then bind_and_submit actor workspace request profile_id profile_version result.graph_hash
        evidence
    else issues_recorded actor workspace_id result

-- The validation against a profile that is active.
unfoldable pub prepare_with :
    Config
    → Actor
    → ℕ
    → Workspace
    → ChangeRequest
    → String
    → String
    → ValidationInputs
    → Option BudgetPlan
    → StandardProfile
    → Action ValidationResult
unfolding bind_if_valid evidence_of
prepare_with config actor workspace_id workspace request profile_id profile_version inputs plan
      profile =
    do
      graph ← gets (λ s. Changes.get_graph s.canonical workspace_id s.changes)
      let result =
          result_for profile_id profile_version (config.validator.validate graph profile inputs)
      bind_if_valid actor workspace_id workspace request profile_id profile_version result
          (evidence_of actor inputs config.budget_gate plan)
      pure result

unfoldable pub prepare_loaded :
    Config
    → Actor
    → ℕ
    → String
    → String
    → ValidationInputs
    → Option BudgetPlan
    → Workspace × ChangeRequest
    → Action ValidationResult
unfolding require_preparable require_budget get_active_profile prepare_with
prepare_loaded config actor workspace_id profile_id profile_version inputs plan
      (workspace, request) =
    do
      require_preparable workspace request profile_id profile_version
      require_budget actor workspace_id config.budget_gate plan
      profile ← get_active_profile actor "prepare_for_approval" profile_id profile_version
      prepare_with config actor workspace_id workspace request profile_id profile_version inputs
          plan profile

-- `graph_given`: elements or relations are passed.
unfoldable pub prepare_authorized :
    Config
    → Actor
    → ℕ
    → Bool
    → String
    → String
    → ValidationInputs
    → Option BudgetPlan
    → Action ValidationResult
unfolding load_workflow prepare_loaded
prepare_authorized config actor workspace_id graph_given profile_id profile_version inputs plan = do
  refuse_if graph_given elements_must_be_omitted
  refuse_if (profile_id == "" || profile_version == "") exact_profile_required
  load_workflow config workspace_id
      >>= prepare_loaded config actor workspace_id profile_id profile_version inputs plan

unfoldable pub prepare_for_approval :
    Config
    → Actor
    → ℕ
    → Bool
    → String
    → String
    → ValidationInputs
    → Option BudgetPlan
    → Action ValidationResult
unfolding require_modify prepare_authorized
prepare_for_approval config actor workspace_id graph_given profile_id profile_version inputs plan =
    do
      refuse_if
          (not (
            config.workspaces_configured && config.changes_configured
            && config.change_requests_configured))
          not_configured
      or_raise (← gets (λ s. lookup workspace_id s.workspaces)) workspace_not_found
      require_modify actor
      prepare_authorized config actor workspace_id graph_given profile_id profile_version inputs
          plan
