-- ===== src/Gateway/GovernedApproval.antt =====
-- The governed `approve_workspace` of application/governed_gateway_service.py.
use multi_agent_aircraft_dev.Base.{
  ℕ, String, Bool, true, false, not, ◌&&◌, Option, none, some, [], ◌==◌, nat_eq, string_eq,
  option_eq, is_none,
}
use multi_agent_aircraft_dev.Dict.{lookup}
use multi_agent_aircraft_dev.Errors.{
  ValueError, service_of, not_configured, no_profile_provenance, workspace_not_found,
  no_validation_evidence, budget_evidence_invalid, review_required, validation_stale, Result, ok,
  err,
}
use multi_agent_aircraft_dev.ChangeControl.{request_eq, level_eq, require_approval}
use multi_agent_aircraft_dev.Evidence.{ValidationInputs, ValidationEvidence}
use multi_agent_aircraft_dev.Budget.{BudgetGate, BudgetPlan, make_plan, require_within_limit}
use multi_agent_aircraft_dev.Workspaces.{Workspace, state_eq, require_reconciled}
use multi_agent_aircraft_dev.Baselines.{Baseline}
use multi_agent_aircraft_dev.Audit.{
  AuditEvent, metadata_at, latest_stored_review, flag, MetaValue, null, text, number,
}
use multi_agent_aircraft_dev.Models.{compute_change_set_hash}
use multi_agent_aircraft_dev.Changes
use multi_agent_aircraft_dev.Profiles.{StandardProfile}
use multi_agent_aircraft_dev.Gateway.World.{
  Actor, is_ai, Config, Action, pure, raise, gets, or_raise, ◌>>=◌, ◌>>◌, refuse_if,
}
use multi_agent_aircraft_dev.Gateway.Service.{get_active_profile}
use multi_agent_aircraft_dev.Gateway.Approval.{approve_prepared}

-- `workspace.validation_evidence["budget_plan"]` and the tests on it.
unfoldable pub budget_evidence_ok : BudgetGate → Option BudgetPlan → Option ℕ → Bool
budget_evidence_ok gate none limit = false
budget_evidence_ok gate (some raw) limit = elim (make_plan raw.lines raw.contingency_kopeks) [
  | err _ ↦ false
  | ok plan ↦ elim (require_within_limit gate plan) [
    | err _ ↦ false
    | ok _ ↦ limit == some gate.limit_kopeks
  ]
]

unfoldable pub check_budget : Option BudgetGate → Workspace → Action (Unit {0})
unfolding budget_evidence_ok
check_budget none workspace = pure tt
check_budget (some gate) workspace =
    refuse_if
      (not (
        budget_evidence_ok gate workspace.validation_evidence.budget_plan
          workspace.validation_evidence.budget_limit_kopeks))
      budget_evidence_invalid

-- `review.metadata.get(key)` compared with a text that may be missing, a number, and `True`.
abbrev pub is_text : MetaValue → Option String → Bool
is_text null none = true
is_text (text t) (some u) = t == u
is_text _ _ = false

abbrev pub is_number : MetaValue → ℕ → Bool
is_number (number n) m = n == m
is_number _ _ = false

abbrev pub is_true : MetaValue → Bool
is_true (flag b) = b
is_true _ = false

-- The review counts for this approval by this actor.
unfoldable pub review_current : Actor → Workspace → AuditEvent → Bool
review_current actor workspace review =
    is_true (metadata_at "accepted" review)
    && is_text (metadata_at "validation_graph_hash" review) workspace.validation_graph_hash
    && is_text (metadata_at "reconciled_change_set_hash" review)
        workspace.reconciled_change_set_hash
    && is_number (metadata_at "workspace_version" review) workspace.version
    && not (some review.actor_id == workspace.validation_evidence.prepared_by_actor_id)
    && not (review.actor_id == actor.actor_id)

unfoldable pub review_missing : Actor → Workspace → Option AuditEvent → Bool
review_missing actor workspace none = true
review_missing actor workspace (some review) = not (review_current actor workspace review)

unfoldable pub check_review : Config → Actor → ℕ → Workspace → Action (Unit {0})
unfolding review_missing
check_review config actor workspace_id workspace = do
  review ← gets (λ s. latest_stored_review workspace_id s.audit)
  refuse_if (config.review_required && review_missing actor workspace review) review_required

-- `except ValueError` around `require_reconciled`.
unfoldable pub check_reconciled : Result ValueError (Unit {0}) → Action (Unit {0})
check_reconciled (ok _) = pure tt
check_reconciled (err e) = raise (service_of e)

abbrev pub no_inputs : ValidationInputs
no_inputs = record {
  attributes = [];
  artifact_evidence = [];
  lifecycle_states = [];
  lifecycle_transitions = [];
}

-- The inputs that the evidence keeps; missing ones are empty.
abbrev pub stored_inputs : ValidationEvidence → ValidationInputs
stored_inputs evidence = elim evidence.inputs [ none ↦ no_inputs | some inputs ↦ inputs ]

-- The validation is reproduced from the stored evidence and compared with the bound hash.
unfoldable pub require_reproduced : Config → ℕ → Workspace → StandardProfile → Action (Unit {0})
require_reproduced config workspace_id workspace profile = do
  graph ← gets (λ s. Changes.get_graph s.canonical workspace_id s.changes)
  refuse_if
      (not (
        some
          (config.validator.graph_hash graph profile (stored_inputs workspace.validation_evidence))
        == workspace.validation_graph_hash))
      validation_stale

unfoldable pub reproduce_with : Config → Actor → ℕ → Workspace → String → String → Action (Unit {0})
unfolding get_active_profile require_reproduced
reproduce_with config actor workspace_id workspace profile_id profile_version = do
  profile ← get_active_profile actor "approve_workspace" profile_id profile_version
  require_reproduced config workspace_id workspace profile

unfoldable pub check_reproduced : Config → Actor → ℕ → Workspace → Action (Unit {0})
unfolding reproduce_with
check_reproduced config actor workspace_id workspace = do
  profile_id ← or_raise workspace.profile_id no_profile_provenance
  profile_version ← or_raise workspace.profile_version no_profile_provenance
  reproduce_with config actor workspace_id workspace profile_id profile_version

-- The change set is the reconciled one, and the validation is reproduced.
unfoldable pub check_evidence : Config → Actor → ℕ → Workspace → Action (Unit {0})
unfolding check_reconciled check_reproduced
check_evidence config actor workspace_id workspace = do
  changes ← gets (λ s. Changes.get_changes workspace_id s.changes)
  check_reconciled
      (require_reconciled workspace (some (compute_change_set_hash config.digest changes)))
  check_reproduced config actor workspace_id workspace

unfoldable pub check_approval : Config → Actor → ℕ → Workspace → Action (Unit {0})
unfolding check_budget check_review check_evidence
check_approval config actor workspace_id workspace = do
  refuse_if (is_none workspace.validation_graph_hash) no_validation_evidence
  check_budget config.budget_gate workspace
  check_review config actor workspace_id workspace
  check_evidence config actor workspace_id workspace

unfoldable pub authorized : Result ValueError (Unit {0}) → Action (Unit {0})
authorized (ok _) = pure tt
authorized (err e) = raise (service_of e)

-- The tests of the loaded workspace, then the approval of the base class.
unfoldable pub approve_found : Config → ℕ → Actor → ℕ → Workspace → Action Baseline
unfolding check_approval
approve_found config new_id actor workspace_id workspace = do
  check_approval config actor workspace_id workspace
  approve_prepared config new_id actor workspace_id

-- `GovernedGatewayApplicationService.approve_workspace` after the authorization.
unfoldable pub approve_authorized : Config → ℕ → Actor → ℕ → Action Baseline
unfolding approve_found
approve_authorized config new_id actor workspace_id = do
  refuse_if (not (config.workspaces_configured && config.changes_configured)) not_configured
  workspace ← or_raise (← gets (λ s. lookup workspace_id s.workspaces)) workspace_not_found
  approve_found config new_id actor workspace_id workspace

-- `GovernedGatewayApplicationService.approve_workspace`
unfoldable pub approve_workspace : Config → ℕ → Actor → ℕ → Action Baseline
unfolding authorized approve_authorized
approve_workspace config new_id actor workspace_id = do
  authorized (require_approval actor.authorization_level (is_ai actor))
  approve_authorized config new_id actor workspace_id
