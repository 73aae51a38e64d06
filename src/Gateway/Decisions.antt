-- ===== src/Gateway/Decisions.antt =====
-- Rejection, reopening and closure of a workspace, in application/gateway_service.py and (rejection, in
-- the form that overrides it) application/governed_gateway_service.py.
use multi_agent_aircraft_dev.Base.{
  ℕ, String, not, ◌&&◌, ◌||◌, none, some, [], ◌==◌, nat_eq, string_eq, option_eq, is_blank,
  if◌then◌else◌,
}
use multi_agent_aircraft_dev.Errors.{
  service, not_configured, rejection_requires_human_l3, not_ready_for_rejection,
  rejection_needs_reason, not_reopenable, closure_needs_approved_request, not_closable,
}
use multi_agent_aircraft_dev.ChangeControl
use multi_agent_aircraft_dev.ChangeControl.{
  ChangeRequest, ChangeRequestState, request_eq, level_eq, l2_modify_workspace, l3_approve,
  require_approval,
}
use multi_agent_aircraft_dev.Workspaces
use multi_agent_aircraft_dev.Workspaces.{
  Workspace, WorkspaceState, state_eq, make_workspace, clear_reconciliation,
  clear_validation_evidence,
}
use multi_agent_aircraft_dev.Audit.{success, stated}
use multi_agent_aircraft_dev.Gateway.World.{
  Actor, is_ai, Config, Action, raise, lift, ◌>>=◌, ◌>>◌, refuse_if, record_action,
}
use multi_agent_aircraft_dev.Gateway.Service.{
  require_modify, load_workflow, set_request_state, update_workspace,
}

unfoldable pub reject_workspace : Config → Actor → ℕ → String → Action (Unit {0})
unfolding load_workflow set_request_state update_workspace
reject_workspace config actor workspace_id reason = do
  refuse_if (not (config.workspaces_configured && config.change_requests_configured)) not_configured
  refuse_if (is_ai actor || not (actor.authorization_level == l3_approve))
      rejection_requires_human_l3
  (workspace, request) ← load_workflow config workspace_id
  refuse_if
      (not (workspace.state == Workspaces.ready_for_approval)
        || not (request.state == ChangeControl.ready_for_approval))
      not_ready_for_rejection
  refuse_if (is_blank reason) rejection_needs_reason
  lift (Workspaces.require_transition workspace.state Workspaces.active)
  lift (ChangeControl.require_transition request.state ChangeControl.rejected)
  unreconciled ← lift (clear_reconciliation (record workspace { state = Workspaces.active }))
  reset ← lift (clear_validation_evidence unreconciled)
  update_workspace reset
  set_request_state request ChangeControl.rejected
  record_action actor "reject_workspace" "workspace" (some workspace_id) success
      (some (stated reason)) []

unfoldable pub reopen_workspace : Config → Actor → ℕ → Action (Unit {0})
unfolding require_modify load_workflow set_request_state
reopen_workspace config actor workspace_id = do
  refuse_if (not (config.workspaces_configured && config.change_requests_configured)) not_configured
  require_modify actor
  (workspace, request) ← load_workflow config workspace_id
  refuse_if
      (not (workspace.state == Workspaces.active) || not (request.state == ChangeControl.rejected))
      not_reopenable
  lift (ChangeControl.require_transition request.state ChangeControl.in_progress)
  set_request_state request ChangeControl.in_progress
  record_action actor "reopen_workspace" "workspace" (some workspace_id) success none []

-- The tests of `close_workspace` on the two states.
unfoldable pub require_closable : WorkspaceState → ChangeRequestState → Action (Unit {0})
require_closable workspace_state request_state =
    if workspace_state == Workspaces.approved
    then (refuse_if (not (request_state == ChangeControl.approved)) closure_needs_approved_request
        >> lift (ChangeControl.require_transition request_state ChangeControl.closed))
    else if workspace_state == Workspaces.active && request_state == ChangeControl.rejected
    then lift (ChangeControl.require_transition request_state ChangeControl.closed)
    else raise (service not_closable)

-- The writes of `close_workspace`.
unfoldable pub write_closure : Actor → ℕ → Workspace → ChangeRequest → Action (Unit {0})
unfolding set_request_state update_workspace
write_closure actor workspace_id workspace request = do
  set_request_state request ChangeControl.closed
  lift (Workspaces.require_transition workspace.state Workspaces.closed)
  update_workspace (record workspace { state = Workspaces.closed })
  record_action actor "close_workspace" "workspace" (some workspace_id) success none []

-- `close_workspace` on the loaded workflow.
unfoldable pub close_loaded : Actor → ℕ → Workspace × ChangeRequest → Action (Unit {0})
unfolding require_closable write_closure
close_loaded actor workspace_id (workspace, request) = do
  require_closable workspace.state request.state
  write_closure actor workspace_id workspace request

-- `close_workspace` after the tests of the service and of the actor.
unfoldable pub close_authorized : Config → Actor → ℕ → Action (Unit {0})
unfolding load_workflow close_loaded
close_authorized config actor workspace_id = do
  loaded ← load_workflow config workspace_id
  close_loaded actor workspace_id loaded

unfoldable pub close_workspace : Config → Actor → ℕ → Action (Unit {0})
unfolding require_modify close_authorized
close_workspace config actor workspace_id = do
  refuse_if (not (config.workspaces_configured && config.change_requests_configured)) not_configured
  require_modify actor
  close_authorized config actor workspace_id
