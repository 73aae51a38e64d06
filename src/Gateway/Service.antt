-- ===== src/Gateway/Service.antt =====
-- application/gateway_service.py: what the operations of `GatewayApplicationService` share.
use multi_agent_aircraft_dev.Base.{
  ℕ, String, Bool, not, ◌&&◌, Option, none, some, [], ◌==◌, nat_eq, string_eq, option_eq,
  if◌then◌else◌,
}
use multi_agent_aircraft_dev.Dict.{lookup}
use multi_agent_aircraft_dev.Errors.{
  ServiceError, service, not_configured, only_l2_may_modify, workspace_not_active,
  profile_not_found, profile_not_active, workspace_not_found, request_of_workspace_not_found,
}
use multi_agent_aircraft_dev.ChangeControl.{
  ChangeRequest, ChangeRequestState, request_eq, level_eq, l2_modify_workspace,
}
use multi_agent_aircraft_dev.ChangeControl.Registry as Requests
use multi_agent_aircraft_dev.Workspaces
use multi_agent_aircraft_dev.Workspaces.{
  Workspace, WorkspaceState, state_eq, make_workspace, clear_reconciliation,
  clear_validation_evidence,
}
use multi_agent_aircraft_dev.Workspaces.Registry as Registry
use multi_agent_aircraft_dev.Audit.{failure, raised}
use multi_agent_aircraft_dev.Profiles.{StandardProfile}
use multi_agent_aircraft_dev.Profiles.Registry.{get_profile, is_active}
use multi_agent_aircraft_dev.Gateway.World.{
  Actor, Config, Action, pure, raise, gets, or_raise, ◌>>=◌, ◌>>◌, refuse_if, on_workspaces,
  on_change_requests, record_action,
}

-- `_require_modify`
unfoldable pub require_modify : Actor → Action (Unit {0})
require_modify actor =
    refuse_if (not (actor.authorization_level == l2_modify_workspace)) only_l2_may_modify

-- `_load_workflow`
unfoldable pub load_workflow : Config → ℕ → Action (Workspace × ChangeRequest)
load_workflow config workspace_id = do
  refuse_if (not (config.workspaces_configured && config.change_requests_configured)) not_configured
  workspace ← or_raise (← gets (λ s. lookup workspace_id s.workspaces)) workspace_not_found
  request ←
      or_raise (← gets (λ s. lookup workspace.change_request_id s.change_requests))
        request_of_workspace_not_found
  pure (workspace, request)

-- `_require_workspace`
unfoldable pub require_workspace : Config → Actor → ℕ → Action Workspace
unfolding require_modify load_workflow
require_workspace config actor workspace_id = do
  require_modify actor
  (workspace, _) ← load_workflow config workspace_id
  refuse_if (not (workspace.state == Workspaces.active)) workspace_not_active
  pure workspace

unfoldable pub refuse_profile : Actor → String → ServiceError → Action StandardProfile
refuse_profile actor action e = do
  record_action actor action "standard_profile" none failure (some (raised (service e))) []
  raise (service e)

unfoldable pub profile_if : Actor → String → Option StandardProfile → Bool → Action StandardProfile
unfolding refuse_profile
profile_if actor action none active = refuse_profile actor action profile_not_found
profile_if actor action (some profile) active =
    if active then pure profile else refuse_profile actor action profile_not_active

-- `_get_active_profile`
unfoldable pub get_active_profile : Actor → String → String → String → Action StandardProfile
unfolding profile_if
get_active_profile actor action profile_id profile_version = do
  found ← gets (λ s. get_profile profile_id profile_version s.profiles)
  active ← gets (λ s. is_active profile_id profile_version s.profiles)
  profile_if actor action found active

-- The state of a change request, written through its registry.
unfoldable pub set_request_state : ChangeRequest → ChangeRequestState → Action ChangeRequest
set_request_state request state =
    on_change_requests (Requests.update (record request { state = state }))

unfoldable pub update_workspace : Workspace → Action Workspace
update_workspace workspace = on_workspaces (Registry.durable_update workspace)
