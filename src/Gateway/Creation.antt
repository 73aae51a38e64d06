-- ===== src/Gateway/Creation.antt =====
-- The workspace creations of application/gateway_service.py. The identifiers that `uuid4` draws are
-- arguments.
use multi_agent_aircraft_dev.Base.{
  ℕ, String, false, not, ◌&&◌, ◌||◌, none, some, List, [], ◌∷◌, map, ◌==◌, nat_eq, string_eq,
  option_eq, text_le, is_some, unique, if◌then◌else◌,
}
use multi_agent_aircraft_dev.Dict.{lookup}
use multi_agent_aircraft_dev.Errors.{
  Exception, value_error, service_of, not_configured, baseline_not_found, change_request_not_found,
  baseline_mismatch, already_linked, request_not_open, initial_request_has_baseline,
  initial_request_in_use, duplicate_source_system,
}
use multi_agent_aircraft_dev.ChangeControl
use multi_agent_aircraft_dev.ChangeControl.{
  ChangeRequest, ChangeRequestState, request_eq, level_eq, l2_modify_workspace, l3_approve,
  require_approval,
}
use multi_agent_aircraft_dev.ChangeControl.Registry as Requests
use multi_agent_aircraft_dev.Evidence.{ExternalVersion, no_evidence}
use multi_agent_aircraft_dev.Workspaces
use multi_agent_aircraft_dev.Workspaces.{
  Workspace, WorkspaceState, state_eq, make_workspace, clear_reconciliation,
  clear_validation_evidence,
}
use multi_agent_aircraft_dev.Workspaces.Registry as Registry
use multi_agent_aircraft_dev.Baselines.{Baseline}
use multi_agent_aircraft_dev.Audit.{success, failure, raised, text, number}
use multi_agent_aircraft_dev.Gateway.World.{
  Actor, Config, Action, pure, raise, gets, or_raise, lift, ask, try_catch, ◌>>=◌, ◌>>◌, refuse_if,
  on_workspaces, on_change_requests, record_action,
}
use multi_agent_aircraft_dev.Gateway.Service.{require_modify}

-- The body of the `try` block of `create_workspace`.
unfoldable pub link_workspace : ChangeRequest → Baseline → Workspace → Action Workspace
link_workspace request baseline workspace = do
  (if request.state == ChangeControl.open_request
      then lift (ChangeControl.require_transition request.state ChangeControl.in_progress)
      else pure tt)
  created ← on_workspaces (Registry.create workspace)
  on_change_requests (
      Requests.update (record request {
        state = ChangeControl.in_progress;
        source_baseline_id = some baseline.id;
        workspace_id = some workspace.id;
      }))
  pure created

-- `except ValueError` of `create_workspace`.
unfoldable pub creation_failed : Actor → ℕ → Exception → Action Workspace
creation_failed actor workspace_id (value_error e) = do
  record_action actor "create_workspace" "workspace" (some workspace_id) failure
      (some (raised (value_error e))) []
  raise (service_of e)
creation_failed actor workspace_id e = raise e

-- A workspace that has only its origin.
unfoldable pub blank_workspace : ℕ → ℕ → String → String → Workspace
blank_workspace id change_request_id commit git_ref = record {
  id = id;
  version = 0;
  source_baseline_id = none;
  source_git_commit = commit;
  change_request_id = change_request_id;
  source_git_repository = none;
  source_external_versions = [];
  project_draft_id = none;
  git_ref = git_ref;
  profile_id = none;
  profile_version = none;
  validation_graph_hash = none;
  validation_evidence = no_evidence;
  reconciled = false;
  reconciled_change_set_hash = none;
  reconciliation_external_versions = [];
  state = Workspaces.active;
}

unfoldable pub create_workspace : Config → ℕ → Actor → ℕ → ℕ → String → Action Workspace
unfolding require_modify link_workspace creation_failed blank_workspace
create_workspace config new_id actor baseline_id change_request_id git_ref = do
  refuse_if
      (not (
        config.baselines_configured && config.change_requests_configured
        && config.workspaces_configured))
      not_configured
  require_modify actor
  found ← gets (λ s. lookup baseline_id s.baselines)
  asked ← gets (λ s. lookup change_request_id s.change_requests)
  baseline ← or_raise found baseline_not_found
  request ← or_raise asked change_request_not_found
  refuse_if
      (not (request.source_baseline_id == none || request.source_baseline_id == some baseline.id))
      baseline_mismatch
  refuse_if (is_some request.workspace_id) already_linked
  refuse_if
      (not
        (request.state == ChangeControl.open_request || request.state == ChangeControl.in_progress))
      request_not_open
  let blank = blank_workspace new_id request.id baseline.git_commit git_ref
  workspace ← lift (make_workspace (record blank { source_baseline_id = some baseline.id }))
  created ← try_catch (link_workspace request baseline workspace) (creation_failed actor new_id)
  record_action actor "create_workspace" "workspace" (some created.id) success none (
      ("source_baseline_id", number baseline.id)
      ∷ ("source_git_commit", text baseline.git_commit)
      ∷ ("change_request_id", number request.id)
      ∷ ("git_ref", text git_ref)
      ∷ [])
  pure created

insert_version : ExternalVersion → List ExternalVersion → List ExternalVersion
insert_version v [] = v ∷ []
insert_version v (w ∷ ws) =
    if text_le v.system w.system then v ∷ w ∷ ws else w ∷ insert_version v ws

-- `sorted(versions, key=lambda version: version.system)`
unfoldable pub sort_versions : List ExternalVersion → List ExternalVersion
unfolding insert_version
sort_versions [] = []
sort_versions (v ∷ vs) = insert_version v (sort_versions vs)

abbrev pub version_system : ExternalVersion → String
version_system v = v.system

unfoldable pub create_initial_workspace :
    Config → ℕ → Actor → ℕ → ℕ → String → String → Action Workspace
unfolding require_modify blank_workspace sort_versions
create_initial_workspace config new_id actor project_draft_id change_request_id git_repository
      git_ref =
    do
      require_modify actor
      git ← or_raise config.git not_configured
      refuse_if (not (config.workspaces_configured && config.change_requests_configured))
          not_configured
      asked ← gets (λ s. lookup change_request_id s.change_requests)
      request ← or_raise asked initial_request_has_baseline
      refuse_if (is_some request.source_baseline_id) initial_request_has_baseline
      refuse_if (is_some request.workspace_id || not (request.state == ChangeControl.open_request))
          initial_request_in_use
      snapshot ← ask (git.get_snapshot git_repository git_ref)
      found ← ask config.external_versions
      let versions = sort_versions found
      refuse_if (not (unique (map version_system versions))) duplicate_source_system
      let blank = blank_workspace new_id request.id snapshot.commit git_ref
      workspace ← lift (
          make_workspace (record blank {
            source_git_repository = some snapshot.repository;
            source_external_versions = versions;
            project_draft_id = some project_draft_id;
          }))
      created ← on_workspaces (Registry.create workspace)
      on_change_requests (
          Requests.update
            (record request { state = ChangeControl.in_progress; workspace_id = some created.id }))
      record_action actor "create_initial_workspace" "workspace" (some created.id) success none (
          ("project_draft_id", number project_draft_id)
          ∷ ("source_git_commit", text snapshot.commit)
          ∷ ("change_request_id", number request.id)
          ∷ [])
      pure created
