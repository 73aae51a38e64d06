-- ===== src/Gateway/Approval.antt =====
-- `approve_workspace` and `approve` of application/gateway_service.py.
use multi_agent_aircraft_dev.Base.{
  ℕ, String, Bool, false, not, ◌&&◌, ◌||◌, Option, none, some, [], ◌∷◌, map, ◌==◌, nat_eq,
  string_eq, option_eq, join, uuid_text, is_none, is_some, is_empty, if◌then◌else◌,
}
use multi_agent_aircraft_dev.Dict.{lookup}
use multi_agent_aircraft_dev.Errors.{
  ValueError, Exception, value_error, service, adapter, service_of, approval_failed_value,
  approval_failed_adapter, not_configured, direct_approval_disabled, not_ready_for_decision,
  no_profile_provenance, source_baseline_not_found, provenance_mismatch, no_pinned_repository,
  no_reconciliation_versions, not_a_descendant, Result, ok, err,
}
use multi_agent_aircraft_dev.ChangeControl
use multi_agent_aircraft_dev.ChangeControl.{
  ChangeRequest, ChangeRequestState, request_eq, level_eq, l2_modify_workspace, l3_approve,
  require_approval,
}
use multi_agent_aircraft_dev.Evidence.{ExternalVersion}
use multi_agent_aircraft_dev.Workspaces
use multi_agent_aircraft_dev.Workspaces.{
  Workspace, WorkspaceState, state_eq, make_workspace, clear_reconciliation,
  clear_validation_evidence,
}
use multi_agent_aircraft_dev.Baselines.{Baseline, ExternalSystemVersion, make_baseline, register}
use multi_agent_aircraft_dev.Audit.{
  success, failure, denied, raised, text, number, versions, of_text, of_id,
}
use multi_agent_aircraft_dev.Gateway.World.{
  Actor, is_ai, GitSnapshot, GitAdapter, Config, tag_requested, Action, pure, raise, gets, or_raise,
  lift, ask, try_catch, ◌>>=◌, ◌>>◌, refuse_if, call_external, on_baselines, record_action,
}
use multi_agent_aircraft_dev.Gateway.Service.{load_workflow, set_request_state, update_workspace}

-- What an exception of the `try` block of `approve_workspace` is raised as.
unfoldable pub approval_exception : Exception → Exception
approval_exception (value_error e) = approval_failed_value e
approval_exception (adapter t) = approval_failed_adapter t
approval_exception e = e

unfoldable pub approval_refused :
    {A : Type 0} → Actor → String → String → ℕ → Result ValueError (Unit {0}) → Action A → Action A
approval_refused actor action target_type target_id (ok _) rest = rest
approval_refused actor action target_type target_id (err e) rest = do
  record_action actor action target_type (some target_id) denied (some (raised (value_error e))) []
  raise (service_of e)

-- `approve`: there is no direct approval of a baseline.
unfoldable pub approve : Actor → ℕ → Action (Unit {0})
unfolding approval_refused
approve actor baseline_id =
    approval_refused actor "approve_baseline" "baseline" baseline_id
      (require_approval actor.authorization_level (is_ai actor))
      (raise (service direct_approval_disabled))

unfoldable pub source_moved : Workspace → Option Baseline → Bool
source_moved workspace none = false
source_moved workspace (some b) = not (workspace.source_git_commit == b.git_commit)

unfoldable pub source_repository : Workspace → Option Baseline → Option String
source_repository workspace none = workspace.source_git_repository
source_repository workspace (some b) = some b.git_repository

-- `source`: the baseline that the workspace comes from, if it comes from one
unfoldable pub source_baseline : Workspace → Action (Option Baseline)
unfolding source_moved
source_baseline workspace = do
  source ←
      gets
        (λ s. elim workspace.source_baseline_id [ none ↦ none | some id ↦ lookup id s.baselines ])
  refuse_if (is_none source && is_some workspace.source_baseline_id) source_baseline_not_found
  refuse_if (source_moved workspace source) provenance_mismatch
  pure source

-- `if not repository: raise`
unfoldable pub pinned_repository : Option String → Action String
pinned_repository none = raise (service no_pinned_repository)
pinned_repository (some r) = if r == "" then raise (service no_pinned_repository) else pure r

abbrev pub system_version : ExternalVersion → ExternalSystemVersion
system_version v = record { system = v.system; version = v.version }

-- `tagged.tag or tag`
tag_or : Option String → String → String
tag_or none tag = tag
tag_or (some t) tag = if t == "" then tag else t

-- The baseline that an approval registers, or the error of its construction.
unfoldable pub new_baseline : ℕ → Workspace → String → GitSnapshot → Result ValueError Baseline
unfolding tag_or make_baseline
new_baseline new_id workspace tag tagged = make_baseline (record {
  id = new_id;
  name = tag;
  git_repository = tagged.repository;
  git_commit = tagged.commit;
  git_tag = some (tag_or tagged.tag tag);
  external_versions = map system_version workspace.reconciliation_external_versions;
})

-- The body of the `try` block of `approve_workspace`.
unfoldable pub register_baseline :
    GitAdapter → ℕ → Workspace → ChangeRequest → String → Action Baseline
unfolding new_baseline update_workspace set_request_state
register_baseline git new_id workspace request repository = do
  snapshot ← ask (git.get_snapshot repository workspace.git_ref)
  descends ← ask (git.is_ancestor repository workspace.source_git_commit workspace.git_ref)
  refuse_if (not descends) not_a_descendant
  let tag = join "baseline-" (uuid_text workspace.id)
  call_external (tag_requested snapshot.repository tag snapshot.commit)
  tagged ← ask (git.create_tag snapshot.repository tag snapshot.commit)
  baseline ← lift (new_baseline new_id workspace tag tagged)
  registered ← on_baselines (register baseline)
  lift (Workspaces.require_transition workspace.state Workspaces.approved)
  lift (ChangeControl.require_transition request.state ChangeControl.approved)
  update_workspace (record workspace { state = Workspaces.approved })
  set_request_state request ChangeControl.approved
  pure registered

-- `except Exception` of `approve_workspace`.
unfoldable pub approval_failed : Actor → ℕ → Exception → Action Baseline
unfolding approval_exception
approval_failed actor workspace_id e = do
  record_action actor "approve_workspace" "workspace" (some workspace_id) failure (some (raised e))
      []
  raise (approval_exception e)

abbrev baseline_id_of : Option Baseline → Option ℕ
baseline_id_of none = none
baseline_id_of (some b) = some b.id

-- `approve_workspace` after the authorization.
unfoldable pub approve_ready : Config → GitAdapter → ℕ → Actor → ℕ → Action Baseline
unfolding load_workflow source_baseline source_repository pinned_repository register_baseline
    approval_failed
approve_ready config git new_id actor workspace_id = do
  (workspace, request) ← load_workflow config workspace_id
  refuse_if
      (not (workspace.state == Workspaces.ready_for_approval)
        || not (request.state == ChangeControl.ready_for_approval))
      not_ready_for_decision
  refuse_if (is_none workspace.profile_id || is_none workspace.profile_version)
      no_profile_provenance
  source ← source_baseline workspace
  repository ← pinned_repository (source_repository workspace source)
  refuse_if (is_empty workspace.reconciliation_external_versions) no_reconciliation_versions
  registered ←
      try_catch (register_baseline git new_id workspace request repository)
        (approval_failed actor workspace_id)
  record_action actor "approve_workspace" "baseline" (some registered.id) success none (
      ("workspace_id", number workspace_id)
      ∷ ("change_request_id", number request.id)
      ∷ ("source_baseline_id", of_id (baseline_id_of source))
      ∷ ("source_git_commit", text workspace.source_git_commit)
      ∷ ("git_commit", text registered.git_commit)
      ∷ ("git_tag", of_text registered.git_tag)
      ∷ ("profile_id", of_text workspace.profile_id)
      ∷ ("profile_version", of_text workspace.profile_version)
      ∷ ("external_versions", versions workspace.reconciliation_external_versions)
      ∷ [])
  pure registered

-- `GatewayApplicationService.approve_workspace`
unfoldable pub approve_prepared : Config → ℕ → Actor → ℕ → Action Baseline
unfolding approval_refused approve_ready
approve_prepared config new_id actor workspace_id = do
  refuse_if
      (not (
        config.workspaces_configured && config.change_requests_configured
        && config.baselines_configured))
      not_configured
  git ← or_raise config.git not_configured
  approval_refused actor "approve_workspace" "workspace" workspace_id
      (require_approval actor.authorization_level (is_ai actor))
      (approve_ready config git new_id actor workspace_id)
