-- ===== src/Gateway/Tests.antt =====
-- The Gateway's properties at the small Gateway of the fixtures.
use multi_agent_aircraft_dev.Base.{◌≡◌, refl, inl, false, none, some, List, [], ◌∷◌, arith, nat_eq}
use multi_agent_aircraft_dev.Dict.{lookup}
use multi_agent_aircraft_dev.Errors.{ok, err, service_of, approval_requires_human_l3}
use multi_agent_aircraft_dev.ChangeControl
use multi_agent_aircraft_dev.ChangeControl.{
  ChangeRequest, l1_propose, l2_modify_workspace, l3_approve,
}
use multi_agent_aircraft_dev.Workspaces
use multi_agent_aircraft_dev.Workspaces.{Workspace}
use multi_agent_aircraft_dev.Gateway.World.{Actor, World, Reconciler}
use multi_agent_aircraft_dev.Gateway.Returns.{Returns}
use multi_agent_aircraft_dev.Gateway.GovernedApproval.{approve_workspace}
use multi_agent_aircraft_dev.Gateway.Operations.{
  Operation, approve_workspace_call, close_call, reject_call, perform_all,
}
use multi_agent_aircraft_dev.Gateway.Authority.{perform_all-baselines, approve_workspace-refused}
use multi_agent_aircraft_dev.Gateway.Decisions.{close_workspace}
use multi_agent_aircraft_dev.Gateway.Closing.{close_workspace-approved}
use multi_agent_aircraft_dev.Gateway.Reconciliation.{
  require_l2, reconcile_found, publish, try_publish, publish_result, has_evidence, reconciled_with,
  reconcile, ReconciliationResult,
}
use multi_agent_aircraft_dev.Gateway.Publication.{HoldsEvidence}
use multi_agent_aircraft_dev.Gateway.Replay.{reconcile-HoldsEvidence}
use multi_agent_aircraft_dev.Dict.{has_key}
use multi_agent_aircraft_dev.Base.{all, unique, contains, select, find, to_set, uuid_text, sort_by}
use multi_agent_aircraft_dev.Budget.{
  make_plan, line_fields_ok, require_within_limit, total_kopeks, lines_total,
}
use multi_agent_aircraft_dev.Audit.{latest_stored_review, first_row, metadata_at, record_event}
use multi_agent_aircraft_dev.Models.{compute_change_set_hash}
use multi_agent_aircraft_dev.Changes.{get_changes, staged, get_graph}
use multi_agent_aircraft_dev.Profiles.Registry.{get_profile, is_active}
use multi_agent_aircraft_dev.Gateway.World.{audit_record, record_action}
use multi_agent_aircraft_dev.Gateway.Service.{
  load_workflow, update_workspace, set_request_state, get_active_profile,
}
use multi_agent_aircraft_dev.Gateway.GovernedApproval.{
  review_current, check_approval, approve_found, check_evidence, check_budget, check_review,
  budget_evidence_ok, review_missing, check_reconciled, check_reproduced, reproduce_with,
  require_reproduced, approve_authorized, authorized,
}
use multi_agent_aircraft_dev.Gateway.Approval.{
  approve_prepared, approve_ready, register_baseline, new_baseline, approval_refused,
  source_baseline, source_repository, pinned_repository, source_moved, approval_failed,
}
use multi_agent_aircraft_dev.Baselines.{register}
use multi_agent_aircraft_dev.ChangeControl.Registry as Requests
use multi_agent_aircraft_dev.Workspaces.Registry as Registry
use multi_agent_aircraft_dev.Gateway.Fixtures.{
  hash_a, digest_of, config_0, bot, maker, workspace_0, request_0, world_with, world_0,
}

abbrev steps_0 : List (Actor × Operation)
steps_0 = (bot, approve_workspace_call 3 1) ∷ (maker, close_call 1) ∷ (bot, reject_call 1 "no") ∷ []

perform_all-baselines_example :
    (perform_all config_0 steps_0 world_0).store.baselines ≡ world_0.store.baselines
perform_all-baselines_example =
    perform_all-baselines config_0 steps_0 world_0 (inl refl, (inl refl, (inl refl, tt)))

approve_workspace-refused_example :
    approve_workspace config_0 3 bot 1 world_0
    ≡ (err (service_of approval_requires_human_l3), world_0)
approve_workspace-refused_example = approve_workspace-refused config_0 3 bot 1 world_0 (inl refl)

abbrev world_approved : World
world_approved =
    world_with (record workspace_0 { state = Workspaces.approved })
      (record request_0 { state = ChangeControl.approved })

closure-Returns :
    Returns
      (close_workspace config_0 maker 1)
      world_approved
      tt
      ((close_workspace config_0 maker 1 world_approved).1)
unfolding close_workspace ChangeControl.require_approval ChangeControl.require_transition lookup
    has_key all unique contains select find to_set uuid_text sort_by make_plan line_fields_ok
    require_within_limit total_kopeks lines_total latest_stored_review first_row metadata_at
    record_event Workspaces.require_reconciled Workspaces.require_transition compute_change_set_hash
    get_changes staged get_graph get_profile is_active audit_record record_action load_workflow
    update_workspace set_request_state get_active_profile review_current check_approval
    approve_found check_evidence check_budget check_review budget_evidence_ok review_missing
    check_reconciled check_reproduced reproduce_with require_reproduced approve_authorized
    authorized approve_prepared approve_ready register_baseline new_baseline approval_refused
    source_baseline source_repository pinned_repository source_moved approval_failed register
    Registry.durable_update Registry.check_update Registry.origin_changed Registry.profile_changed
    Registry.evidence_changed Registry.resetting_validation Registry.bound
    Registry.reconciliation_dropped Registry.reconciliation_changed
    Registry.reconciliation_left_over Requests.update
closure-Returns = refl

close_workspace-approved_example :
    (workspace : Workspace) × (request : ChangeRequest) × (lookup 1 world_approved.store.workspaces
      ≡ some workspace)
    × (lookup workspace.change_request_id world_approved.store.change_requests ≡ some request)
    × (workspace.state ≡ Workspaces.approved)
    × (request.state ≡ ChangeControl.approved)
close_workspace-approved_example =
    close_workspace-approved config_0 maker 1 world_approved closure-Returns

-- The reconciler answers, and the workspace is published for the first time.
abbrev reconciler_0 : Reconciler
reconciler_0 workspace changes = ok (record { system = "git"; version = "c3" } ∷ [])

abbrev world_prepared : World
world_prepared =
    world_with
      (record workspace_0 {
        reconciled = false;
        reconciled_change_set_hash = none;
        reconciliation_external_versions = [];
      })
      request_0

abbrev result_0 : ReconciliationResult
result_0 = record {
  workspace_id = 1;
  change_set_hash = hash_a;
  external_versions = record { system = "git"; version = "c3" } ∷ [];
}

reconciliation-Returns :
    Returns
      (reconcile reconciler_0 digest_of (λ s. s) maker 1)
      world_prepared
      result_0
      ((reconcile reconciler_0 digest_of (λ s. s) maker 1 world_prepared).1)
unfolding reconcile require_l2 reconcile_found publish try_publish publish_result has_evidence
    reconciled_with record_action audit_record record_event update_workspace compute_change_set_hash
    sort_by get_changes staged lookup Registry.durable_update Registry.update_with
    Registry.check_update Registry.origin_changed Registry.profile_changed Registry.evidence_changed
    Registry.reconciliation_dropped Registry.reconciliation_changed
    Registry.reconciliation_left_over Registry.resetting_validation Registry.bound
    Workspaces.require_transition Workspaces.mark_reconciled
reconciliation-Returns = refl

stored_at_one :
    (workspace : Workspace)
    → lookup 1 world_prepared.store.workspaces ≡ some workspace
    → workspace.id ≡ 1
unfolding lookup
stored_at_one workspace h = ground arith

reconcile-HoldsEvidence_example :
    HoldsEvidence 1 hash_a result_0
      (reconcile reconciler_0 digest_of (λ s. s) maker 1 world_prepared).1.store.workspaces
unfolding reconcile require_l2 reconcile_found publish try_publish publish_result has_evidence
    reconciled_with record_action audit_record record_event update_workspace compute_change_set_hash
    sort_by get_changes staged lookup Registry.durable_update Registry.update_with
    Registry.check_update Registry.origin_changed Registry.profile_changed Registry.evidence_changed
    Registry.reconciliation_dropped Registry.reconciliation_changed
    Registry.reconciliation_left_over Registry.resetting_validation Registry.bound
    Workspaces.require_transition Workspaces.mark_reconciled
reconcile-HoldsEvidence_example =
    reconcile-HoldsEvidence reconciler_0 digest_of (λ s. s) maker 1 world_prepared stored_at_one
      reconciliation-Returns
