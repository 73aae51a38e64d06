-- ===== src/Gateway/Reconciliation.antt =====
-- application/workspace_reconciliation.py. The coordinator's lock makes the operation exclusive for its
-- workspace among the callers that take it; `meanwhile` is what other transactions commit to the
-- workspaces while the external systems work.
use multi_agent_aircraft_dev.Base.{
  ℕ, String, Bool, true, false, not, ◌&&◌, ◌||◌, Option, none, some, List, [], ◌∷◌, ◌==◌, nat_eq,
  string_eq, option_eq, length, if◌then◌else◌,
}
use multi_agent_aircraft_dev.Dict.{lookup}
use multi_agent_aircraft_dev.Errors.{
  Exception, value_error, service, adapter, workspace_not_found, reconciliation_requires_l2,
  reconciliation_needs_ready, reconciliation_failed_value, reconciliation_failed_adapter,
  modified_concurrently, request_of_workspace_not_found, Result, ok, err,
}
use multi_agent_aircraft_dev.ChangeControl
use multi_agent_aircraft_dev.ChangeControl.{
  ChangeRequest, ChangeRequestState, request_eq, level_eq, l0_read, l2_modify_workspace, l3_approve,
  require_approval,
}
use multi_agent_aircraft_dev.Evidence.{ExternalVersion}
use multi_agent_aircraft_dev.Workspaces
use multi_agent_aircraft_dev.Workspaces.{Workspace, WorkspaceState, state_eq, mark_reconciled}
use multi_agent_aircraft_dev.Workspaces.Registry.{WorkspaceStore}
use multi_agent_aircraft_dev.Audit.{
  flag, success, failure, denied, raised, MetaValue, text, number, versions,
}
use multi_agent_aircraft_dev.Models.{EngineeringGraph, compute_change_set_hash}
use multi_agent_aircraft_dev.Changes
use multi_agent_aircraft_dev.Gateway.World.{
  Actor, published, Reconciler, Action, pure, raise, gets, or_raise, lift, ask, ◌>>=◌, ◌>>◌,
  refuse_if, modify, call_external, record_action,
}
use multi_agent_aircraft_dev.Gateway.Service.{update_workspace}

pub record ReconciliationResult : Type 0 where
  pub workspace_id : ℕ
  pub change_set_hash : String
  pub external_versions : List ExternalVersion

abbrev reconcile_metadata :
    EngineeringGraph → String → List (String × MetaValue) → List (String × MetaValue)
reconcile_metadata changes hash rest =
    ("change_elements", number (length changes.elements))
    ∷ ("change_relations", number (length changes.relations))
    ∷ ("change_set_hash", text hash)
    ∷ rest

-- A successful end: the event, and the result with the versions that are evidence.
unfoldable pub reconciled_with :
    Actor
    → ℕ
    → EngineeringGraph
    → String
    → List ExternalVersion
    → List (String × MetaValue)
    → Action ReconciliationResult
reconciled_with actor workspace_id changes hash found mark = do
  record_action actor "reconcile_workspace" "workspace" (some workspace_id) success none
      (reconcile_metadata changes hash (("external_versions", versions found) ∷ mark))
  pure (record { workspace_id = workspace_id; change_set_hash = hash; external_versions = found })

-- What an exception of the `try` block is raised as.
unfoldable pub reconciliation_exception : Exception → Exception
reconciliation_exception (value_error e) = reconciliation_failed_value e
reconciliation_exception (adapter t) = reconciliation_failed_adapter t
reconciliation_exception e = e

unfoldable pub reconciliation_failed :
    Actor → ℕ → EngineeringGraph → String → Exception → Action ReconciliationResult
unfolding reconciliation_exception
reconciliation_failed actor workspace_id changes hash e = do
  record_action actor "reconcile_workspace" "workspace" (some workspace_id) failure
      (some (raised e)) (reconcile_metadata changes hash [])
  raise (reconciliation_exception e)

-- The workspace carries the evidence of this change set.
unfoldable pub has_evidence : String → Workspace → Bool
has_evidence hash workspace =
    workspace.reconciled && workspace.reconciled_change_set_hash == some hash

-- After a lost race: the winner's evidence, if it is for the same change set.
unfoldable pub concurrent_winner :
    Actor → ℕ → EngineeringGraph → String → Option Workspace → Action ReconciliationResult
unfolding reconciled_with reconciliation_failed has_evidence
concurrent_winner actor workspace_id changes hash none =
    reconciliation_failed actor workspace_id changes hash (value_error modified_concurrently)
concurrent_winner actor workspace_id changes hash (some current) =
    if has_evidence hash current
    then reconciled_with actor workspace_id changes hash current.reconciliation_external_versions
        (("concurrent_winner", flag true) ∷ [])
    else reconciliation_failed actor workspace_id changes hash (value_error modified_concurrently)

-- `isinstance(exc, ValueError) and "modified concurrently" in str(exc)`
unfoldable pub lost_race : Exception → Bool
lost_race (value_error modified_concurrently) = true
lost_race _ = false

-- `except Exception`
unfoldable pub recover :
    Actor → ℕ → EngineeringGraph → String → Exception → Action ReconciliationResult
unfolding lost_race concurrent_winner reconciliation_failed
recover actor workspace_id changes hash e =
    if lost_race e
    then (do
      current ← gets (λ s. lookup workspace_id s.workspaces)
      concurrent_winner actor workspace_id changes hash current)
    else reconciliation_failed actor workspace_id changes hash e

-- The `try` block.
unfoldable pub try_publish :
    Reconciler
    → (WorkspaceStore → WorkspaceStore)
    → Workspace
    → EngineeringGraph
    → String
    → Action (List ExternalVersion)
unfolding update_workspace
try_publish reconciler meanwhile workspace changes hash = do
  call_external (published workspace changes)
  found ← ask (reconciler workspace changes)
  modify (λ s. record s { workspaces = meanwhile s.workspaces })
  marked ← lift (mark_reconciled workspace hash found)
  update_workspace marked
  pure found

-- What follows the `try` block.
unfoldable pub publish_result :
    Actor
    → ℕ
    → EngineeringGraph
    → String
    → Result Exception (List ExternalVersion)
    → Action ReconciliationResult
unfolding recover reconciled_with
publish_result actor workspace_id changes hash (ok found) =
    reconciled_with actor workspace_id changes hash found []
publish_result actor workspace_id changes hash (err e) = recover actor workspace_id changes hash e

unfoldable pub publish :
    Reconciler
    → (WorkspaceStore → WorkspaceStore)
    → Actor
    → Workspace
    → ℕ
    → EngineeringGraph
    → String
    → Action ReconciliationResult
unfolding try_publish publish_result
publish reconciler meanwhile actor workspace workspace_id changes hash w =
    let (r, w') = try_publish reconciler meanwhile workspace changes hash w in
    publish_result actor workspace_id changes hash r w'

-- What the workspace store and the request store must hold.
abbrev pub not_both_ready : Workspace → ChangeRequest → Bool
not_both_ready workspace request =
    not (workspace.state == Workspaces.ready_for_approval)
    || not (request.state == ChangeControl.ready_for_approval)

-- The test of the actor's level, which is recorded when it fails.
unfoldable pub require_l2 : Actor → ℕ → Action (Unit {0})
require_l2 actor workspace_id =
    if actor.authorization_level == l2_modify_workspace then pure tt else (do
      record_action actor "reconcile_workspace" "workspace" (some workspace_id) denied
          (some (raised (service reconciliation_requires_l2))) []
      raise (service reconciliation_requires_l2))

-- `_reconcile_locked` on the workspace and the change request that it has found.
unfoldable pub reconcile_found :
    Reconciler
    → (EngineeringGraph → String)
    → (WorkspaceStore → WorkspaceStore)
    → Actor
    → ℕ
    → Workspace
    → ChangeRequest
    → Action ReconciliationResult
unfolding publish has_evidence reconciled_with
reconcile_found reconciler digest meanwhile actor workspace_id workspace request = do
  refuse_if (not_both_ready workspace request) reconciliation_needs_ready
  changes ← gets (λ s. Changes.get_changes workspace_id s.changes)
  let hash = compute_change_set_hash digest changes
  (if has_evidence hash workspace
      then reconciled_with actor workspace_id changes hash
          workspace.reconciliation_external_versions (("idempotent_replay", flag true) ∷ [])
      else publish reconciler meanwhile actor workspace workspace_id changes hash)

-- `_reconcile_locked`
unfoldable pub reconcile :
    Reconciler
    → (EngineeringGraph → String)
    → (WorkspaceStore → WorkspaceStore)
    → Actor
    → ℕ
    → Action ReconciliationResult
unfolding require_l2 reconcile_found
reconcile reconciler digest meanwhile actor workspace_id = do
  require_l2 actor workspace_id
  workspace ← or_raise (← gets (λ s. lookup workspace_id s.workspaces)) workspace_not_found
  request ←
      or_raise (← gets (λ s. lookup workspace.change_request_id s.change_requests))
        request_of_workspace_not_found
  reconcile_found reconciler digest meanwhile actor workspace_id workspace request
