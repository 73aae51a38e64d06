-- ===== src/Workspaces/Registry.antt =====
-- The workspace registries: `WorkspaceRegistry` of domain/workspaces.py, in memory, and
-- `SqlAlchemyWorkspaceRegistry` of infrastructure/metadata_repositories.py. Both write a workspace
-- only if it carries the stored version, and store the next one.
use multi_agent_aircraft_dev.Base.{
  ℕ, ◌+◌, Bool, not, ◌&&◌, ◌||◌, Option, none, some, ◌==◌, nat_eq, string_eq, option_eq, list_eq,
  is_none, is_some, is_empty,
}
use multi_agent_aircraft_dev.Dict.{Dict, lookup, insert, has_key}
use multi_agent_aircraft_dev.Errors.{
  ValueError, profile_immutable, workspace_exists, workspace_missing, modified_concurrently,
  origin_immutable, evidence_immutable, reconciliation_immutable, reconciliation_replaced,
  reconciliation_not_cleared_together, Result, ok, err, ◌>>◌, raise_if,
}
use multi_agent_aircraft_dev.Evidence.{version_eq, evidence_eq, no_evidence}
use multi_agent_aircraft_dev.Workspaces.{active, state_eq, Workspace, require_transition}

abbrev pub WorkspaceStore : Type 0
WorkspaceStore = Dict ℕ Workspace

unfoldable pub create : Workspace → WorkspaceStore → Result ValueError (Workspace × WorkspaceStore)
create workspace store = do
  raise_if (has_key workspace.id store) workspace_exists
  ok (workspace, insert workspace.id workspace store)

-- The first test of `update` after the version: one of the fields that fix the origin differs.
unfoldable pub origin_changed : Workspace → Workspace → Bool
origin_changed current w =
    not (current.source_baseline_id == w.source_baseline_id)
    || not (current.source_git_commit == w.source_git_commit)
    || not (current.source_git_repository == w.source_git_repository)
    || not (current.source_external_versions == w.source_external_versions)
    || not (current.project_draft_id == w.project_draft_id)
    || not (current.change_request_id == w.change_request_id)
    || not (current.git_ref == w.git_ref)

unfoldable pub profile_changed : Workspace → Workspace → Bool
profile_changed current w =
    (is_some current.profile_id && not (current.profile_id == w.profile_id))
    || (is_some current.profile_version && not (current.profile_version == w.profile_version))

unfoldable pub resetting_validation : Workspace → Workspace → Bool
resetting_validation current w =
    is_some current.validation_graph_hash
    && is_none w.validation_graph_hash
    && w.validation_evidence == no_evidence
    && w.state == active

-- When the stored evidence may no longer be replaced: in memory once a hash is bound, in the
-- database also while evidence stands without one.
pub data Backend : Type 0 where
  in_memory in_database : Backend

unfoldable pub bound : Backend → Workspace → Bool
bound in_memory current = is_some current.validation_graph_hash
bound in_database current =
    is_some current.validation_graph_hash || not (current.validation_evidence == no_evidence)

unfoldable pub evidence_changed : Backend → Workspace → Workspace → Bool
unfolding resetting_validation
evidence_changed backend current w =
    (is_some current.validation_graph_hash
      && not (current.validation_graph_hash == w.validation_graph_hash)
      && not (resetting_validation current w))
    || (bound backend current
        && not (current.validation_evidence == w.validation_evidence)
        && not (resetting_validation current w))

unfoldable pub reconciliation_dropped : Workspace → Workspace → Bool
reconciliation_dropped current w =
    current.reconciled
    && not w.reconciled
    && not (current.state == active)
    && not (w.state == active)

unfoldable pub reconciliation_changed : Workspace → Workspace → Bool
reconciliation_changed current w =
    current.reconciled
    && w.reconciled
    && (not (current.reconciled_change_set_hash == w.reconciled_change_set_hash)
        || not (current.reconciliation_external_versions == w.reconciliation_external_versions))

unfoldable pub reconciliation_left_over : Workspace → Bool
reconciliation_left_over w =
    not w.reconciled
    && (is_some w.reconciled_change_set_hash || not (is_empty w.reconciliation_external_versions))

-- The tests of `update` against the stored workspace, in their order.
unfoldable pub check_update : Backend → Workspace → Workspace → Result ValueError (Unit {0})
check_update backend current w = do
  raise_if (not (current.version == w.version)) modified_concurrently
  raise_if (origin_changed current w) origin_immutable
  raise_if (profile_changed current w) profile_immutable
  raise_if (evidence_changed backend current w) evidence_immutable
  raise_if (reconciliation_dropped current w) reconciliation_immutable
  raise_if (reconciliation_changed current w) reconciliation_replaced
  raise_if (reconciliation_left_over w) reconciliation_not_cleared_together
  require_transition current.state w.state

update_found :
    Backend
    → Option Workspace
    → Workspace
    → WorkspaceStore
    → Result ValueError (Workspace × WorkspaceStore)
update_found backend none w store = err workspace_missing
update_found backend (some current) w store = do
  check_update backend current w
  let next = record w { version = w.version + 1 }
  ok (next, insert w.id next store)

unfoldable pub update_with :
    Backend → Workspace → WorkspaceStore → Result ValueError (Workspace × WorkspaceStore)
unfolding update_found
update_with backend w store = update_found backend (lookup w.id store) w store

-- `WorkspaceRegistry.update`
unfoldable pub update : Workspace → WorkspaceStore → Result ValueError (Workspace × WorkspaceStore)
unfolding update_with
update = update_with in_memory

-- `SqlAlchemyWorkspaceRegistry.update`: in the transaction, the row that is written is the row read.
unfoldable pub durable_update :
    Workspace → WorkspaceStore → Result ValueError (Workspace × WorkspaceStore)
unfolding update_with
durable_update = update_with in_database
