-- ===== src/Workspaces/Tests.antt =====
-- A registry with one workspace, and two writers that have read the same version of it.
use multi_agent_aircraft_dev.Base.{
  ℕ, nat_eq, ◌≡◌, refl, false, List, [], ◌∷◌, none, some, ◌==◌, if◌then◌else◌, contains,
}
use multi_agent_aircraft_dev.Dict.{lookup, insert}
use multi_agent_aircraft_dev.Errors.{modified_concurrently, ok, err}
use multi_agent_aircraft_dev.Evidence.{no_evidence}
use multi_agent_aircraft_dev.Workspaces.{
  Workspace, active, ready_for_approval, closed, require_transition,
}
use multi_agent_aircraft_dev.Workspaces.Registry.{
  WorkspaceStore, in_memory, in_database, bound, origin_changed, profile_changed, evidence_changed,
  reconciliation_dropped, reconciliation_changed, reconciliation_left_over, check_update,
  update_with,
}
use multi_agent_aircraft_dev.Workspaces.Updates.{Successor, update_with-ok, stale_update}
use multi_agent_aircraft_dev.Workspaces.History.{
  Call, create_call, update_call, perform_all, Lineage, perform_all-Lineage, perform_all-closed,
}

abbrev workspace_0 : Workspace
workspace_0 = record {
  id = 1;
  version = 2;
  source_baseline_id = some 4;
  source_git_commit = "c1";
  change_request_id = 7;
  source_git_repository = none;
  source_external_versions = [];
  project_draft_id = none;
  git_ref = "main";
  profile_id = none;
  profile_version = none;
  validation_graph_hash = none;
  validation_evidence = no_evidence;
  reconciled = false;
  reconciled_change_set_hash = none;
  reconciliation_external_versions = [];
  state = active;
}

abbrev prepared : Workspace
prepared = record workspace_0 { state = ready_for_approval }

abbrev store_0 : WorkspaceStore
store_0 = (1, workspace_0) ∷ []

abbrev after : Workspace
after = record prepared { version = 3 }

update_0 : update_with in_database prepared store_0 ≡ ok (after, (1, after) ∷ [])
unfolding update_with check_update origin_changed profile_changed evidence_changed bound
    reconciliation_dropped reconciliation_changed reconciliation_left_over require_transition lookup
    insert contains
update_0 = refl

update_with-ok_example :
    (current : Workspace) × (lookup 1 store_0 ≡ some current)
    × (current.version ≡ 2)
    × (after ≡ record prepared { version = 3 })
    × Successor current after
    × ((j : ℕ) → lookup j ((1, after) ∷ []) ≡ (if 1 == j then some after else lookup j store_0))
update_with-ok_example = update_with-ok in_database prepared store_0 update_0

stale_update_example :
    update_with in_memory (record workspace_0 { state = closed }) ((1, after) ∷ [])
    ≡ err modified_concurrently
stale_update_example =
    stale_update in_database in_memory prepared store_0 (record workspace_0 { state = closed })
      update_0 refl refl

abbrev calls_0 : List Call
calls_0 = update_call prepared ∷ update_call workspace_0 ∷ create_call workspace_0 ∷ []

stored_0 : lookup 1 store_0 ≡ some workspace_0
unfolding lookup
stored_0 = refl

perform_all-Lineage_example :
    (b : Workspace) × (lookup 1 (perform_all in_memory calls_0 store_0) ≡ some b)
    × Lineage workspace_0 b
perform_all-Lineage_example = perform_all-Lineage in_memory calls_0 store_0 1 stored_0

abbrev ended : Workspace
ended = record workspace_0 { state = closed }

abbrev ended_store : WorkspaceStore
ended_store = (1, ended) ∷ []

stored_1 : lookup 1 ended_store ≡ some ended
unfolding lookup
stored_1 = refl

perform_all-closed_example :
    (b : Workspace) × (lookup 1 (perform_all in_memory calls_0 ended_store) ≡ some b)
    × (b.state ≡ closed)
perform_all-closed_example = perform_all-closed in_memory calls_0 ended_store 1 stored_1 refl
