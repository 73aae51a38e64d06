-- ===== src/AdapterReconciler/Tests.antt =====
-- A change set with a requirement of one system, staged last, and an architecture element of another,
-- related to an element that stands in the canonical repository only.
use multi_agent_aircraft_dev.Base.{
  ℕ, String, ◌≡◌, refl, false, Option, none, some, List, [], ◌∷◌, ◌==◌, nat_eq, string_eq,
  if◌then◌else◌, sort_by, sort_with, to_set, contains, select, text_le,
}
use multi_agent_aircraft_dev.Dict.{lookup, insert, has_key, values}
use multi_agent_aircraft_dev.Errors.{ok, err, each}
use multi_agent_aircraft_dev.Evidence.{ExternalVersion, no_evidence}
use multi_agent_aircraft_dev.Models.{
  EngineeringElement, EngineeringRelation, EngineeringGraph, requirement, satisfies,
}
use multi_agent_aircraft_dev.Workspaces.{Workspace, active}
use multi_agent_aircraft_dev.AdapterReconciler.{
  names_not_unique, create_workspace, apply_element, apply_relation, get_workspace_version, Log,
  WorkspaceAdapter, Coordinator, operations_missing, names_not_unique,
}
use multi_agent_aircraft_dev.AdapterReconciler.Planning.{make_coordinator}
use multi_agent_aircraft_dev.AdapterReconciler.Calls.{reconcile}

abbrev element_of : ℕ → String → EngineeringElement
element_of n system = record {
  id = n;
  kind = requirement;
  type_id = "t";
  name = "an element";
  external_system = system;
  external_id = "e";
  source_uri = none;
}

abbrev link : EngineeringRelation
link = record { id = 9; source_id = 2; relation_type = satisfies; target_id = 7 }

abbrev staged : EngineeringGraph
staged = record {
  elements = element_of 4 "strictdoc" ∷ element_of 2 "capella" ∷ [];
  relations = link ∷ [];
}

abbrev in_canonical : ℕ → Option EngineeringElement
in_canonical n = if n == 7 then some (element_of 7 "strictdoc") else none

abbrev reported : String → ExternalVersion
reported system = record { system = system; version = "v2" }

abbrev adapter_of : String → List String → WorkspaceAdapter
adapter_of system missing = record {
  missing_methods = missing;
  answer = λ _ _. ok tt;
  version = λ _ _. ok (reported system);
}

abbrev coordinator_with : List String → Coordinator
coordinator_with missing = record {
  adapters =
      ("strictdoc", adapter_of "strictdoc" []) ∷ ("capella", adapter_of "capella" missing) ∷ [];
  canonical = some in_canonical;
  baselines = none;
}

abbrev initial : Workspace
initial = record {
  id = 1;
  version = 0;
  source_baseline_id = none;
  source_git_commit = "c0";
  change_request_id = 5;
  source_git_repository = some "repo";
  source_external_versions =
      record { system = "strictdoc"; version = "v1" }
      ∷ record { system = "capella"; version = "v1" }
      ∷ [];
  project_draft_id = some 3;
  git_ref = "ref";
  profile_id = none;
  profile_version = none;
  validation_graph_hash = none;
  validation_evidence = no_evidence;
  reconciled = false;
  reconciled_change_set_hash = none;
  reconciliation_external_versions = [];
  state = active;
}

abbrev text_of : EngineeringGraph → String
text_of g = "hash"

abbrev made : Log
made =
    ("capella", create_workspace 1 "v1" "hash")
    ∷ ("strictdoc", create_workspace 1 "v1" "hash")
    ∷ ("capella", apply_element 1 (element_of 2 "capella"))
    ∷ ("strictdoc", apply_element 1 (element_of 4 "strictdoc"))
    ∷ ("strictdoc", apply_relation 1 link)
    ∷ ("capella", get_workspace_version 1)
    ∷ ("strictdoc", get_workspace_version 1)
    ∷ []

-- A class without an operation is refused before any call.
run_1 :
    reconcile text_of (coordinator_with ("apply_relation" ∷ [])) initial staged []
    ≡ (err (operations_missing "capella" ("apply_relation" ∷ [])), [])
unfolding reconcile lookup insert select sort_by sort_with to_set values text_le has_key contains
    each
run_1 = refl

-- Two adapters of one name are refused.
coordinator_0 :
    make_coordinator (("git", adapter_of "git" []) ∷ ("git", adapter_of "git" []) ∷ []) none none
    ≡ err names_not_unique
unfolding make_coordinator insert
coordinator_0 = refl
