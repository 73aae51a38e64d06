-- ===== src/Gateway/Fixtures.antt =====
-- A small Gateway to test with: one workspace, prepared by `maker`, reviewed by `checker`, to be approved by `owner`.
use multi_agent_aircraft_dev.Base.{
  ◌+◌, String, refl, true, Option, none, some, [], ◌∷◌, is_empty, nat_eq, if◌then◌else◌,
}
use multi_agent_aircraft_dev.Errors.{ok}
use multi_agent_aircraft_dev.ChangeControl
use multi_agent_aircraft_dev.ChangeControl.{
  ChangeRequest, l1_propose, l2_modify_workspace, l3_approve,
}
use multi_agent_aircraft_dev.Evidence.{ValidationInputs}
use multi_agent_aircraft_dev.Budget.{BudgetPlan}
use multi_agent_aircraft_dev.Workspaces
use multi_agent_aircraft_dev.Workspaces.{Workspace}
use multi_agent_aircraft_dev.Baselines.{Baseline}
use multi_agent_aircraft_dev.Models.{EngineeringGraph}
use multi_agent_aircraft_dev.Profiles.{StandardProfile}
use multi_agent_aircraft_dev.Validation.{Validator}
use multi_agent_aircraft_dev.Audit.{AuditEvent, human, ai, success, stated, flag, text, number}
use multi_agent_aircraft_dev.Gateway.World.{Actor, GitSnapshot, GitAdapter, Config, Store, World}

abbrev pub hash_a : String
hash_a = "aaaaaaaaaaaaaaaaaaaaaaaaaaaaaaaaaaaaaaaaaaaaaaaaaaaaaaaaaaaaaaaa"

abbrev pub hash_b : String
hash_b = "bbbbbbbbbbbbbbbbbbbbbbbbbbbbbbbbbbbbbbbbbbbbbbbbbbbbbbbbbbbbbbbb"

abbrev pub digest_of : EngineeringGraph → String
digest_of g = if is_empty g.elements then hash_a else hash_b

abbrev pub snapshot_at : Option String → GitSnapshot
snapshot_at t = record { repository = "repo"; commit = "c2"; tag = t }

abbrev pub git_adapter : GitAdapter
git_adapter = record {
  get_snapshot = λ _ _. ok (snapshot_at none);
  is_ancestor = λ _ _ _. ok true;
  create_tag = λ _ t _. ok (snapshot_at (some t));
}

abbrev pub engine : Validator
engine = record {
  validate = λ g p _. record {
    profile_id = p.id;
    profile_version = p.version;
    graph_hash = digest_of g;
    issues = [];
  };
  graph_hash = λ g p _. digest_of g;
  validate_hash = λ g p inputs. refl;
}

abbrev pub config_0 : Config
config_0 = record {
  workspaces_configured = true;
  change_requests_configured = true;
  baselines_configured = true;
  changes_configured = true;
  git = some git_adapter;
  external_versions = ok [];
  budget_gate = some (record { limit_kopeks = 100 });
  review_required = true;
  validator = engine;
  digest = digest_of;
}

abbrev pub owner : Actor
owner = record { actor_id = "owner"; actor_type = human; authorization_level = l3_approve }

abbrev pub bot : Actor
bot = record { actor_id = "bot"; actor_type = ai; authorization_level = l3_approve }

abbrev pub maker : Actor
maker = record { actor_id = "maker"; actor_type = ai; authorization_level = l2_modify_workspace }

abbrev pub inputs_0 : ValidationInputs
inputs_0 = record {
  attributes = [];
  artifact_evidence = [];
  lifecycle_states = [];
  lifecycle_transitions = [];
}

abbrev pub plan_0 : BudgetPlan
plan_0 = record {
  lines =
      record {
        id = "pump";
        description = "a pump";
        quantity = 2;
        unit_cost_kopeks = 30;
        source_uri = "offer";
      }
      ∷ [];
  contingency_kopeks = 5;
}

abbrev pub workspace_0 : Workspace
workspace_0 = record {
  id = 1;
  version = 2;
  source_baseline_id = none;
  source_git_commit = "c1";
  change_request_id = 7;
  source_git_repository = some "repo";
  source_external_versions = [];
  project_draft_id = some 5;
  git_ref = "main";
  profile_id = some "p";
  profile_version = some "1";
  validation_graph_hash = some hash_a;
  validation_evidence = record {
    inputs = some inputs_0;
    budget_plan = some plan_0;
    budget_limit_kopeks = some 100;
    prepared_by_actor_id = some "maker";
  };
  reconciled = true;
  reconciled_change_set_hash = some hash_a;
  reconciliation_external_versions = record { system = "git"; version = "c2" } ∷ [];
  state = Workspaces.ready_for_approval;
}

abbrev pub request_0 : ChangeRequest
request_0 = record {
  id = 7;
  external_system = "tracker";
  external_id = "T-1";
  title = "a change";
  state = ChangeControl.ready_for_approval;
  source_baseline_id = none;
  workspace_id = some 1;
}

abbrev pub review_0 : AuditEvent
review_0 = record {
  id = 100;
  timestamp = 0;
  actor_id = "checker";
  actor_type = human;
  authorization_level = l2_modify_workspace;
  action = "independent_review";
  target_type = "workspace";
  target_id = some 1;
  result = success;
  reason = some (stated "sound");
  metadata =
      ("accepted", flag true)
      ∷ ("evidence_uri", text "report")
      ∷ ("validation_graph_hash", text hash_a)
      ∷ ("reconciled_change_set_hash", text hash_a)
      ∷ ("workspace_version", number 2)
      ∷ [];
}

abbrev pub profile_0 : StandardProfile
profile_0 = record {
  id = "p";
  version = "1";
  name = "a profile";
  description = none;
  element_types = [];
  relations = [];
  lifecycles = [];
  artifacts = [];
  traceability = [];
  verification = [];
  metadata = "{}";
}

abbrev pub store_with : Workspace → ChangeRequest → Store
store_with workspace request = record {
  workspaces = (1, workspace) ∷ [];
  change_requests = (7, request) ∷ [];
  baselines = [];
  changes = record { elements = []; relations = [] };
  canonical = record { elements = []; relations = [] };
  profiles = record { profiles = (("p", "1"), profile_0) ∷ []; active = ("p", "1") ∷ [] };
  audit = review_0 ∷ [];
}

abbrev pub world_with : Workspace → ChangeRequest → World
world_with workspace request = record {
  store = store_with workspace request;
  separate_audit = [];
  stamps = λ n. record { id = 101 + n; timestamp = 1 + n };
  calls = [];
}

abbrev pub world_0 : World
world_0 = world_with workspace_0 request_0

abbrev pub tag_0 : String
tag_0 = "baseline-00000000-0000-0000-0000-000000000001"

abbrev pub baseline_0 : Baseline
baseline_0 = record {
  id = 3;
  name = tag_0;
  git_repository = "repo";
  git_commit = "c2";
  git_tag = some tag_0;
  external_versions = record { system = "git"; version = "c2" } ∷ [];
}
