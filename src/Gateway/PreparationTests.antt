-- ===== src/Gateway/PreparationTests.antt =====
-- A preparation with the validation engine, of a workspace that holds one requirement.
use multi_agent_aircraft_dev.Base.{
  ◌≡◌, refl, String, true, false, none, some, [], ◌∷◌, nat_eq, all, unique, contains, select, last,
  find, to_set, collect, sort_by, sort_with, uuid_text,
}
use multi_agent_aircraft_dev.Dict.{lookup, has_key, insert, values}
use multi_agent_aircraft_dev.ChangeControl
use multi_agent_aircraft_dev.Evidence.{no_evidence}
use multi_agent_aircraft_dev.Workspaces
use multi_agent_aircraft_dev.Workspaces.{Workspace}
use multi_agent_aircraft_dev.Workspaces.Registry as Registry
use multi_agent_aircraft_dev.ChangeControl.Registry as Requests
use multi_agent_aircraft_dev.Models.{EngineeringGraph, requirement}
use multi_agent_aircraft_dev.Profiles.{StandardProfile}
use multi_agent_aircraft_dev.Profiles.Registry.{get_profile, is_active}
use multi_agent_aircraft_dev.Changes.{get_changes, staged, get_graph}
use multi_agent_aircraft_dev.Validation.{ValidationResult}
use multi_agent_aircraft_dev.Validation.Engine.{
  HashPayload, given, graph_hash, engine, validate_graph,
}
use multi_agent_aircraft_dev.Validation.Conformance.{Conforms}
use multi_agent_aircraft_dev.Gateway.World.{Config, World, audit_record, record_action}
use multi_agent_aircraft_dev.Gateway.Returns.{Returns}
use multi_agent_aircraft_dev.Gateway.Service.{
  require_modify, load_workflow, update_workspace, set_request_state, get_active_profile,
}
use multi_agent_aircraft_dev.Gateway.Preparation.{
  require_preparable, require_budget, evidence_of, bind_and_submit, bind_if_valid, prepare_with,
  prepare_loaded, prepare_authorized, prepare_for_approval,
}
use multi_agent_aircraft_dev.Gateway.Validated.{prepare_for_approval-Conforms}
use multi_agent_aircraft_dev.Gateway.Fixtures.{
  hash_a, config_0, maker, inputs_0, workspace_0, request_0, profile_0, world_with,
}

abbrev digest_0 : HashPayload → String
digest_0 p = hash_a

abbrev config_1 : Config
config_1 = record config_0 { budget_gate = none; validator = engine digest_0 }

abbrev graph_1 : EngineeringGraph
graph_1 = record {
  elements =
      record {
        id = 21;
        kind = requirement;
        type_id = "req";
        name = "range";
        external_system = "strictdoc";
        external_id = "R1";
        source_uri = none;
      }
      ∷ [];
  relations = [];
}

abbrev profile_1 : StandardProfile
profile_1 = record profile_0 {
  element_types = record { id = "req"; kind = requirement; attributes = [] } ∷ [];
}

abbrev active_1 : Workspace
active_1 = record workspace_0 {
  profile_id = none;
  profile_version = none;
  validation_graph_hash = none;
  validation_evidence = no_evidence;
  reconciled = false;
  reconciled_change_set_hash = none;
  reconciliation_external_versions = [];
  state = Workspaces.active;
}

abbrev world_1 : World
world_1 =
    let base = world_with active_1 (record request_0 { state = ChangeControl.in_progress }) in
    record base {
      store = record base.store {
        canonical = graph_1;
        profiles = record { profiles = (("p", "1"), profile_1) ∷ []; active = ("p", "1") ∷ [] };
      };
    }

abbrev result_1 : ValidationResult
result_1 = record { profile_id = "p"; profile_version = "1"; graph_hash = hash_a; issues = [] }

preparation-Returns :
    Returns
      (prepare_for_approval config_1 maker 1 false "p" "1" inputs_0 none)
      world_1
      result_1
      ((prepare_for_approval config_1 maker 1 false "p" "1" inputs_0 none world_1).1)
unfolding prepare_for_approval engine validate_graph require_modify prepare_authorized
    prepare_loaded prepare_with bind_if_valid bind_and_submit evidence_of require_budget
    require_preparable load_workflow update_workspace set_request_state get_active_profile
    audit_record record_action get_profile is_active get_changes staged get_graph lookup has_key
    insert values all unique contains select last find to_set collect sort_by sort_with uuid_text
    ChangeControl.require_transition Workspaces.require_transition Workspaces.bind_profile
    Workspaces.bind_validation_evidence Registry.durable_update Registry.check_update
    Registry.origin_changed Registry.profile_changed Registry.evidence_changed
    Registry.resetting_validation Registry.bound Registry.reconciliation_dropped
    Registry.reconciliation_changed Registry.reconciliation_left_over Requests.update
preparation-Returns = refl

prepare_for_approval-Conforms_example :
    (profile : StandardProfile) × (get_profile "p" "1" world_1.store.profiles ≡ some profile)
    × (is_active "p" "1" world_1.store.profiles ≡ true)
    × Conforms (get_graph graph_1 1 world_1.store.changes) profile (given digest_0 inputs_0)
    × (hash_a
        ≡ graph_hash digest_0
            (get_graph graph_1 1 world_1.store.changes)
            profile
            (given digest_0 inputs_0))
prepare_for_approval-Conforms_example =
    prepare_for_approval-Conforms digest_0 config_1 maker 1 false "p" "1" inputs_0 none world_1
      result_1 ((prepare_for_approval config_1 maker 1 false "p" "1" inputs_0 none world_1).1) refl
      preparation-Returns refl
