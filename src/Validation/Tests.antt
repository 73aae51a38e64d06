-- ===== src/Validation/Tests.antt =====
-- A requirement that a system satisfies and a test verifies, and a profile that asks for it.
use multi_agent_aircraft_dev.Base.{ℕ, String, ◌≡◌, refl, ◌↔◌, none, some, [], ◌∷◌, true}
use multi_agent_aircraft_dev.Evidence.{integer_value, boolean_value}
use multi_agent_aircraft_dev.Models.{
  EngineeringElement, EngineeringRelation, EngineeringGraph, ElementKind, requirement, verification,
  verified_by,
}
use multi_agent_aircraft_dev.Profiles.{StandardProfile, integer}
use multi_agent_aircraft_dev.Validation.{valid, element_issue, rule_issue}
use multi_agent_aircraft_dev.Validation.Engine.{EngineInputs, HashPayload, validate_graph}
use multi_agent_aircraft_dev.Validation.Conformance.{Conforms, validate_graph-Conforms}
use multi_agent_aircraft_dev.Validation.Defaults.{filled, validate_graph-filled}

abbrev element : ℕ → ElementKind → String → String → EngineeringElement
element id kind type_id external_id = record {
  id = id;
  kind = kind;
  type_id = type_id;
  name = "part";
  external_system = "strictdoc";
  external_id = external_id;
  source_uri = none;
}

abbrev verifying : EngineeringRelation
verifying = record { id = 10; source_id = 1; relation_type = verified_by; target_id = 2 }

abbrev graph_0 : EngineeringGraph
graph_0 = record {
  elements = element 1 requirement "req" "R1" ∷ element 2 verification "test" "T1" ∷ [];
  relations = verifying ∷ [];
}

abbrev profile_0 : StandardProfile
profile_0 = record {
  id = "arp";
  version = "1";
  name = "ARP";
  description = none;
  element_types =
      record {
        id = "req";
        kind = requirement;
        attributes =
            record { id = "level"; type = integer; required = true; description = none } ∷ [];
      }
      ∷ record { id = "test"; kind = verification; attributes = [] }
      ∷ [];
  relations =
      record {
        id = "r1";
        relation_type = verified_by;
        source_type_ids = "req" ∷ [];
        target_type_ids = "test" ∷ [];
      }
      ∷ [];
  lifecycles =
      record {
        id = "l1";
        element_type_id = "req";
        states = "draft" ∷ "final" ∷ [];
        transitions = ("draft", "final" ∷ []) ∷ [];
      }
      ∷ [];
  artifacts =
      record { id = "a1"; element_type_id = "test"; artifact_type = "report"; required = true }
      ∷ [];
  traceability = [];
  verification =
      record {
        id = "v1";
        element_type_id = "req";
        required_relation_type = verified_by;
        verification_type_id = "test";
      }
      ∷ [];
  metadata = "{}";
}

abbrev inputs_0 : EngineInputs
inputs_0 = record {
  attributes = some ((1, ("level", record { kind = integer_value; json = "3" }) ∷ []) ∷ []);
  artifact_evidence = (2, "report") ∷ [];
  lifecycle_states = some ((1, "final") ∷ []);
  lifecycle_transitions = some ((1, ("draft", "final")) ∷ []);
}

abbrev digest_0 : HashPayload → String
digest_0 p = p.profile.id

passes : valid (validate_graph digest_0 graph_0 profile_0 inputs_0) ≡ true
unfolding validate_graph
passes = refl

-- A Boolean is not an integer, an unknown element has a state, and the report is missing.
abbrev inputs_1 : EngineInputs
inputs_1 = record {
  attributes = some ((1, ("level", record { kind = boolean_value; json = "true" }) ∷ []) ∷ []);
  artifact_evidence = [];
  lifecycle_states = some ((7, "final") ∷ []);
  lifecycle_transitions = none;
}

fails :
    (validate_graph digest_0 graph_0 profile_0 inputs_1).issues
    ≡ element_issue "INVALID_ATTRIBUTE_TYPE" 1
      ∷ rule_issue "INVALID_LIFECYCLE_STATE" 1 "l1"
      ∷ element_issue "INVALID_LIFECYCLE_STATE" 7
      ∷ rule_issue "MISSING_ARTIFACT" 2 "a1"
      ∷ []
unfolding validate_graph
fails = refl

validate_graph-Conforms_example :
    (valid (validate_graph digest_0 graph_0 profile_0 inputs_0) ≡ true)
    ↔ Conforms graph_0 profile_0 inputs_0
validate_graph-Conforms_example = validate_graph-Conforms graph_0 profile_0 inputs_0 digest_0

conforms : Conforms graph_0 profile_0 inputs_0
conforms = validate_graph-Conforms_example.0 passes

validate_graph-filled_example :
    validate_graph digest_0 graph_0 profile_0 inputs_1
    ≡ validate_graph digest_0 graph_0 profile_0 (filled inputs_1)
validate_graph-filled_example = validate_graph-filled digest_0 graph_0 profile_0 inputs_1
