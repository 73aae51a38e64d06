-- ===== src/Validation/Engine.antt =====
-- `validate_graph`, `graph_hash` and the order of the issues, of application/validation.py. SHA-256
-- over the canonical JSON text of the payload is a parameter, `digest`.
use multi_agent_aircraft_dev.Base.{
  ℕ, String, refl, Option, none, some, List, [], ◌∷◌, ◌++◌, map, nat_eq, string_eq, pair_eq,
  collect, sort_by, sort_with, texts_le, uuid_text, if◌then◌else◌,
}
use multi_agent_aircraft_dev.Dict.{Dict}
use multi_agent_aircraft_dev.Evidence.{AttributeValue, ValidationInputs}
use multi_agent_aircraft_dev.Models.{
  EngineeringElement, EngineeringRelation, EngineeringGraph, element_id, RelationType, derives_from,
  satisfies, allocated_to, verified_by, mitigates, affects, implements, refines, depends_on,
  governs,
}
use multi_agent_aircraft_dev.Profiles.{StandardProfile}
use multi_agent_aircraft_dev.Traceability.{make_graph}
use multi_agent_aircraft_dev.Traceability.Violations.{
  TraceabilityGap, forbidden, traceability_violations,
}
use multi_agent_aircraft_dev.Validation.{ValidationIssue, rule_issue, ValidationResult, Validator}
use multi_agent_aircraft_dev.Validation.Elements.{
  index_types, check_elements, note_elements, nothing_seen,
}
use multi_agent_aircraft_dev.Validation.Attributes.{validate_attributes}
use multi_agent_aircraft_dev.Validation.Relations.{allowed_pairs, check_relations}
use multi_agent_aircraft_dev.Validation.Rules.{
  validate_verification, validate_lifecycle, validate_artifacts,
}

-- `str(id or "")`
abbrev pub id_text : Option ℕ → String
id_text none = ""
id_text (some id) = uuid_text id

-- `rule_id or ""`
abbrev pub text_or_blank : Option String → String
text_or_blank none = ""
text_or_blank (some t) = t

unfoldable pub issue_sort_key : ValidationIssue → List String
unfolding uuid_text
issue_sort_key issue =
    issue.code
    ∷ id_text issue.element_id
    ∷ id_text issue.relation_id
    ∷ text_or_blank issue.rule_id
    ∷ []

-- The issue for a gap of the traceability.
unfoldable pub gap_issue : TraceabilityGap → ValidationIssue
unfolding forbidden
gap_issue gap =
    rule_issue (if forbidden gap then "FORBIDDEN_TRACEABILITY" else "MISSING_TRACEABILITY")
      gap.source_id gap.rule_id

-- `d or {}`
abbrev pub or_empty {ℓ} : {A : Type ℓ} → Option (List A) → List A
or_empty none = []
or_empty (some d) = d

-- The four inputs beside the graph and the profile, as the calls give them.
pub record EngineInputs : Type 0 where
  pub attributes : Option (Dict ℕ (Dict String AttributeValue))
  pub artifact_evidence : List (ℕ × String)
  pub lifecycle_states : Option (Dict ℕ String)
  pub lifecycle_transitions : Option (Dict ℕ (String × String))

-- The issues in the order in which the passes find them.
unfoldable pub found_issues :
    EngineeringGraph → StandardProfile → EngineInputs → List ValidationIssue
unfolding index_types check_elements note_elements validate_attributes allowed_pairs check_relations
    make_graph traceability_violations gap_issue validate_verification validate_lifecycle
    validate_artifacts
found_issues graph profile inputs =
    let types = index_types [] profile.element_types in
    let element_map = (note_elements nothing_seen graph.elements).element_map in
    check_elements types nothing_seen graph.elements
    ++ (validate_attributes graph.elements types (or_empty inputs.attributes)
        ++ (check_relations (allowed_pairs profile.relations) element_map [] graph.relations
            ++ (map gap_issue
                  (traceability_violations (make_graph graph.elements graph.relations) profile)
                ++ (validate_verification graph.elements graph.relations profile.verification
                      element_map
                    ++ (validate_lifecycle graph.elements profile.lifecycles element_map
                          inputs.lifecycle_states inputs.lifecycle_transitions
                        ++ validate_artifacts graph.elements profile.artifacts
                            inputs.artifact_evidence)))))

-- What `graph_hash` hashes.
pub record HashPayload : Type 0 where
  pub profile : StandardProfile
  pub elements : List EngineeringElement
  pub relations : List EngineeringRelation
  pub attributes : List (ℕ × (String × AttributeValue))
  pub artifact_evidence : List (ℕ × String)
  pub lifecycle_states : List (ℕ × String)
  pub lifecycle_transitions : List (ℕ × (String × String))

abbrev pub relation_value : RelationType → String
relation_value derives_from = "derives_from"
relation_value satisfies = "satisfies"
relation_value allocated_to = "allocated_to"
relation_value verified_by = "verified_by"
relation_value mitigates = "mitigates"
relation_value affects = "affects"
relation_value implements = "implements"
relation_value refines = "refines"
relation_value depends_on = "depends_on"
relation_value governs = "governs"

-- `sorted(xs, key=key)` for a key that is a tuple of texts
unfoldable pub sort_texts_by {ℓ} : {A : Type ℓ} → (A → List String) → List A → List A
unfolding sort_with texts_le
sort_texts_by key xs = sort_with (λ a b. texts_le (key a) (key b)) xs

unfoldable pub payload : EngineeringGraph → StandardProfile → EngineInputs → HashPayload
unfolding sort_by sort_texts_by collect uuid_text
payload graph profile inputs = record {
  profile = profile;
  elements = sort_by element_id graph.elements;
  relations =
      sort_texts_by
        (λ (r : EngineeringRelation).
          uuid_text r.source_id
          ∷ relation_value r.relation_type
          ∷ uuid_text r.target_id
          ∷ uuid_text r.id
          ∷ [])
        graph.relations;
  attributes =
      sort_texts_by (λ item. uuid_text item.0 ∷ item.1.0 ∷ item.1.1.json ∷ [])
        (collect (λ entry. map (λ kv. (entry.0, (kv.0, kv.1))) entry.1)
          (or_empty inputs.attributes));
  artifact_evidence =
      sort_texts_by (λ item. uuid_text item.0 ∷ item.1 ∷ []) inputs.artifact_evidence;
  lifecycle_states =
      sort_texts_by (λ item. uuid_text item.0 ∷ item.1 ∷ []) (or_empty inputs.lifecycle_states);
  lifecycle_transitions =
      sort_texts_by (λ item. uuid_text item.0 ∷ item.1.0 ∷ item.1.1 ∷ [])
        (or_empty inputs.lifecycle_transitions);
}

module _ (digest : HashPayload → String) where
  unfoldable pub graph_hash : EngineeringGraph → StandardProfile → EngineInputs → String
  unfolding payload
  graph_hash graph profile inputs = digest (payload graph profile inputs)

  unfoldable pub validate_graph :
      EngineeringGraph → StandardProfile → EngineInputs → ValidationResult
  unfolding found_issues graph_hash sort_texts_by issue_sort_key
  validate_graph graph profile inputs = record {
    profile_id = profile.id;
    profile_version = profile.version;
    graph_hash = graph_hash graph profile inputs;
    issues = sort_texts_by issue_sort_key (found_issues graph profile inputs);
  }

  -- The inputs that are kept as evidence, where `None` has become empty.
  abbrev pub given : ValidationInputs → EngineInputs
  given inputs = record {
    attributes = some inputs.attributes;
    artifact_evidence = inputs.artifact_evidence;
    lifecycle_states = some inputs.lifecycle_states;
    lifecycle_transitions = some inputs.lifecycle_transitions;
  }

  -- The engine as the services use it.
  unfoldable pub engine : Validator
  unfolding validate_graph
  engine = record {
    validate = λ graph profile inputs. validate_graph graph profile (given inputs);
    graph_hash = λ graph profile inputs. graph_hash graph profile (given inputs);
    validate_hash = λ graph profile inputs. refl;
  }
