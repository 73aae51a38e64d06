-- ===== src/Validation/Conformance.antt =====
-- What a validation without issues says of the graph: the specification of the whole engine.
use multi_agent_aircraft_dev.Base.{
  ℕ, String, ◌≡◌, ◌↔◌, true, refl, is_empty, ◌∷◌, arith, List, [], map, Memᴰ, append-nil_parts,
  map-nil, sort_with-nil, texts_le,
}
use multi_agent_aircraft_dev.Dict.{Dict}
use multi_agent_aircraft_dev.Models.{EngineeringElement, EngineeringGraph}
use multi_agent_aircraft_dev.Profiles.{StandardProfile, VerificationRule, ArtifactRequirement}
use multi_agent_aircraft_dev.Traceability.{make_graph}
use multi_agent_aircraft_dev.Traceability.Violations.{traceability_violations}
use multi_agent_aircraft_dev.Traceability.Diagnosis.{IsTraceable, traceability_violations-nil}
use multi_agent_aircraft_dev.Validation.{valid}
use multi_agent_aircraft_dev.Validation.Elements.{
  TypeDefinitions, index_types, check_elements, note_elements, nothing_seen,
}
use multi_agent_aircraft_dev.Validation.Attributes.{validate_attributes}
use multi_agent_aircraft_dev.Validation.Relations.{allowed_pairs, check_relations}
use multi_agent_aircraft_dev.Validation.Rules.{validate_verification, validate_lifecycle}
use multi_agent_aircraft_dev.Validation.Engine.{
  EngineInputs, HashPayload, or_empty, gap_issue, found_issues, sort_texts_by, validate_graph,
  issue_sort_key,
}
use multi_agent_aircraft_dev.Validation.ElementsSound.{IsIdentified, check_elements-nil}
use multi_agent_aircraft_dev.Validation.AttributesSound.{IsDescribed, validate_attributes-nil}
use multi_agent_aircraft_dev.Validation.RelationsSound.{IsRelated, check_relations-nil}
use multi_agent_aircraft_dev.Validation.RulesSound.{
  IsVerified, FollowsLifecycles, validate_verification-nil, validate_lifecycle-nil,
  validate_artifacts-nil,
}

is_empty-nil {ℓ} : {A : Type ℓ} (xs : List A) → is_empty xs ≡ true → xs ≡ []
is_empty-nil [] h = refl
is_empty-nil (x ∷ xs) h = ground arith

module _ (graph : EngineeringGraph) (profile : StandardProfile) (inputs : EngineInputs) where
  abbrev pub types : TypeDefinitions
  unfolding index_types
  types = index_types [] profile.element_types

  abbrev pub element_map : Dict ℕ EngineeringElement
  unfolding note_elements
  element_map = (note_elements nothing_seen graph.elements).element_map

  -- The graph is what the profile asks for, with the evidence given.
  pub record Conforms : Type 0 where
    pub identified : IsIdentified types graph.elements
    pub described : IsDescribed graph.elements types (or_empty inputs.attributes)
    pub related : IsRelated profile.relations element_map graph.relations
    pub traceable : IsTraceable (make_graph graph.elements graph.relations) profile
    pub verified :
        (rule : VerificationRule) (e : EngineeringElement)
        → Memᴰ rule profile.verification
        → Memᴰ e graph.elements
        → e.type_id ≡ rule.element_type_id
        → IsVerified graph.relations element_map rule e
    pub lifecycles :
        FollowsLifecycles graph.elements profile.lifecycles element_map inputs.lifecycle_states
          inputs.lifecycle_transitions
    pub artifacts :
        (requirement : ArtifactRequirement) (e : EngineeringElement)
        → Memᴰ requirement profile.artifacts
        → Memᴰ e graph.elements
        → requirement.required ≡ true
        → e.type_id ≡ requirement.element_type_id
        → Memᴰ (e.id, requirement.artifact_type) inputs.artifact_evidence

  found_issues-nil : (found_issues graph profile inputs ≡ []) ↔ Conforms
  unfolding found_issues index_types note_elements
  found_issues-nil =
      let es = graph.elements in
      let rs = graph.relations in
      let a = check_elements types nothing_seen es in
      let b = validate_attributes es types (or_empty inputs.attributes) in
      let c = check_relations (allowed_pairs profile.relations) element_map [] rs in
      let gaps = traceability_violations (make_graph es rs) profile in
      let v = validate_verification es rs profile.verification element_map in
      let l =
        validate_lifecycle es profile.lifecycles element_map inputs.lifecycle_states
          inputs.lifecycle_transitions in
      let (a_in, a_out) = check_elements-nil types es in
      let (b_in, b_out) = validate_attributes-nil es types (or_empty inputs.attributes) in
      let (c_in, c_out) = check_relations-nil profile.relations element_map rs in
      let (g_in, g_out) = traceability_violations-nil (make_graph es rs) profile in
      let (v_in, v_out) = validate_verification-nil es rs profile.verification element_map in
      let (l_in, l_out) =
        validate_lifecycle-nil es profile.lifecycles element_map inputs.lifecycle_states
          inputs.lifecycle_transitions in
      let (f_in, f_out) = validate_artifacts-nil es profile.artifacts inputs.artifact_evidence in
      (
        λ h.
            let (ha, h1) = append-nil_parts a h in
            let (hb, h2) = append-nil_parts b h1 in
            let (hc, h3) = append-nil_parts c h2 in
            let (hg, h4) = append-nil_parts (map gap_issue gaps) h3 in
            let (hv, h5) = append-nil_parts v h4 in
            let (hl, hf) = append-nil_parts l h5 in
            record {
              identified = a_in ha;
              described = b_in hb;
              related = c_in hc;
              traceable = g_in (map-nil gap_issue gaps hg);
              verified = v_in hv;
              lifecycles = l_in hl;
              artifacts = f_in hf;
            },
        λ h. rw (a_out h.identified) (
            rw (b_out h.described) (
              rw (c_out h.related) (
                rw (g_out h.traceable)
                  (rw (v_out h.verified) (rw (l_out h.lifecycles) (f_out h.artifacts)))))),
      )

  -- A validation is without issues exactly if the graph conforms: identifiers and external identities
  -- are unique, elements are typed and hold the attributes of their types, relations join known
  -- elements as the profile allows, traceability, verification, lifecycles and artifacts are as its
  -- rules ask, and no attributes and no lifecycle evidence are given for an element that is not there.
  pub validate_graph-Conforms :
      (digest : HashPayload → String)
      → (valid (validate_graph digest graph profile inputs) ≡ true) ↔ Conforms
  unfolding validate_graph sort_texts_by
  validate_graph-Conforms digest =
      let (s_in, s_out) =
        sort_with-nil (λ x y. texts_le (issue_sort_key x) (issue_sort_key y))
          (found_issues graph profile inputs) in
      let (there, back) = found_issues-nil in
      (
        λ h. there (s_in (is_empty-nil _ h)),
        λ h. let k = s_out (back h) in rw (k, validate_graph) refl,
      )
