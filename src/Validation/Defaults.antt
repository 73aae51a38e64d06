-- ===== src/Validation/Defaults.antt =====
-- `None` and an empty dictionary are the same to the engine.
use multi_agent_aircraft_dev.Base.{
  ℕ, String, ◌≡◌, refl, ap, arith, Option, none, some, List, collect,
}
use multi_agent_aircraft_dev.Dict.{Dict, keys, lookup}
use multi_agent_aircraft_dev.Models.{EngineeringElement, EngineeringGraph}
use multi_agent_aircraft_dev.Profiles.{StandardProfile, LifecycleDefinition}
use multi_agent_aircraft_dev.Validation.{ValidationIssue}
use multi_agent_aircraft_dev.Validation.Rules.{
  state_issues, transition_issues, ids_of, validate_lifecycle,
}
use multi_agent_aircraft_dev.Validation.Engine.{
  EngineInputs, HashPayload, or_empty, found_issues, payload, graph_hash, validate_graph,
}

module _ (lifecycle : LifecycleDefinition) (e : EngineeringElement) where
  state_issues-or_empty :
      (states : Option (Dict ℕ String))
      → state_issues states lifecycle e ≡ state_issues (some (or_empty states)) lifecycle e
  unfolding state_issues lookup
  state_issues-or_empty none = refl
  state_issues-or_empty (some states) = refl

  transition_issues-or_empty :
      (transitions : Option (Dict ℕ (String × String)))
      → transition_issues transitions lifecycle e
        ≡ transition_issues (some (or_empty transitions)) lifecycle e
  unfolding transition_issues lookup
  transition_issues-or_empty none = ground arith
  transition_issues-or_empty (some transitions) = refl

ids_of-or_empty {ℓ} : {A : Type ℓ} (d : Option (Dict ℕ A)) → ids_of d ≡ ids_of (some (or_empty d))
unfolding ids_of keys
ids_of-or_empty none = refl
ids_of-or_empty (some d) = refl

validate_lifecycle-or_empty :
    (elements : List EngineeringElement) (lifecycles : List LifecycleDefinition)
    (element_map : Dict ℕ EngineeringElement) (states : Option (Dict ℕ String))
    (transitions : Option (Dict ℕ (String × String)))
    → validate_lifecycle elements lifecycles element_map states transitions
      ≡ validate_lifecycle elements lifecycles element_map
          (some (or_empty states))
          (some (or_empty transitions))
unfolding validate_lifecycle
validate_lifecycle-or_empty elements lifecycles element_map states transitions =
    let per = λ (f : LifecycleDefinition → EngineeringElement → List ValidationIssue).
      collect (λ l. collect (f l) elements) lifecycles in
    let a : per (state_issues states) ≡ per (state_issues (some (or_empty states))) =
      ap per (λ i l e. state_issues-or_empty l e states i) in
    let b : per (transition_issues transitions)
        ≡ per (transition_issues (some (or_empty transitions))) =
      ap per (λ i l e. transition_issues-or_empty l e transitions i) in
    rw (a, b, ids_of-or_empty states, ids_of-or_empty transitions) refl

-- The inputs with an empty dictionary for each `None`.
abbrev pub filled : EngineInputs → EngineInputs
filled inputs = record {
  attributes = some (or_empty inputs.attributes);
  artifact_evidence = inputs.artifact_evidence;
  lifecycle_states = some (or_empty inputs.lifecycle_states);
  lifecycle_transitions = some (or_empty inputs.lifecycle_transitions);
}

-- Leaving an input out gives the same result as giving it empty: the issues and the hash.
pub validate_graph-filled :
    (digest : HashPayload → String) (graph : EngineeringGraph) (profile : StandardProfile)
    (inputs : EngineInputs)
    → validate_graph digest graph profile inputs
      ≡ validate_graph digest graph profile (filled inputs)
unfolding validate_graph found_issues graph_hash payload
validate_graph-filled digest graph profile inputs =
    rw
      (validate_lifecycle-or_empty graph.elements profile.lifecycles _ inputs.lifecycle_states
        inputs.lifecycle_transitions)
      refl
