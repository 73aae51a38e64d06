-- ===== src/Validation/Rules.antt =====
-- `_validate_verification`, `_validate_lifecycle` and `_validate_artifacts` of
-- application/validation.py.
use multi_agent_aircraft_dev.Base.{
  ℕ, String, Bool, false, not, ◌&&◌, ◌||◌, Option, none, some, List, [], ◌∷◌, ◌++◌, map, ◌==◌,
  nat_eq, string_eq, pair_eq, if◌then◌else◌, select, any, contains, to_set, collect, sort_by,
}
use multi_agent_aircraft_dev.Dict.{Dict, lookup, insert, has_key, keys}
use multi_agent_aircraft_dev.Models.{EngineeringElement, EngineeringRelation, relation_type_eq}
use multi_agent_aircraft_dev.Profiles.{LifecycleDefinition, ArtifactRequirement, VerificationRule}
use multi_agent_aircraft_dev.Validation.{ValidationIssue, element_issue, rule_issue}

-- `d.get(id, ())`
unfoldable pub get_list {ℓ} : {A : Type ℓ} → ℕ → Dict ℕ (List A) → List A
unfolding lookup
get_list id d = elim (lookup id d) [ none ↦ [] | some xs ↦ xs ]

-- `outgoing.setdefault(relation.source_id, []).append(relation)`, in a loop
unfoldable pub group :
    Dict ℕ (List EngineeringRelation) → List EngineeringRelation → Dict ℕ (List EngineeringRelation)
unfolding insert get_list
group outgoing [] = outgoing
group outgoing (r ∷ rs) =
    group (insert r.source_id (get_list r.source_id outgoing ++ r ∷ []) outgoing) rs

-- `element_map.get(id) is not None and element_map[id].type_id == type_id`
unfoldable pub has_type_id : Dict ℕ EngineeringElement → String → ℕ → Bool
unfolding lookup
has_type_id element_map type_id id = elim (lookup id element_map) [
  | none ↦ false
  | some e ↦ e.type_id == type_id
]

unfoldable pub verifies : Dict ℕ EngineeringElement → VerificationRule → EngineeringRelation → Bool
unfolding has_type_id
verifies element_map rule r =
    r.relation_type == rule.required_relation_type
    && has_type_id element_map rule.verification_type_id r.target_id

unfoldable pub verification_issues :
    Dict ℕ EngineeringElement
    → Dict ℕ (List EngineeringRelation)
    → VerificationRule
    → EngineeringElement
    → List ValidationIssue
unfolding any verifies get_list
verification_issues element_map outgoing rule e =
    if not (e.type_id == rule.element_type_id)
    then []
    else if any (verifies element_map rule) (get_list e.id outgoing)
    then []
    else rule_issue "MISSING_VERIFICATION" e.id rule.id ∷ []

unfoldable pub validate_verification :
    List EngineeringElement
    → List EngineeringRelation
    → List VerificationRule
    → Dict ℕ EngineeringElement
    → List ValidationIssue
unfolding collect group verification_issues
validate_verification elements relations rules element_map =
    collect (λ rule. collect (verification_issues element_map (group [] relations) rule) elements)
      rules

abbrev pub state_issue : EngineeringElement → LifecycleDefinition → ValidationIssue
state_issue e lifecycle = rule_issue "INVALID_LIFECYCLE_STATE" e.id lifecycle.id

-- Without any states each element with a lifecycle lacks one.
unfoldable pub state_issues :
    Option (Dict ℕ String) → LifecycleDefinition → EngineeringElement → List ValidationIssue
unfolding lookup contains
state_issues none lifecycle e =
    if e.type_id == lifecycle.element_type_id then state_issue e lifecycle ∷ [] else []
state_issues (some states) lifecycle e =
    if e.type_id == lifecycle.element_type_id
    then elim (lookup e.id states) [
      | none ↦ state_issue e lifecycle ∷ []
      | some state ↦ if contains state lifecycle.states then [] else state_issue e lifecycle ∷ []
    ]
    else []

-- `target in lifecycle.transitions.get(source, [])`
unfoldable pub allows : LifecycleDefinition → String → String → Bool
unfolding lookup contains
allows lifecycle source target = elim (lookup source lifecycle.transitions) [
  | none ↦ false
  | some targets ↦ contains target targets
]

abbrev pub transition_issue : EngineeringElement → LifecycleDefinition → ValidationIssue
transition_issue e lifecycle = rule_issue "INVALID_LIFECYCLE_TRANSITION" e.id lifecycle.id

unfoldable pub step_issues :
    LifecycleDefinition → EngineeringElement → String × String → List ValidationIssue
unfolding contains allows
step_issues lifecycle e (source, target) =
    if not (contains source lifecycle.states) || not (contains target lifecycle.states)
    then transition_issue e lifecycle ∷ []
    else if not (allows lifecycle source target)
    then transition_issue e lifecycle ∷ []
    else []

unfoldable pub transition_issues :
    Option (Dict ℕ (String × String))
    → LifecycleDefinition
    → EngineeringElement
    → List ValidationIssue
unfolding lookup step_issues
transition_issues none lifecycle e = []
transition_issues (some transitions) lifecycle e =
    if not (e.type_id == lifecycle.element_type_id)
    then []
    else elim (lookup e.id transitions) [ none ↦ [] | some t ↦ step_issues lifecycle e t ]

-- `set(d or {})`
unfoldable pub ids_of {ℓ} : {A : Type ℓ} → Option (Dict ℕ A) → List ℕ
unfolding keys
ids_of none = []
ids_of (some d) = keys d

-- `sorted(evidence_ids - set(element_map), key=str)`: the text of an identifier has a fixed width, so
-- that it is sorted as its number is.
unfoldable pub unknown_ids : Dict ℕ EngineeringElement → List ℕ → List ℕ
unfolding sort_by select has_key to_set
unknown_ids element_map ids =
    sort_by (λ id. id) (select (λ id. not (has_key id element_map)) (to_set ids))

unfoldable pub validate_lifecycle :
    List EngineeringElement
    → List LifecycleDefinition
    → Dict ℕ EngineeringElement
    → Option (Dict ℕ String)
    → Option (Dict ℕ (String × String))
    → List ValidationIssue
unfolding collect state_issues transition_issues unknown_ids ids_of
validate_lifecycle elements lifecycles element_map states transitions =
    collect (λ lifecycle. collect (state_issues states lifecycle) elements) lifecycles
    ++ (collect (λ lifecycle. collect (transition_issues transitions lifecycle) elements) lifecycles
        ++ map (element_issue "INVALID_LIFECYCLE_STATE")
            (unknown_ids element_map (ids_of states ++ ids_of transitions)))

unfoldable pub artifact_issues :
    List (ℕ × String) → ArtifactRequirement → EngineeringElement → List ValidationIssue
unfolding contains
artifact_issues evidence requirement e =
    if not requirement.required
    then []
    else if e.type_id == requirement.element_type_id
        && not (contains (e.id, requirement.artifact_type) evidence)
    then rule_issue "MISSING_ARTIFACT" e.id requirement.id ∷ []
    else []

unfoldable pub validate_artifacts :
    List EngineeringElement → List ArtifactRequirement → List (ℕ × String) → List ValidationIssue
unfolding collect artifact_issues
validate_artifacts elements requirements evidence =
    collect (λ requirement. collect (artifact_issues evidence requirement) elements) requirements
