-- ===== src/Validation/Elements.antt =====
-- The pass over the elements in `validate_graph` of application/validation.py: identifiers, external
-- identities and types.
use multi_agent_aircraft_dev.Base.{
  ℕ, String, Bool, false, not, Option, none, some, List, [], ◌∷◌, ◌++◌, ◌==◌, nat_eq, string_eq,
  pair_eq, if◌then◌else◌,
}
use multi_agent_aircraft_dev.Dict.{Dict, lookup, insert, has_key}
use multi_agent_aircraft_dev.Models.{EngineeringElement, element_kind_eq}
use multi_agent_aircraft_dev.Profiles.{ElementTypeDefinition}
use multi_agent_aircraft_dev.Validation.{ValidationIssue, element_issue}

abbrev pub TypeDefinitions : Type 0
TypeDefinitions = Dict String ElementTypeDefinition

-- `{definition.id: definition for definition in profile.element_types}`
unfoldable pub index_types : TypeDefinitions → List ElementTypeDefinition → TypeDefinitions
unfolding insert
index_types types [] = types
index_types types (d ∷ ds) = index_types (insert d.id d types) ds

-- What the loop has noted: `element_map` and `external_identities`.
pub record Seen : Type 0 where
  pub element_map : Dict ℕ EngineeringElement
  pub external_identities : Dict (String × String) ℕ

abbrev pub identity : EngineeringElement → String × String
identity e = (e.external_system, e.external_id)

-- `previous is not None and previous != element.id`
abbrev pub is_other : Option ℕ → ℕ → Bool
is_other none id = false
is_other (some previous) id = not (previous == id)

unfoldable pub note_element : Seen → EngineeringElement → Seen
unfolding has_key lookup insert
note_element seen e = record {
  element_map =
      if has_key e.id seen.element_map then seen.element_map else insert e.id e seen.element_map;
  external_identities =
      if is_other (lookup (identity e) seen.external_identities) e.id
      then seen.external_identities
      else insert (identity e) e.id seen.external_identities;
}

-- An element whose type the profile does not have, or has with another kind.
unfoldable pub type_issues : TypeDefinitions → EngineeringElement → List ValidationIssue
unfolding lookup
type_issues types e = elim (lookup e.type_id types) [
  | none ↦ element_issue "UNKNOWN_ELEMENT_TYPE" e.id ∷ []
  | some definition ↦
      if e.kind == definition.kind then [] else element_issue "ELEMENT_KIND_MISMATCH" e.id ∷ []
]

unfoldable pub element_issues : TypeDefinitions → Seen → EngineeringElement → List ValidationIssue
unfolding has_key lookup type_issues
element_issues types seen e =
    (if has_key e.id seen.element_map then element_issue "DUPLICATE_ELEMENT_ID" e.id ∷ [] else [])
    ++ ((if is_other (lookup (identity e) seen.external_identities) e.id
          then element_issue "DUPLICATE_EXTERNAL_IDENTITY" e.id ∷ []
          else [])
        ++ type_issues types e)

-- The loop: what it finds, and what it has noted at its end.
unfoldable pub check_elements :
    TypeDefinitions → Seen → List EngineeringElement → List ValidationIssue
unfolding element_issues note_element
check_elements types seen [] = []
check_elements types seen (e ∷ es) =
    element_issues types seen e ++ check_elements types (note_element seen e) es

unfoldable pub note_elements : Seen → List EngineeringElement → Seen
unfolding note_element
note_elements seen [] = seen
note_elements seen (e ∷ es) = note_elements (note_element seen e) es

abbrev pub nothing_seen : Seen
nothing_seen = record { element_map = []; external_identities = [] }
