-- ===== src/Validation/Attributes.antt =====
-- `_validate_attributes` of application/validation.py.
use multi_agent_aircraft_dev.Base.{
  ℕ, String, Bool, not, ◌||◌, none, some, List, [], ◌∷◌, ◌++◌, map, ◌==◌, nat_eq, string_eq,
  if◌then◌else◌, select, contains, to_set, collect, sort_by, sort_with, text_le,
}
use multi_agent_aircraft_dev.Dict.{Dict, lookup, keys}
use multi_agent_aircraft_dev.Evidence.{
  AttributeValue, string_value, integer_value, float_value, boolean_value, kind_eq,
}
use multi_agent_aircraft_dev.Models.{EngineeringElement, element_id}
use multi_agent_aircraft_dev.Profiles.{
  AttributeType, string, integer, number, boolean, AttributeDefinition, ElementTypeDefinition,
}
use multi_agent_aircraft_dev.Validation.{ValidationIssue, element_issue}
use multi_agent_aircraft_dev.Validation.Elements.{TypeDefinitions}

-- What `isinstance` tells of a value: `True` and `False` are instances of `int` too.
unfoldable pub attribute_value_matches : AttributeType → AttributeValue → Bool
attribute_value_matches string v = v.kind == string_value
attribute_value_matches integer v = v.kind == integer_value
attribute_value_matches number v = v.kind == integer_value || v.kind == float_value
attribute_value_matches boolean v = v.kind == boolean_value

-- `attributes.get(element_id, {})`
unfoldable pub values_of : Dict ℕ (Dict String AttributeValue) → ℕ → Dict String AttributeValue
unfolding lookup
values_of attributes id = elim (lookup id attributes) [ none ↦ [] | some values ↦ values ]

-- `attribute_id in definitions`
unfoldable pub defines : ElementTypeDefinition → String → Bool
unfolding contains
defines definition attribute_id =
    contains attribute_id (map (λ (a : AttributeDefinition). a.id) definition.attributes)

-- One attribute of the type, at an element with these values.
unfoldable pub attribute_issues :
    ℕ → Dict String AttributeValue → AttributeDefinition → List ValidationIssue
unfolding lookup attribute_value_matches
attribute_issues id values attribute = elim (lookup attribute.id values) [
  | none ↦ if attribute.required then element_issue "MISSING_REQUIRED_ATTRIBUTE" id ∷ [] else []
  | some v ↦
      if attribute_value_matches attribute.type v
      then []
      else element_issue "INVALID_ATTRIBUTE_TYPE" id ∷ []
]

unfoldable pub typed_issues :
    ElementTypeDefinition → Dict String AttributeValue → ℕ → List ValidationIssue
unfolding collect select defines attribute_issues keys sort_with text_le
typed_issues definition values id =
    map (λ _. element_issue "UNKNOWN_ATTRIBUTE" id)
      (select (λ a. not (defines definition a)) (sort_with text_le (keys values)))
    ++ collect (attribute_issues id values) definition.attributes

unfoldable pub value_issues :
    TypeDefinitions
    → Dict ℕ (Dict String AttributeValue)
    → EngineeringElement
    → List ValidationIssue
unfolding lookup typed_issues values_of
value_issues types attributes e = elim (lookup e.type_id types) [
  | none ↦ []
  | some definition ↦ typed_issues definition (values_of attributes e.id) e.id
]

-- `sorted(set(attributes) - {element.id for element in graph.elements}, key=str)`: the text of an
-- identifier has a fixed width, so that it is sorted as its number is.
unfoldable pub strangers : List ℕ → List EngineeringElement → List ℕ
unfolding sort_by select contains to_set
strangers ids elements =
    sort_by (λ id. id) (select (λ id. not (contains id (map element_id elements))) (to_set ids))

unfoldable pub validate_attributes :
    List EngineeringElement
    → TypeDefinitions
    → Dict ℕ (Dict String AttributeValue)
    → List ValidationIssue
unfolding collect value_issues strangers keys
validate_attributes elements types attributes =
    collect (value_issues types attributes) elements
    ++ map (element_issue "UNKNOWN_ATTRIBUTE") (strangers (keys attributes) elements)
