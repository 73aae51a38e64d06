-- ===== src/Validation/Relations.antt =====
-- The pass over the relations in `validate_graph` of application/validation.py.
use multi_agent_aircraft_dev.Base.{
  ℕ, String, Option, none, some, List, [], ◌∷◌, ◌++◌, map, nat_eq, string_eq, pair_eq,
  if◌then◌else◌, contains, collect,
}
use multi_agent_aircraft_dev.Dict.{Dict, lookup}
use multi_agent_aircraft_dev.Models.{
  EngineeringElement, EngineeringRelation, RelationType, relation_type_eq,
}
use multi_agent_aircraft_dev.Profiles.{RelationDefinition}
use multi_agent_aircraft_dev.Validation.{ValidationIssue, relation_issue}

abbrev pub Link : Type 0
Link = ℕ × (RelationType × ℕ)

-- `(relation.source_id, relation.relation_type, relation.target_id)`
abbrev pub link : EngineeringRelation → Link
link r = (r.source_id, (r.relation_type, r.target_id))

abbrev pub Pair : Type 0
Pair = RelationType × (String × String)

-- `allowed_pairs`
unfoldable pub allowed_pairs : List RelationDefinition → List Pair
unfolding collect
allowed_pairs definitions =
    collect
      (λ (d : RelationDefinition).
        collect (λ source. map (λ target. (d.relation_type, (source, target))) d.target_type_ids)
          d.source_type_ids)
      definitions

-- What a relation leads from and to.
unfoldable pub end_issues :
    List Pair
    → EngineeringRelation
    → Option EngineeringElement
    → Option EngineeringElement
    → List ValidationIssue
unfolding contains
end_issues allowed r none target = relation_issue "DANGLING_RELATION" r.id ∷ []
end_issues allowed r (some source) none = relation_issue "DANGLING_RELATION" r.id ∷ []
end_issues allowed r (some source) (some target) =
    if contains (r.relation_type, (source.type_id, target.type_id)) allowed
    then []
    else relation_issue "FORBIDDEN_RELATION" r.id ∷ []

unfoldable pub relation_issues :
    List Pair → Dict ℕ EngineeringElement → List Link → EngineeringRelation → List ValidationIssue
unfolding contains lookup end_issues
relation_issues allowed element_map seen r =
    (if contains (link r) seen then relation_issue "DUPLICATE_RELATION" r.id ∷ [] else [])
    ++ end_issues allowed r (lookup r.source_id element_map) (lookup r.target_id element_map)

-- The loop, with `seen_relations`.
unfoldable pub check_relations :
    List Pair
    → Dict ℕ EngineeringElement
    → List Link
    → List EngineeringRelation
    → List ValidationIssue
unfolding relation_issues
check_relations allowed element_map seen [] = []
check_relations allowed element_map seen (r ∷ rs) =
    relation_issues allowed element_map seen r
    ++ check_relations allowed element_map (link r ∷ seen) rs
