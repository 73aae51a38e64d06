-- ===== src/Profiles/Engine.antt =====
-- application/profile_engine.py: the semantic checks of a profile and the composition of profiles, and
-- the model validators of domain/profiles.py.
use multi_agent_aircraft_dev.Base.{
  String, Bool, not, ◌||◌, Option, none, some, List, [], ◌∷◌, ◌++◌, map, Eq, ◌==◌, string_eq,
  pair_eq, nat_eq, any, contains, unique, is_empty, is_blank, text_length, collect, join,
}
use multi_agent_aircraft_dev.Dict.{Dict, lookup, insert, keys, values}
use multi_agent_aircraft_dev.Errors.{Result, ok, ◌>>=◌, ◌>>◌, raise_if, each}
use multi_agent_aircraft_dev.Models.{RelationType, relation_type_eq}
use multi_agent_aircraft_dev.Profiles.{
  AttributeDefinition, ElementTypeDefinition, RelationDefinition, LifecycleDefinition,
  ArtifactRequirement, TraceabilityRule, VerificationRule, StandardProfile, element_type_eq,
  relation_definition_eq, lifecycle_eq, artifact_eq, traceability_eq, verification_eq,
}

-- `ProfileCompositionError` and the errors of the model validators, one constructor for each message.
pub data ProfileError : Type 0 where
  duplicate_attributes duplicate_states unknown_states : ProfileError
  profile_field duplicate_ids unknown_types lifecycle_of_unknown artifact_of_unknown : ProfileError
  no_profiles conflicting_definitions duplicate_definitions : ProfileError
  types_missing several_lifecycles no_states unknown_source_state duplicate_targets : ProfileError
  empty_artifact_type rule_of_unknown rule_without_relation : ProfileError
  verification_of_unknown : ProfileError
  -- infrastructure/profile_registry.py
  profile_exists profile_not_found : ProfileError

abbrev pub attribute_id : AttributeDefinition → String
attribute_id d = d.id

abbrev pub type_id : ElementTypeDefinition → String
type_id d = d.id

abbrev pub definition_id : RelationDefinition → String
definition_id d = d.id

abbrev pub lifecycle_id : LifecycleDefinition → String
lifecycle_id d = d.id

abbrev pub artifact_id : ArtifactRequirement → String
artifact_id d = d.id

abbrev pub trace_id : TraceabilityRule → String
trace_id d = d.id

abbrev pub check_id : VerificationRule → String
check_id d = d.id

-- `ElementTypeDefinition.unique_attributes`
unfoldable pub unique_attributes : ElementTypeDefinition → Result ProfileError (Unit {0})
unfolding unique
unique_attributes d = raise_if (not (unique (map attribute_id d.attributes))) duplicate_attributes

-- `LifecycleDefinition.validate_transitions`
unfoldable pub validate_transitions : LifecycleDefinition → Result ProfileError (Unit {0})
unfolding unique any contains collect keys
validate_transitions d = do
  raise_if (not (unique d.states)) duplicate_states
  raise_if
      (any (λ s. not (contains s d.states)) (collect (λ t. t.1) d.transitions)
        || any (λ s. not (contains s d.states)) (keys d.transitions))
      unknown_states

-- some of the ends of a relation is no element type
unfoldable pub has_unknown : List String → RelationDefinition → Bool
unfolding any contains
has_unknown types r = any (λ t. not (contains t types)) (r.source_type_ids ++ r.target_type_ids)

-- `StandardProfile.validate_unique_ids`
unfoldable pub validate_unique_ids : StandardProfile → Result ProfileError (Unit {0})
unfolding unique has_unknown contains each
validate_unique_ids p =
    let types = map type_id p.element_types in
    do
      raise_if (not (unique types)) duplicate_ids
      raise_if (not (unique (map definition_id p.relations))) duplicate_ids
      raise_if (not (unique (map lifecycle_id p.lifecycles))) duplicate_ids
      raise_if (not (unique (map artifact_id p.artifacts))) duplicate_ids
      raise_if (not (unique (map trace_id p.traceability))) duplicate_ids
      raise_if (not (unique (map check_id p.verification))) duplicate_ids
      each (λ r. raise_if (has_unknown types r) unknown_types) p.relations
      each
          (λ (d : LifecycleDefinition).
            raise_if (not (contains d.element_type_id types)) lifecycle_of_unknown)
          p.lifecycles
      each
          (λ (a : ArtifactRequirement).
            raise_if (not (contains a.element_type_id types)) artifact_of_unknown)
          p.artifacts

-- The constructor of `StandardProfile`, on definitions that are built.
unfoldable pub make_profile : StandardProfile → Result ProfileError StandardProfile
unfolding validate_unique_ids
make_profile p = do
  raise_if
      (nat_eq.beq (text_length p.id) 0
        || nat_eq.beq (text_length p.version) 0
        || nat_eq.beq (text_length p.name) 0)
      profile_field
  validate_unique_ids p
  ok p

-- `_validate_unique_definition_types`
unfoldable pub validate_unique_definitions : StandardProfile → Result ProfileError (Unit {0})
unfolding unique
validate_unique_definitions p = do
  raise_if (not (unique (map type_id p.element_types))) duplicate_definitions
  raise_if (not (unique (map definition_id p.relations))) duplicate_definitions
  raise_if (not (unique (map lifecycle_id p.lifecycles))) duplicate_definitions
  raise_if (not (unique (map artifact_id p.artifacts))) duplicate_definitions
  raise_if (not (unique (map trace_id p.traceability))) duplicate_definitions
  raise_if (not (unique (map check_id p.verification))) duplicate_definitions

-- `_validate_relations`, one relation
unfoldable pub check_relation : List String → RelationDefinition → Result ProfileError (Unit {0})
unfolding has_unknown
check_relation types r = do
  raise_if (is_empty r.source_type_ids || is_empty r.target_type_ids) types_missing
  raise_if (has_unknown types r) unknown_types

-- the transitions of one source state
unfoldable pub check_targets :
    LifecycleDefinition → String × List String → Result ProfileError (Unit {0})
unfolding contains unique
check_targets d (source, targets) = do
  raise_if (not (contains source d.states)) unknown_source_state
  raise_if (not (unique targets)) duplicate_targets

-- `_validate_lifecycles`, with the types that have a lifecycle already
unfoldable pub check_lifecycles :
    List String → List String → List LifecycleDefinition → Result ProfileError (Unit {0})
unfolding contains check_targets each
check_lifecycles types seen [] = ok tt
check_lifecycles types seen (d ∷ ds) = do
  raise_if (not (contains d.element_type_id types)) lifecycle_of_unknown
  raise_if (contains d.element_type_id seen) several_lifecycles
  raise_if (is_empty d.states) no_states
  each (check_targets d) d.transitions
  check_lifecycles types (d.element_type_id ∷ seen) ds

-- `_validate_artifacts`, one requirement
unfoldable pub check_artifact : List String → ArtifactRequirement → Result ProfileError (Unit {0})
unfolding contains is_blank
check_artifact types a = do
  raise_if (not (contains a.element_type_id types)) artifact_of_unknown
  raise_if (is_blank a.artifact_type) empty_artifact_type

-- `relation_pairs`
unfoldable pub relation_pairs : StandardProfile → List (RelationType × (String × String))
unfolding collect
relation_pairs p =
    collect
      (λ (r : RelationDefinition).
        collect (λ source. map (λ target. (r.relation_type, (source, target))) r.target_type_ids)
          r.source_type_ids)
      p.relations

-- `_validate_traceability`, one rule
unfoldable pub check_trace :
    List String
    → List (RelationType × (String × String))
    → TraceabilityRule
    → Result ProfileError (Unit {0})
unfolding contains
check_trace types pairs rule = do
  raise_if (not (contains rule.source_type_id types) || not (contains rule.target_type_id types))
      rule_of_unknown
  raise_if (not (contains (rule.relation_type, (rule.source_type_id, rule.target_type_id)) pairs))
      rule_without_relation

-- `_validate_verification`, one rule
unfoldable pub check_verification :
    List String
    → List (RelationType × (String × String))
    → VerificationRule
    → Result ProfileError (Unit {0})
unfolding contains
check_verification types pairs rule = do
  raise_if (not (contains rule.element_type_id types)) rule_of_unknown
  raise_if (not (contains rule.verification_type_id types)) verification_of_unknown
  raise_if
      (not (
        contains (rule.required_relation_type, (rule.element_type_id, rule.verification_type_id))
          pairs))
      rule_without_relation

unfoldable pub validate_profile : StandardProfile → Result ProfileError (Unit {0})
unfolding validate_unique_definitions check_relation check_lifecycles check_artifact check_trace
    check_verification relation_pairs each
validate_profile p =
    let types = map type_id p.element_types in
    do
      validate_unique_definitions p
      each (check_relation types) p.relations
      check_lifecycles types [] p.lifecycles
      each (check_artifact types) p.artifacts
      each (check_trace types (relation_pairs p)) p.traceability
      each (check_verification types (relation_pairs p)) p.verification

module _ {A : Type 0} ⦃e : Eq A⦄ (id_of : A → String) where
  -- One definition of `_merge`: `existing is not None and existing != definition`.
  unfoldable pub merge_known : Option A → A → Dict String A → Result ProfileError (Dict String A)
  unfolding insert
  merge_known none d merged = ok (insert (id_of d) d merged)
  merge_known (some existing) d merged = do
    raise_if (not (existing == d)) conflicting_definitions
    ok (insert (id_of d) d merged)

  unfoldable pub merge_list : Dict String A → List A → Result ProfileError (Dict String A)
  unfolding lookup merge_known
  merge_list merged [] = ok merged
  merge_list merged (d ∷ ds) =
      merge_known (lookup (id_of d) merged) d merged >>= λ next. merge_list next ds

  unfoldable pub merge_all :
      (StandardProfile → List A)
      → Dict String A
      → List StandardProfile
      → Result ProfileError (Dict String A)
  unfolding merge_list
  merge_all field merged [] = ok merged
  merge_all field merged (p ∷ ps) = merge_list merged (field p) >>= λ next. merge_all field next ps

  -- `_merge`
  unfoldable pub merge :
      (StandardProfile → List A) → List StandardProfile → Result ProfileError (List A)
  unfolding merge_all values
  merge field profiles = merge_all field [] profiles >>= λ merged. ok (values merged)

-- `f"{p.id}@{p.version}"`
abbrev pub reference : StandardProfile → String
reference p = join p.id (join "@" p.version)

-- `', '.join(texts)`
unfoldable pub listing : List String → String
listing [] = ""
listing (t ∷ []) = t
listing (t ∷ u ∷ ts) = join t (join ", " (listing (u ∷ ts)))

-- The fields of a composition, each merged; its name and its description are given.
unfoldable pub merge_fields :
    List StandardProfile
    → String
    → String
    → String
    → Option String
    → String
    → Result ProfileError StandardProfile
unfolding merge
merge_fields profiles id version name description metadata = do
  element_types ← merge type_id (λ p. p.element_types) profiles
  relations ← merge definition_id (λ p. p.relations) profiles
  lifecycles ← merge lifecycle_id (λ p. p.lifecycles) profiles
  artifacts ← merge artifact_id (λ p. p.artifacts) profiles
  traceability ← merge trace_id (λ p. p.traceability) profiles
  verification ← merge check_id (λ p. p.verification) profiles
  ok (record {
    id = id;
    version = version;
    name = name;
    description = description;
    element_types = element_types;
    relations = relations;
    lifecycles = lifecycles;
    artifacts = artifacts;
    traceability = traceability;
    verification = verification;
    metadata = metadata;
  })

-- `compose`; `json` is the JSON text of the metadata, from the references.
unfoldable pub compose :
    (List String → String)
    → List StandardProfile
    → String
    → String
    → String
    → Result ProfileError StandardProfile
unfolding each validate_profile merge_fields make_profile listing
compose json profiles id version name = do
  raise_if (is_empty profiles) no_profiles
  each validate_profile profiles
  merged ←
      merge_fields profiles id version name
        (some (join "Composition of: " (listing (map reference profiles))))
        (json (map reference profiles))
  make_profile merged
