-- ===== src/Profiles.antt =====
-- domain/profiles.py: the declarative standard profile, and the registry of
-- infrastructure/profile_registry.py.
pub mod Registry
pub mod Engine
pub mod Composition
pub mod Registration
pub mod Service
pub mod Steps
pub mod Governed
mod Tests
use multi_agent_aircraft_dev.Base.{
  ℕ, String, ◌≡◌, ◌↔◌, refl, Bool, true, false, not, ◌&&◌, ◌||◌, Option, List, [], ◌∷◌, ◌++◌, map,
  arith, Eq, ◌==◌, nat_eq, nat_beq, string_eq, bool_eq, option_eq, list_eq, pair_eq, eq_via, all,
  any, contains, unique, is_empty,
}
use multi_agent_aircraft_dev.Models.{ElementKind, RelationType, element_kind_eq, relation_type_eq}

pub data AttributeType : Type 0 where
  string integer number boolean : AttributeType

abbrev pub attribute_type_rank : AttributeType → ℕ
attribute_type_rank string = 0
attribute_type_rank integer = 1
attribute_type_rank number = 2
attribute_type_rank boolean = 3

pub attribute_type_beq_iff :
    (a b : AttributeType)
    → (nat_beq (attribute_type_rank a) (attribute_type_rank b) ≡ true) ↔ (a ≡ b)
attribute_type_beq_iff a b = ground arith

instance abbrev pub attribute_type_eq : Eq AttributeType
attribute_type_eq = record {
  beq = λ a b. nat_beq (attribute_type_rank a) (attribute_type_rank b);
  beq_iff = attribute_type_beq_iff;
}

pub record AttributeDefinition : Type 0 where
  pub id : String
  pub type : AttributeType
  pub required : Bool
  pub description : Option String

instance abbrev pub attribute_eq : Eq AttributeDefinition
attribute_eq =
    eq_via {B = String × (AttributeType × (Bool × Option String))}
      (λ a. (a.id, (a.type, (a.required, a.description))))
      (λ t. record { id = t.0; type = t.1.0; required = t.1.1.0; description = t.1.1.1 })
      (λ a. refl)

pub record ElementTypeDefinition : Type 0 where
  pub id : String
  pub kind : ElementKind
  pub attributes : List AttributeDefinition

instance abbrev pub element_type_eq : Eq ElementTypeDefinition
element_type_eq =
    eq_via {B = String × (ElementKind × List AttributeDefinition)}
      (λ a. (a.id, (a.kind, a.attributes)))
      (λ t. record { id = t.0; kind = t.1.0; attributes = t.1.1 }) (λ a. refl)

pub record RelationDefinition : Type 0 where
  pub id : String
  pub relation_type : RelationType
  pub source_type_ids : List String
  pub target_type_ids : List String

instance abbrev pub relation_definition_eq : Eq RelationDefinition
relation_definition_eq =
    eq_via {B = String × (RelationType × (List String × List String))}
      (λ a. (a.id, (a.relation_type, (a.source_type_ids, a.target_type_ids))))
      (λ t. record {
        id = t.0;
        relation_type = t.1.0;
        source_type_ids = t.1.1.0;
        target_type_ids = t.1.1.1;
      })
      (λ a. refl)

pub record LifecycleDefinition : Type 0 where
  pub id : String
  pub element_type_id : String
  pub states : List String
  pub transitions : List (String × List String)

instance abbrev pub lifecycle_eq : Eq LifecycleDefinition
lifecycle_eq =
    eq_via {B = String × (String × (List String × List (String × List String)))}
      (λ a. (a.id, (a.element_type_id, (a.states, a.transitions))))
      (λ t. record { id = t.0; element_type_id = t.1.0; states = t.1.1.0; transitions = t.1.1.1 })
      (λ a. refl)

pub record ArtifactRequirement : Type 0 where
  pub id : String
  pub element_type_id : String
  pub artifact_type : String
  pub required : Bool

instance abbrev pub artifact_eq : Eq ArtifactRequirement
artifact_eq =
    eq_via {B = String × (String × (String × Bool))}
      (λ a. (a.id, (a.element_type_id, (a.artifact_type, a.required))))
      (λ t. record {
        id = t.0;
        element_type_id = t.1.0;
        artifact_type = t.1.1.0;
        required = t.1.1.1;
      })
      (λ a. refl)

pub record TraceabilityRule : Type 0 where
  pub id : String
  pub source_type_id : String
  pub relation_type : RelationType
  pub target_type_id : String
  pub required : Bool

instance abbrev pub traceability_eq : Eq TraceabilityRule
traceability_eq =
    eq_via {B = String × (String × (RelationType × (String × Bool)))}
      (λ a. (a.id, (a.source_type_id, (a.relation_type, (a.target_type_id, a.required)))))
      (λ t. record {
        id = t.0;
        source_type_id = t.1.0;
        relation_type = t.1.1.0;
        target_type_id = t.1.1.1.0;
        required = t.1.1.1.1;
      })
      (λ a. refl)

pub record VerificationRule : Type 0 where
  pub id : String
  pub element_type_id : String
  pub required_relation_type : RelationType
  pub verification_type_id : String

instance abbrev pub verification_eq : Eq VerificationRule
verification_eq =
    eq_via {B = String × (String × (RelationType × String))}
      (λ a. (a.id, (a.element_type_id, (a.required_relation_type, a.verification_type_id))))
      (λ t. record {
        id = t.0;
        element_type_id = t.1.0;
        required_relation_type = t.1.1.0;
        verification_type_id = t.1.1.1;
      })
      (λ a. refl)

-- `metadata` is its JSON text.
pub record StandardProfile : Type 0 where
  pub id : String
  pub version : String
  pub name : String
  pub description : Option String
  pub element_types : List ElementTypeDefinition
  pub relations : List RelationDefinition
  pub lifecycles : List LifecycleDefinition
  pub artifacts : List ArtifactRequirement
  pub traceability : List TraceabilityRule
  pub verification : List VerificationRule
  pub metadata : String
