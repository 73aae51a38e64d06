-- ===== src/Models.antt =====
-- domain/models.py and the hash of domain/reconciliation.py: the canonical elements and relations,
-- and the identity of a change set.
pub mod ChangeSet
mod Tests
use multi_agent_aircraft_dev.Base.{
  ℕ, String, ◌≡◌, ◌↔◌, refl, true, Option, List, arith, Eq, ◌==◌, nat_eq, nat_beq, string_eq,
  option_eq, list_eq, pair_eq, eq_via, sort_by,
}

pub data ElementKind : Type 0 where
  requirement architecture safety verification change configuration governance : ElementKind

abbrev pub element_kind_rank : ElementKind → ℕ
element_kind_rank requirement = 0
element_kind_rank architecture = 1
element_kind_rank safety = 2
element_kind_rank verification = 3
element_kind_rank change = 4
element_kind_rank configuration = 5
element_kind_rank governance = 6

pub element_kind_beq_iff :
    (a b : ElementKind) → (nat_beq (element_kind_rank a) (element_kind_rank b) ≡ true) ↔ (a ≡ b)
element_kind_beq_iff a b = ground arith

instance abbrev pub element_kind_eq : Eq ElementKind
element_kind_eq = record {
  beq = λ a b. nat_beq (element_kind_rank a) (element_kind_rank b);
  beq_iff = element_kind_beq_iff;
}

pub data RelationType : Type 0 where
  derives_from satisfies allocated_to verified_by mitigates : RelationType
  affects implements refines depends_on governs : RelationType

abbrev pub relation_rank : RelationType → ℕ
relation_rank derives_from = 0
relation_rank satisfies = 1
relation_rank allocated_to = 2
relation_rank verified_by = 3
relation_rank mitigates = 4
relation_rank affects = 5
relation_rank implements = 6
relation_rank refines = 7
relation_rank depends_on = 8
relation_rank governs = 9

pub relation_beq_iff :
    (a b : RelationType) → (nat_beq (relation_rank a) (relation_rank b) ≡ true) ↔ (a ≡ b)
relation_beq_iff a b = ground arith

instance abbrev pub relation_type_eq : Eq RelationType
relation_type_eq = record {
  beq = λ a b. nat_beq (relation_rank a) (relation_rank b);
  beq_iff = relation_beq_iff;
}

pub record EngineeringElement : Type 0 where
  pub id : ℕ
  pub kind : ElementKind
  pub type_id : String
  pub name : String
  pub external_system : String
  pub external_id : String
  pub source_uri : Option String

pub record EngineeringRelation : Type 0 where
  pub id : ℕ
  pub source_id : ℕ
  pub relation_type : RelationType
  pub target_id : ℕ

pub record EngineeringGraph : Type 0 where
  pub elements : List EngineeringElement
  pub relations : List EngineeringRelation

abbrev pub element_id : EngineeringElement → ℕ
element_id e = e.id

abbrev pub relation_id : EngineeringRelation → ℕ
relation_id r = r.id

-- The payload of `compute_change_set_hash`: both lists by identifier. The digest of it, SHA-256 of
-- the JSON text, is a parameter.
unfoldable pub canonical_change_set : EngineeringGraph → EngineeringGraph
unfolding sort_by
canonical_change_set changes = record {
  elements = sort_by element_id changes.elements;
  relations = sort_by relation_id changes.relations;
}

unfoldable pub compute_change_set_hash : (EngineeringGraph → String) → EngineeringGraph → String
unfolding canonical_change_set
compute_change_set_hash digest changes = digest (canonical_change_set changes)
