-- ===== src/Traceability/Violations.antt =====
-- The diagnosis of domain/traceability.py: what the rules of a profile and the integrity of the graph
-- find.
use multi_agent_aircraft_dev.Base.{
  ℕ, String, ◌≡◌, ◌↔◌, true, Bool, false, not, ◌&&◌, Option, none, some, List, [], ◌∷◌, ◌++◌, map,
  arith, Eq, ◌==◌, nat_eq, nat_beq, string_eq, if◌then◌else◌, select, any, is_empty, collect,
}
use multi_agent_aircraft_dev.Dict.{lookup, values}
use multi_agent_aircraft_dev.Models.{
  EngineeringElement, EngineeringRelation, RelationType, relation_type_eq,
}
use multi_agent_aircraft_dev.Profiles.{TraceabilityRule, StandardProfile}
use multi_agent_aircraft_dev.Traceability.{TraceabilityGraph, outgoing, is_known}

pub data TraceabilityGapType : Type 0 where
  missing_required forbidden_present wrong_relation_type : TraceabilityGapType
  wrong_target_type dangling_source dangling_target : TraceabilityGapType

abbrev pub gap_rank : TraceabilityGapType → ℕ
gap_rank missing_required = 0
gap_rank forbidden_present = 1
gap_rank wrong_relation_type = 2
gap_rank wrong_target_type = 3
gap_rank dangling_source = 4
gap_rank dangling_target = 5

pub gap_beq_iff : (a b : TraceabilityGapType) → (nat_beq (gap_rank a) (gap_rank b) ≡ true) ↔ (a ≡ b)
gap_beq_iff a b = ground arith

instance abbrev pub gap_type_eq : Eq TraceabilityGapType
gap_type_eq = record { beq = λ a b. nat_beq (gap_rank a) (gap_rank b); beq_iff = gap_beq_iff }

pub record TraceabilityGap : Type 0 where
  pub rule_id : String
  pub source_id : ℕ
  pub target_type_id : String
  pub relation_type : RelationType
  pub gap_type : TraceabilityGapType
  pub target_id : Option ℕ

unfoldable pub forbidden : TraceabilityGap → Bool
forbidden gap = gap.gap_type == forbidden_present

-- The element is there, and is of the type: `self._elements[id].type_id == type_id`.
unfoldable pub is_of_type : TraceabilityGraph → String → ℕ → Bool
unfolding lookup
is_of_type graph type_id id = elim (lookup id graph.elements) [
  | none ↦ false
  | some e ↦ e.type_id == type_id
]

-- The gap of a rule at one of the element's relations.
abbrev pub gap_at :
    TraceabilityRule
    → EngineeringElement
    → TraceabilityGapType
    → EngineeringRelation
    → TraceabilityGap
gap_at rule source gap_type r = record {
  rule_id = rule.id;
  source_id = source.id;
  target_type_id = rule.target_type_id;
  relation_type = rule.relation_type;
  gap_type = gap_type;
  target_id = some r.target_id;
}

abbrev pub missing_gap : TraceabilityRule → EngineeringElement → TraceabilityGap
missing_gap rule source = record {
  rule_id = rule.id;
  source_id = source.id;
  target_type_id = rule.target_type_id;
  relation_type = rule.relation_type;
  gap_type = missing_required;
  target_id = none;
}

-- `matching`
unfoldable pub matches : TraceabilityGraph → TraceabilityRule → EngineeringRelation → Bool
unfolding is_of_type
matches graph rule r =
    r.relation_type == rule.relation_type && is_of_type graph rule.target_type_id r.target_id

-- What an element without a matching relation is found to lack, by a required rule.
unfoldable pub required_gaps :
    TraceabilityGraph
    → TraceabilityRule
    → EngineeringElement
    → List EngineeringRelation
    → List TraceabilityGap
unfolding select any is_known is_of_type
required_gaps graph rule source leaving =
    let same_relation = select (λ r. r.relation_type == rule.relation_type) leaving in
    if any (λ r. not (is_known graph r.target_id)) same_relation
    then map (gap_at rule source dangling_target)
        (select (λ r. not (is_known graph r.target_id)) same_relation)
    else if not (is_empty same_relation)
    then map (gap_at rule source wrong_target_type) same_relation
    else if any (λ r. is_of_type graph rule.target_type_id r.target_id) leaving
    then map (gap_at rule source wrong_relation_type) (
        select
          (λ r.
            is_of_type graph rule.target_type_id r.target_id
            && not (r.relation_type == rule.relation_type))
          leaving)
    else missing_gap rule source ∷ []

-- The body of the loop over rules and elements.
unfoldable pub rule_gaps :
    TraceabilityGraph → TraceabilityRule → EngineeringElement → List TraceabilityGap
unfolding outgoing select matches required_gaps
rule_gaps graph rule source =
    let leaving = outgoing graph source.id none in
    let matching = select (matches graph rule) leaving in
    if not (source.type_id == rule.source_type_id)
    then []
    else if rule.required
    then if is_empty matching then required_gaps graph rule source leaving else []
    else map (gap_at rule source forbidden_present) matching

-- A relation with an end that is no element.
abbrev pub dangling_gap : TraceabilityGapType → EngineeringRelation → TraceabilityGap
dangling_gap gap_type r = record {
  rule_id = "graph-integrity";
  source_id = r.source_id;
  target_type_id = "<unknown>";
  relation_type = r.relation_type;
  gap_type = gap_type;
  target_id = some r.target_id;
}

unfoldable pub relation_gaps : TraceabilityGraph → EngineeringRelation → List TraceabilityGap
unfolding is_known
relation_gaps graph r =
    (if is_known graph r.source_id then [] else dangling_gap dangling_source r ∷ [])
    ++ (if is_known graph r.target_id then [] else dangling_gap dangling_target r ∷ [])

unfoldable pub traceability_violations : TraceabilityGraph → StandardProfile → List TraceabilityGap
unfolding collect values rule_gaps relation_gaps
traceability_violations graph profile =
    collect (λ rule. collect (rule_gaps graph rule) (values graph.elements)) profile.traceability
    ++ collect (relation_gaps graph) graph.relations

unfoldable pub missing_links : TraceabilityGraph → StandardProfile → List TraceabilityGap
unfolding select traceability_violations
missing_links graph profile =
    select (λ gap. gap.gap_type == missing_required) (traceability_violations graph profile)
