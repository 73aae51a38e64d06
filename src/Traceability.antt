-- ===== src/Traceability.antt =====
-- domain/traceability.py: the graph of the canonical elements and relations, its queries, and the
-- two searches. What the profile's rules find in it is in Violations.
pub mod Violations
mod Search
pub mod Walks
pub mod Diagnosis
mod Tests
use multi_agent_aircraft_dev.Base.{
  ℕ, zero, suc, ◌≡◌, ◌↔◌, true, Bool, not, ◌&&◌, Option, none, some, List, [], ◌∷◌, map, arith, Eq,
  ◌==◌, nat_eq, nat_beq, if◌then◌else◌, length, select, contains,
}
use multi_agent_aircraft_dev.Dict.{Dict, insert, has_key}
use multi_agent_aircraft_dev.Models.{
  EngineeringElement, EngineeringRelation, RelationType, relation_type_eq,
}

pub record TraceabilityGraph : Type 0 where
  pub elements : Dict ℕ EngineeringElement
  pub relations : List EngineeringRelation

-- `{element.id: element for element in elements}`: the last of two with one identifier stays
unfoldable pub index :
    Dict ℕ EngineeringElement → List EngineeringElement → Dict ℕ EngineeringElement
unfolding insert
index known [] = known
index known (e ∷ es) = index (insert e.id e known) es

-- `TraceabilityGraph(elements, relations)`
unfoldable pub make_graph : List EngineeringElement → List EngineeringRelation → TraceabilityGraph
unfolding index
make_graph elements relations = record { elements = index [] elements; relations = relations }

-- `relation_type is None or relation.relation_type == relation_type`
abbrev pub has_type : Option RelationType → EngineeringRelation → Bool
has_type none r = true
has_type (some t) r = r.relation_type == t

unfoldable pub outgoing : TraceabilityGraph → ℕ → Option RelationType → List EngineeringRelation
unfolding select
outgoing graph source_id type =
    select (λ r. r.source_id == source_id && has_type type r) graph.relations

unfoldable pub incoming : TraceabilityGraph → ℕ → Option RelationType → List EngineeringRelation
unfolding select
incoming graph target_id type =
    select (λ r. r.target_id == target_id && has_type type r) graph.relations

-- `relation.target_id in self._elements`
unfoldable pub is_known : TraceabilityGraph → ℕ → Bool
unfolding has_key
is_known graph id = has_key id graph.elements

-- `pending.extend(xs)`, where the stack is kept with its end first
unfoldable pub extend : List ℕ → List ℕ → List ℕ
extend [] pending = pending
extend (x ∷ xs) pending = extend xs (x ∷ pending)

-- The `while pending` loop of both searches; `next` lists what the relations at an element lead to.
module _ (next : ℕ → List ℕ) (known : ℕ → Bool) where
  -- One round: `current` has just been popped; the new `visited` and `pending`.
  unfoldable pub visit : ℕ → List ℕ → List ℕ → List ℕ × List ℕ
  unfolding contains select extend
  visit current visited pending = if contains current visited then (visited, pending) else (
    current ∷ visited,
    extend (select (λ v. not (contains v (current ∷ visited)) && known v) (next current)) pending,
  )

  -- `none`: the fuel ran out
  unfoldable pub explore : ℕ → List ℕ → List ℕ → Option (List ℕ)
  unfolding visit
  explore zero visited [] = some visited
  explore zero visited (current ∷ pending) = none
  explore (suc fuel) visited [] = some visited
  explore (suc fuel) visited (current ∷ pending) =
      let after = visit current visited pending in explore fuel after.0 after.1

-- `visited.discard(id)`
unfoldable pub discard : ℕ → List ℕ → List ℕ
unfolding select
discard id visited = select (λ v. not (v == id)) visited

abbrev pub target_of : EngineeringRelation → ℕ
target_of r = r.target_id

abbrev pub source_of : EngineeringRelation → ℕ
source_of r = r.source_id

-- Each round pops one entry, and each relation is pushed at most once.
abbrev pub rounds : TraceabilityGraph → ℕ
rounds graph = suc (length graph.relations)

unfoldable pub reachable : TraceabilityGraph → ℕ → Option RelationType → Option (List ℕ)
unfolding explore outgoing is_known discard
reachable graph source_id type =
    let found =
      explore (λ v. map target_of (outgoing graph v type)) (is_known graph) (rounds graph) []
        (source_id ∷ []) in
    elim found [ none ↦ none | some visited ↦ some (discard source_id visited) ]

unfoldable pub ancestors : TraceabilityGraph → ℕ → Option RelationType → Option (List ℕ)
unfolding explore incoming is_known discard
ancestors graph target_id type =
    let found =
      explore (λ v. map source_of (incoming graph v type)) (is_known graph) (rounds graph) []
        (target_id ∷ []) in
    elim found [ none ↦ none | some visited ↦ some (discard target_id visited) ]
