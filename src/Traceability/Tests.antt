-- ===== src/Traceability/Tests.antt =====
-- A graph with a cycle, 1 → 2 → 3 → 1, and a relation from 2 to an element that is not there.
use multi_agent_aircraft_dev.Base.{
  ℕ, String, ◌≡◌, refl, ◌≢◌, ◌↔◌, none, some, List, [], ◌∷◌, Memᴰ, true, IsDistinct,
}
use multi_agent_aircraft_dev.Models.{
  EngineeringElement, EngineeringRelation, ElementKind, requirement, architecture, verification,
  RelationType, derives_from, verified_by, depends_on,
}
use multi_agent_aircraft_dev.Profiles.{StandardProfile}
use multi_agent_aircraft_dev.Traceability.{
  TraceabilityGraph, make_graph, is_known, reachable, ancestors,
}
use multi_agent_aircraft_dev.Traceability.Violations.{
  wrong_target_type, dangling_target, traceability_violations,
}
use multi_agent_aircraft_dev.Traceability.Walks.{
  Reaches, ReachedFrom, reachable_lem, ancestors_lem, ancestors-reachable,
}
use multi_agent_aircraft_dev.Traceability.Diagnosis.{IsTraceable, traceability_violations-nil}

abbrev element : ℕ → ElementKind → String → EngineeringElement
element id kind type_id = record {
  id = id;
  kind = kind;
  type_id = type_id;
  name = "part";
  external_system = "capella";
  external_id = "x";
  source_uri = none;
}

abbrev relation : ℕ → ℕ → RelationType → ℕ → EngineeringRelation
relation id source_id relation_type target_id = record {
  id = id;
  source_id = source_id;
  relation_type = relation_type;
  target_id = target_id;
}

abbrev cycle : List EngineeringRelation
cycle =
    relation 10 1 derives_from 2
    ∷ relation 11 2 verified_by 3
    ∷ relation 12 3 depends_on 1
    ∷ relation 13 2 depends_on 9
    ∷ []

abbrev graph_0 : TraceabilityGraph
graph_0 =
    make_graph
      (element 1 requirement "req"
        ∷ element 2 architecture "sys"
        ∷ element 3 verification "test"
        ∷ [])
      cycle

from_1 : reachable graph_0 1 none ≡ some (3 ∷ 2 ∷ [])
unfolding reachable make_graph
from_1 = refl

to_3 : ancestors graph_0 3 none ≡ some (1 ∷ 2 ∷ [])
unfolding ancestors make_graph
to_3 = refl

by_type : reachable graph_0 1 (some derives_from) ≡ some (2 ∷ [])
unfolding reachable make_graph
by_type = refl

reachable_lem_example :
    (out : List ℕ) × (reachable graph_0 1 none ≡ some out)
    × IsDistinct out
    × ((v : ℕ) → Memᴰ v out ↔ (v ≢ 1) × Reaches graph_0 none 1 v)
reachable_lem_example = reachable_lem graph_0 none 1

ancestors_lem_example :
    (out : List ℕ) × (ancestors graph_0 3 none ≡ some out)
    × IsDistinct out
    × ((v : ℕ) → Memᴰ v out ↔ (v ≢ 3) × ReachedFrom graph_0 none 3 v)
ancestors_lem_example = ancestors_lem graph_0 none 3

known : (is_known graph_0 1 ≡ true) × (is_known graph_0 3 ≡ true)
unfolding is_known make_graph
known = (refl, refl)

ancestors-reachable_example : Memᴰ {A = ℕ} 1 (1 ∷ 2 ∷ []) ↔ Memᴰ {A = ℕ} 3 (3 ∷ 2 ∷ [])
ancestors-reachable_example =
    ancestors-reachable graph_0 none 1 3 (1 ∷ 2 ∷ []) (3 ∷ 2 ∷ []) known.0 known.1 to_3 from_1

-- Requirements derive from systems, systems are verified by requirements, tests depend on systems.
abbrev profile_0 : StandardProfile
profile_0 = record {
  id = "arp";
  version = "1";
  name = "ARP";
  description = none;
  element_types = [];
  relations = [];
  lifecycles = [];
  artifacts = [];
  traceability =
      record {
        id = "t1";
        source_type_id = "req";
        relation_type = derives_from;
        target_type_id = "sys";
        required = true;
      }
      ∷ record {
        id = "t2";
        source_type_id = "sys";
        relation_type = verified_by;
        target_type_id = "req";
        required = true;
      }
      ∷ [];
  verification = [];
  metadata = "{}";
}

violations_0 :
    traceability_violations graph_0 profile_0
    ≡ record {
      rule_id = "t2";
      source_id = 2;
      target_type_id = "req";
      relation_type = verified_by;
      gap_type = wrong_target_type;
      target_id = some 3;
    }
      ∷ record {
        rule_id = "graph-integrity";
        source_id = 2;
        target_type_id = "<unknown>";
        relation_type = depends_on;
        gap_type = dangling_target;
        target_id = some 9;
      }
      ∷ []
unfolding traceability_violations make_graph
violations_0 = refl

traceability_violations-nil_example :
    (traceability_violations graph_0 profile_0 ≡ []) ↔ IsTraceable graph_0 profile_0
traceability_violations-nil_example = traceability_violations-nil graph_0 profile_0
