-- ===== src/Changes/Tests.antt =====
-- An element that is saved in one of two workspaces.
use multi_agent_aircraft_dev.Base.{ℕ, ◌≡◌, ◌≢◌, [], none, some, nat_eq, arith}
use multi_agent_aircraft_dev.Models.{EngineeringElement, requirement, EngineeringGraph}
use multi_agent_aircraft_dev.Changes.{
  ChangeStore, get_element, save_element, get_changes, get_graph,
}
use multi_agent_aircraft_dev.Changes.Isolation.{get_element-save_element, save_element-isolated}

abbrev element : EngineeringElement
element = record {
  id = 9;
  kind = requirement;
  type_id = "t";
  name = "an element";
  external_system = "s";
  external_id = "e";
  source_uri = none;
}

abbrev canonical_0 : EngineeringGraph
canonical_0 = record { elements = []; relations = [] }

abbrev store_0 : ChangeStore
store_0 = record { elements = []; relations = [] }

get_element-save_element_example :
    get_element canonical_0 1 9 (save_element 1 element store_0) ≡ some element
get_element-save_element_example = get_element-save_element canonical_0 1 1 9 element store_0

abbrev first : ℕ
first = 1

abbrev second : ℕ
second = 2

other_workspace : first ≢ second
other_workspace h = omega arith

save_element-isolated_example :
    (get_changes 2 (save_element 1 element store_0) ≡ get_changes 2 store_0)
    × (get_graph canonical_0 2 (save_element 1 element store_0) ≡ get_graph canonical_0 2 store_0)
save_element-isolated_example =
    save_element-isolated canonical_0 1 2 element store_0 other_workspace
