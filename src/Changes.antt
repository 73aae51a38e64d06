-- ===== src/Changes.antt =====
-- infrastructure/workspace_changes.py: the change sets staged in workspaces, over the canonical
-- graph of the engineering repository, which is only read.
pub mod Isolation
mod Tests
use multi_agent_aircraft_dev.Base.{
  ℕ, Bool, ◌||◌, Option, none, some, List, [], ◌∷◌, ◌==◌, nat_eq, find, is_none,
}
use multi_agent_aircraft_dev.Dict.{Dict, lookup, insert, values}
use multi_agent_aircraft_dev.Errors.{
  ValueError, relation_endpoint_missing, Result, ok, ◌>>=◌, ◌>>◌, raise_if,
}
use multi_agent_aircraft_dev.Models.{EngineeringElement, EngineeringRelation, EngineeringGraph}

pub record ChangeStore : Type 0 where
  pub elements : Dict ℕ (Dict ℕ EngineeringElement)
  pub relations : Dict ℕ (Dict ℕ EngineeringRelation)

-- `d.get(workspace_id, {})`
unfoldable pub staged {ℓ} : {V : Type ℓ} → ℕ → Dict ℕ (Dict ℕ V) → Dict ℕ V
staged workspace_id d = elim (lookup workspace_id d) [ none ↦ [] | some inner ↦ inner ]

abbrev pub has_id : ℕ → EngineeringElement → Bool
has_id id element = element.id == id

-- `self._canonical.get(element_id)`
unfoldable pub canonical_element : ℕ → EngineeringGraph → Option EngineeringElement
unfolding find
canonical_element element_id canonical = find (has_id element_id) canonical.elements

unfoldable pub get_element : EngineeringGraph → ℕ → ℕ → ChangeStore → Option EngineeringElement
unfolding canonical_element
get_element canonical workspace_id element_id store =
    elim (lookup element_id (staged workspace_id store.elements)) [
      | none ↦ canonical_element element_id canonical
      | some element ↦ some element
    ]

unfoldable pub save_element : ℕ → EngineeringElement → ChangeStore → ChangeStore
save_element workspace_id element store = record store {
  elements =
      insert workspace_id (insert element.id element (staged workspace_id store.elements))
        store.elements;
}

unfoldable pub add_relation :
    EngineeringGraph → ℕ → EngineeringRelation → ChangeStore → Result ValueError ChangeStore
unfolding get_element
add_relation canonical workspace_id relation store = do
  raise_if
      (is_none (get_element canonical workspace_id relation.source_id store)
        || is_none (get_element canonical workspace_id relation.target_id store))
      relation_endpoint_missing
  ok (record store {
    relations =
        insert workspace_id (insert relation.id relation (staged workspace_id store.relations))
          store.relations;
  })

unfoldable pub get_changes : ℕ → ChangeStore → EngineeringGraph
unfolding values
get_changes workspace_id store = record {
  elements = values (staged workspace_id store.elements);
  relations = values (staged workspace_id store.relations);
}

-- `{item.id: item for item in items}`
unfoldable pub elements_by_id :
    List EngineeringElement → Dict ℕ EngineeringElement → Dict ℕ EngineeringElement
elements_by_id [] d = d
elements_by_id (e ∷ es) d = elements_by_id es (insert e.id e d)

unfoldable pub relations_by_id :
    List EngineeringRelation → Dict ℕ EngineeringRelation → Dict ℕ EngineeringRelation
relations_by_id [] d = d
relations_by_id (r ∷ rs) d = relations_by_id rs (insert r.id r d)

-- `d.update(other)`
unfoldable pub overlay {ℓ} : {V : Type ℓ} → Dict ℕ V → Dict ℕ V → Dict ℕ V
overlay [] d = d
overlay ((k, v) ∷ other) d = overlay other (insert k v d)

unfoldable pub get_graph : EngineeringGraph → ℕ → ChangeStore → EngineeringGraph
unfolding values elements_by_id relations_by_id overlay
get_graph canonical workspace_id store = record {
  elements =
      values (overlay (staged workspace_id store.elements) (elements_by_id canonical.elements []));
  relations =
      values
        (overlay (staged workspace_id store.relations) (relations_by_id canonical.relations []));
}
