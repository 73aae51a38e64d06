-- ===== src/Changes/Isolation.antt =====
-- A workspace sees its own staged changes over the canonical graph, and nobody else's.
use multi_agent_aircraft_dev.Base.{
  ℕ, ◌≡◌, ◌≢◌, refl, some, arith, ◌==◌, ==_iff, nat_eq, if◌then◌else◌,
}
use multi_agent_aircraft_dev.Dict.{Dict, insert, lookup-insert}
use multi_agent_aircraft_dev.Models.{EngineeringElement, EngineeringGraph}
use multi_agent_aircraft_dev.Changes.{
  ChangeStore, staged, get_element, save_element, get_changes, get_graph,
}

pub staged-insert {ℓ} :
    {V : Type ℓ} (i j : ℕ) (inner : Dict ℕ V) (d : Dict ℕ (Dict ℕ V))
    → staged j (insert i inner d) ≡ (if i == j then inner else staged j d)
unfolding staged
staged-insert i j inner d = ground (arith, lookup-insert i j inner d)

staged-insert_ne {ℓ} :
    {V : Type ℓ} (i j : ℕ) (inner : Dict ℕ V) (d : Dict ℕ (Dict ℕ V))
    → i ≢ j
    → staged j (insert i inner d) ≡ staged j d
staged-insert_ne i j inner d h = rw (staged-insert i j inner d) (ground (arith, ==_iff i j))

-- After an element is saved in a workspace, reading its identifier there gives it back, and any
-- other element, in this workspace or another, reads as before.
pub get_element-save_element :
    (canonical : EngineeringGraph) (i j id : ℕ) (element : EngineeringElement) (store : ChangeStore)
    → get_element canonical j id (save_element i element store) ≡ (
        if i == j
        then if element.id == id then some element else get_element canonical j id store
        else get_element canonical j id store)
unfolding get_element save_element
get_element-save_element canonical i j id element store =
    let inner : Dict ℕ EngineeringElement = staged i store.elements in
    rw
      (
        staged-insert i j (insert element.id element inner) store.elements,
        get_element,
        save_element,
      )
      (ground (arith, ==_iff i j, lookup-insert element.id id element inner))

-- What is staged in one workspace changes neither the change set nor the graph of another.
pub save_element-isolated :
    (canonical : EngineeringGraph) (i j : ℕ) (element : EngineeringElement) (store : ChangeStore)
    → i ≢ j
    → (get_changes j (save_element i element store) ≡ get_changes j store)
      × (get_graph canonical j (save_element i element store) ≡ get_graph canonical j store)
unfolding get_changes get_graph save_element
save_element-isolated canonical i j element store h =
    rw (staged-insert_ne i j (insert element.id element (staged i store.elements)) store.elements h)
      (refl, refl)
