-- ===== src/Models/Tests.antt =====
-- A change set of two elements, staged in both orders.
use mathlib.Core.List.{Permᴰ}
use multi_agent_aircraft_dev.Base.{
  ℕ, String, ◌≡◌, refl, [], ◌∷◌, map, none, unique, contains, unique-IsDistinct, ◌==◌,
  if◌then◌else◌, nat_eq,
}
use multi_agent_aircraft_dev.Models.{
  EngineeringElement, requirement, EngineeringGraph, element_id, relation_id,
  compute_change_set_hash,
}
use multi_agent_aircraft_dev.Models.ChangeSet.{hash-perm}

abbrev element : ℕ → EngineeringElement
element n = record {
  id = n;
  kind = requirement;
  type_id = "t";
  name = "an element";
  external_system = "s";
  external_id = "e";
  source_uri = none;
}

abbrev staged_0 : EngineeringGraph
staged_0 = record { elements = element 4 ∷ element 2 ∷ []; relations = [] }

abbrev staged_1 : EngineeringGraph
staged_1 = record { elements = element 2 ∷ element 4 ∷ []; relations = [] }

-- Reads the first element of the text that is digested.
abbrev digest_of : EngineeringGraph → String
digest_of g = elim g.elements [ [] ↦ "none" | e ∷ _ ↦ if e.id == 2 then "two" else "other" ]

hash-perm_example :
    compute_change_set_hash digest_of staged_0 ≡ compute_change_set_hash digest_of staged_1
unfolding unique contains
hash-perm_example =
    hash-perm digest_of staged_0 staged_1
      (unique-IsDistinct (map element_id staged_0.elements) refl)
      (unique-IsDistinct (map relation_id staged_0.relations) refl) (Permᴰ.swap refl refl) Permᴰ.nil
