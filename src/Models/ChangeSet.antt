-- ===== src/Models/ChangeSet.antt =====
-- The hash of a change set does not depend on the order in which it was staged.
use mathlib.Core.List.{Permᴰ}
use multi_agent_aircraft_dev.Base.{
  String, ◌≡◌, ap, map, IsDistinct, sort_by-perm, IsDistinct-KeyFixes,
}
use multi_agent_aircraft_dev.Models.{
  EngineeringGraph, element_id, relation_id, compute_change_set_hash,
}

-- Two stagings of the same change set, its elements and relations each with identifiers of their
-- own, have one hash, in whatever order they were staged.
pub hash-perm :
    (digest : EngineeringGraph → String) (a b : EngineeringGraph)
    → IsDistinct (map element_id a.elements)
    → IsDistinct (map relation_id a.relations)
    → Permᴰ a.elements b.elements
    → Permᴰ a.relations b.relations
    → compute_change_set_hash digest a ≡ compute_change_set_hash digest b
unfolding compute_change_set_hash
hash-perm digest a b d e p q = ap digest (λ i. record {
  elements = sort_by-perm element_id p (IsDistinct-KeyFixes element_id a.elements d) i;
  relations = sort_by-perm relation_id q (IsDistinct-KeyFixes relation_id a.relations e) i;
})
