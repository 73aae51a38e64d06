-- ===== src/AdapterReconciler/Targets.antt =====
-- infrastructure/workspace_reconciler.py: the loop that resolves the endpoints of the relations knows,
-- at its end, a target for each of them.
use multi_agent_aircraft_dev.Base.{
  ℕ, ◌≡◌, sym, ap, subst, ◌⊎◌, inl, inr, Bool-cases, Option, some, List, [], ◌∷◌, Memᴰ, arith, ◌==◌,
  ==_iff, nat_eq,
}
use multi_agent_aircraft_dev.Dict.{Dict, lookup, insert, lookup-insert}
use multi_agent_aircraft_dev.Errors.{ok, bind-ok}
use multi_agent_aircraft_dev.Models.{EngineeringElement, EngineeringRelation}
use multi_agent_aircraft_dev.AdapterReconciler.{Endpoints}
use multi_agent_aircraft_dev.AdapterReconciler.Planning.{resolve, resolve_all}

abbrev pub IsTarget : ℕ → Endpoints → Type 0
IsTarget id ends = (target : EngineeringElement) × (lookup id ends.targets ≡ some target)

abbrev resolved_with :
    EngineeringRelation → EngineeringElement × EngineeringElement → Endpoints → Endpoints
resolved_with relation pair found = record {
  sources = insert relation.id pair.0 found.sources;
  targets = insert relation.id pair.1 found.targets;
}

-- One round of the loop finds the target of its relation, and forgets none.
IsTarget-next :
    (id : ℕ) (relation : EngineeringRelation) (pair : EngineeringElement × EngineeringElement)
    (found : Endpoints)
    → (relation.id ≡ id) ⊎ IsTarget id found
    → IsTarget id (resolved_with relation pair found)
IsTarget-next id relation pair found h = elim (Bool-cases (relation.id == id)) [
  | inl t ↦ (pair.1, ground (arith, lookup-insert relation.id id pair.1 found.targets))
  | inr f ↦ elim h [
    | inl e ↦ absurd (ground (arith, ==_iff relation.id id))
    | inr (target, there) ↦
        (target, ground (arith, lookup-insert relation.id id pair.1 found.targets))
  ]
]

module _ (canonical : Option (ℕ → Option EngineeringElement))
    (staged : Dict ℕ EngineeringElement) where
  resolve_all-keeps :
      (id : ℕ) (relations : List EngineeringRelation) (found ends : Endpoints)
      → resolve_all canonical staged found relations ≡ ok ends
      → IsTarget id found
      → IsTarget id ends
  unfolding resolve_all
  resolve_all-keeps id [] found ends h there =
      subst (IsTarget id) {x = found} {y = ends} (ground arith) there
  resolve_all-keeps id (relation ∷ relations) found ends h there =
      let (pair, _, rest) = bind-ok (resolve canonical staged relation) _ h in
      resolve_all-keeps id relations (resolved_with relation pair found) ends rest
        (IsTarget-next id relation pair found (inr there))

  pub resolve_all-IsTarget :
      (relation : EngineeringRelation) (relations : List EngineeringRelation)
      (found ends : Endpoints)
      → resolve_all canonical staged found relations ≡ ok ends
      → Memᴰ relation relations
      → IsTarget relation.id ends
  unfolding resolve_all
  resolve_all-IsTarget relation [] found ends h m = elim m [ ]
  resolve_all-IsTarget relation (r ∷ relations) found ends h (Memᴰ.head e) =
      let (pair, _, rest) = bind-ok (resolve canonical staged r) _ h in
      resolve_all-keeps relation.id relations (resolved_with r pair found) ends rest
        (IsTarget-next relation.id r pair found (inl (ap (λ x. x.id) (sym e))))
  resolve_all-IsTarget relation (r ∷ relations) found ends h (Memᴰ.tail m) =
      let (pair, _, rest) = bind-ok (resolve canonical staged r) _ h in
      resolve_all-IsTarget relation relations (resolved_with r pair found) ends rest m
