-- ===== src/AdapterReconciler/Systems.antt =====
-- infrastructure/workspace_reconciler.py: which external systems take part in a reconciliation.
use mathlib.Core.List.{Permᴰ}
use mathlib.Core.List.Memᴰ
use mathlib.Core.List.Permᴰ
use multi_agent_aircraft_dev.Base.{
  ℕ, some, String, ◌≡◌, refl, sym, ap, subst, ◌∙◌, true, not, inl, inr, List, [], ◌∷◌, ◌++◌, map,
  Memᴰ, arith, nat_eq, string_eq, to_set, to_set-Memᴰ, IsDistinct, select, select-nil, sort_with,
  sort_with-perm, perm-Memᴰ, text_le, contains, Bool-cases, if◌then◌else◌, Memᴰ-contains,
}
use multi_agent_aircraft_dev.Dict.{has_key, lookup, values, lookup-values, Dict}
use multi_agent_aircraft_dev.Errors.{Result, ok, err, bind-ok, each}
use multi_agent_aircraft_dev.Models.{EngineeringRelation, EngineeringElement, EngineeringGraph}
use multi_agent_aircraft_dev.Workspaces.{Workspace}
use multi_agent_aircraft_dev.AdapterReconciler.{Plan, Endpoints, Coordinator, ReconcilerError}
use multi_agent_aircraft_dev.AdapterReconciler.Planning.{
  index_elements, resolve_all, used_systems, source_versions_of, check_methods, refuse_missing,
  make_plan, system_of,
}
use multi_agent_aircraft_dev.AdapterReconciler.Targets.{IsTarget, resolve_all-IsTarget}

module _ {A : Type 0} where
  perm-IsDistinct : {xs ys : List A} → Permᴰ xs ys → IsDistinct xs → IsDistinct ys
  perm-IsDistinct Permᴰ.nil d = d
  perm-IsDistinct (Permᴰ.cons {l₁ = xs} e p) (n, d) =
      (λ m. n (subst (λ z. Memᴰ z xs) (sym e) (perm-Memᴰ p m)), perm-IsDistinct p d)
  perm-IsDistinct (Permᴰ.swap {l = l} e f) (n, (k, d)) = (
    λ m. elim m [
      | Memᴰ.head q ↦ n (Memᴰ.head (e ∙ sym q ∙ sym f))
      | Memᴰ.tail i ↦ k (subst (λ z. Memᴰ z l) (sym f) i)
    ],
    (λ m. n (Memᴰ.tail (subst (λ z. Memᴰ z l) (sym e) m)), d),
  )
  perm-IsDistinct (Permᴰ.trans p q) d = perm-IsDistinct q (perm-IsDistinct p d)

to_set-IsDistinct : (xs : List String) → IsDistinct (to_set xs)
unfolding to_set
to_set-IsDistinct [] = tt
to_set-IsDistinct (x ∷ xs) = elim (Bool-cases (contains x (to_set xs))) [
  | inl old ↦ rw (old, if◌then◌else◌) (to_set-IsDistinct xs)
  | inr new ↦
      rw (new, if◌then◌else◌) (λ m. cc (new, Memᴰ-contains x (to_set xs) m), to_set-IsDistinct xs)
]

Memᴰ-system :
    (element : EngineeringElement) (elements : List EngineeringElement)
    → Memᴰ element elements
    → Memᴰ element.external_system (map system_of elements)
Memᴰ-system element [] m = elim m [ ]
Memᴰ-system element (e ∷ elements) (Memᴰ.head q) = Memᴰ.head (ap system_of q)
Memᴰ-system element (e ∷ elements) (Memᴰ.tail m) = Memᴰ.tail (Memᴰ-system element elements m)

-- What the systems of a plan are: each stands once, each has an adapter, and those of the staged
-- elements and those of the targets of the staged relations, which the plan knows, are among them.
abbrev pub Covers :
    Coordinator → EngineeringGraph → List String → Dict ℕ EngineeringElement → Type 0
Covers self changes used targets =
    IsDistinct used
    × ((system : String) → Memᴰ system used → has_key system self.adapters ≡ true)
    × ((element : EngineeringElement)
        → Memᴰ element changes.elements
        → Memᴰ element.external_system used)
    × ((relation : EngineeringRelation)
        → Memᴰ relation changes.relations
        → (target : EngineeringElement) × (lookup relation.id targets ≡ some target)
          × Memᴰ target.external_system used)

refuse_missing-ok :
    (systems : List String) {u : Unit {0}} → refuse_missing systems ≡ ok u → systems ≡ []
unfolding refuse_missing
refuse_missing-ok [] h = refl
refuse_missing-ok (s ∷ systems) h = absurd (ground arith)

abbrev used_in : Result ReconcilerError Plan → List String
used_in (ok plan) = plan.used
used_in (err e) = []

abbrev targets_in : Result ReconcilerError Plan → Dict ℕ EngineeringElement
targets_in (ok plan) = plan.targets
targets_in (err e) = []

used_systems-Covers :
    (self : Coordinator) (changes : EngineeringGraph) (ends : Endpoints)
    → select (λ system. not (has_key system self.adapters)) (used_systems changes ends) ≡ []
    → ((relation : EngineeringRelation)
        → Memᴰ relation changes.relations
        → IsTarget relation.id ends)
    → Covers self changes (used_systems changes ends) ends.targets
unfolding used_systems
used_systems-Covers self changes ends known found =
    let systems : List String =
      map system_of changes.elements
      ++ (map system_of (values ends.sources) ++ map system_of (values ends.targets)) in
    let sorted : Permᴰ (to_set systems) (sort_with text_le (to_set systems)) =
      sort_with-perm text_le (to_set systems) in
    (
      perm-IsDistinct sorted (to_set-IsDistinct systems),
      λ s m. ground (
        arith,
        (select-nil (λ system. not (has_key system self.adapters))
              (sort_with text_le (to_set systems))).0
            known s m,
      ),
      λ e m. perm-Memᴰ (Permᴰ.symm sorted) (
          (to_set-Memᴰ e.external_system systems).1 (
            Memᴰ.append_left
              (map system_of (values ends.sources) ++ map system_of (values ends.targets))
              (Memᴰ-system e changes.elements m))),
      λ r m.
          let (target, there) = found r m in
          (
            target,
            there,
            perm-Memᴰ (Permᴰ.symm sorted) (
                (to_set-Memᴰ target.external_system systems).1 (
                  Memᴰ.append_right (map system_of changes.elements) (
                    Memᴰ.append_right (map system_of (values ends.sources)) (
                      Memᴰ-system target (values ends.targets)
                        (lookup-values r.id target ends.targets there))))),
          ),
    )

-- In a plan that could be made each system stands once and has an adapter, and the systems of the
-- staged elements and of the targets of the staged relations are among them.
pub make_plan-Covers :
    (self : Coordinator) (workspace : Workspace) (changes : EngineeringGraph) {plan : Plan}
    → make_plan self workspace changes ≡ ok plan
    → Covers self changes plan.used plan.targets
unfolding make_plan
make_plan-Covers self workspace changes h =
    let (ends, resolved, h_1) =
      bind-ok
        (resolve_all self.canonical (index_elements [] changes.elements)
          (record { sources = []; targets = [] }) changes.relations)
        _ h in
    let used = used_systems changes ends in
    let (_, known, h_2) =
      bind-ok (refuse_missing (select (λ system. not (has_key system self.adapters)) used)) _ h_1 in
    let (_, _, h_3) =
      bind-ok (source_versions_of self.baselines workspace.source_baseline_id workspace used) _
        h_2 in
    let (_, _, h_4) =
      bind-ok (each (λ system. check_methods (lookup system self.adapters) system) used) _ h_3 in
    subst (λ r. Covers self changes (used_in r) (targets_in r)) h_4
      (used_systems-Covers self changes ends
        (refuse_missing-ok (select (λ system. not (has_key system self.adapters)) used) known)
        (λ r m.
          resolve_all-IsTarget self.canonical (index_elements [] changes.elements) r
            changes.relations (record { sources = []; targets = [] }) ends resolved m))
