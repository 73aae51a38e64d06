-- ===== src/Validation/RulesSound.antt =====
-- When the passes over the profile's rules find nothing.
use multi_agent_aircraft_dev.Base.{
  ℕ, String, ◌≡◌, refl, sym, ap, subst, ◌∙◌, ◌↔◌, inl, inr, true, not, Option, none, some,
  Option-cases, Bool-cases, List, [], ◌∷◌, ◌++◌, map, Memᴰ, arith, ◌==◌, ==_iff, nat_eq, string_eq,
  pair_eq, append-nil_parts, map-nil, select, any, any-select, is_empty, Memᴰ-select,
  Memᴰ-select_intro, contains, contains-Memᴰ, Memᴰ-contains, collect, collect-nil, List-cases,
  sort_by-nil, outsiders-nil,
}
use mathlib.Core.List.{append-nil, append_assoc}
use mathlib.Core.List.Memᴰ
use multi_agent_aircraft_dev.Dict.{Dict, lookup, insert, lookup-insert, has_key}
use multi_agent_aircraft_dev.Models.{EngineeringElement, EngineeringRelation, relation_type_eq}
use multi_agent_aircraft_dev.Profiles.{LifecycleDefinition, ArtifactRequirement, VerificationRule}
use multi_agent_aircraft_dev.Validation.{element_issue}
use multi_agent_aircraft_dev.Validation.Engine.{or_empty}
use multi_agent_aircraft_dev.Validation.Rules.{
  get_list, group, verifies, verification_issues, validate_verification, state_issues, allows,
  step_issues, transition_issues, ids_of, unknown_ids, validate_lifecycle, artifact_issues,
  validate_artifacts,
}

-- The relations grouped by source are the relations with that source, in their order.
get_list-group :
    (id : ℕ) (outgoing : Dict ℕ (List EngineeringRelation)) (rs : List EngineeringRelation)
    → get_list id (group outgoing rs) ≡ get_list id outgoing ++ select (λ r. r.source_id == id) rs
unfolding group get_list select
get_list-group id outgoing [] = sym (append-nil _)
get_list-group id outgoing (r ∷ rs) =
    let xs = get_list r.source_id outgoing in
    let rest = get_list-group id (insert r.source_id (xs ++ r ∷ []) outgoing) rs in
    elim (Bool-cases (r.source_id == id)) [
      | inl t ↦
          let same : r.source_id ≡ id = (==_iff r.source_id id).0 t in
          ground (
            arith,
            rest,
            same,
            lookup-insert r.source_id id (xs ++ r ∷ []) outgoing,
            append_assoc xs (r ∷ []) (select (λ q. q.source_id == id) rs),
            ap (λ x. get_list x outgoing) same,
          )
      | inr f ↦ ground (arith, rest, lookup-insert r.source_id id (xs ++ r ∷ []) outgoing)
    ]

module _ (relations : List EngineeringRelation) (element_map : Dict ℕ EngineeringElement) where
  -- A relation that the rule accepts leaves the element.
  abbrev pub IsVerified : VerificationRule → EngineeringElement → Type 0
  IsVerified rule e =
      (r : EngineeringRelation) × Memᴰ r relations
      × (r.source_id ≡ e.id)
      × (verifies element_map rule r ≡ true)

  leaving-IsVerified :
      (rule : VerificationRule) (e : EngineeringElement)
      → (any (verifies element_map rule) (get_list e.id (group [] relations)) ≡ true)
        ↔ IsVerified rule e
  unfolding select get_list
  leaving-IsVerified rule e =
      let leaving = select (λ r. r.source_id == e.id) relations in
      let found = select (verifies element_map rule) leaving in
      let same : any (verifies element_map rule) (get_list e.id (group [] relations))
          ≡ not (is_empty found) =
        ap (any (verifies element_map rule)) (get_list-group e.id [] relations)
        ∙ any-select (verifies element_map rule) leaving in
      (
        λ h. elim (List-cases found) [
          | inl empty ↦ absurd (ground arith)
          | inr (r, rs, q) ↦
              let (i, v) =
                Memᴰ-select (verifies element_map rule) r leaving (rw q (Memᴰ.head refl)) in
              let (j, t) = Memᴰ-select (λ r. r.source_id == e.id) r relations i in
              (r, j, (==_iff r.source_id e.id).0 t, v)
        ],
        λ (r, j, s, v).
            let m : Memᴰ r leaving =
              Memᴰ-select_intro _ r relations j ((==_iff r.source_id e.id).1 s) in
            elim (List-cases found) [
              | inl empty ↦ absurd (
                  Memᴰ.not-nil (
                    subst (Memᴰ r) empty
                      (Memᴰ-select_intro (verifies element_map rule) r leaving m v)))
              | inr (r', rs, q) ↦ ground arith
            ],
      )

  verification_issues-nil :
      (rule : VerificationRule) (e : EngineeringElement)
      → (verification_issues element_map (group [] relations) rule e ≡ [])
        ↔ (e.type_id ≡ rule.element_type_id → IsVerified rule e)
  unfolding verification_issues
  verification_issues-nil rule e =
      let (there, back) = leaving-IsVerified rule e in
      (
        λ h q. there (ground (arith, ==_iff e.type_id rule.element_type_id)),
        λ h. elim (Bool-cases (e.type_id == rule.element_type_id)) [
          | inl t ↦ let v = back (h ((==_iff e.type_id rule.element_type_id).0 t)) in ground arith
          | inr f ↦ ground arith
        ],
      )

-- The loops over rules and elements find nothing exactly if no rule finds anything at an element.
loops-nil {ℓ} :
    {R : Type ℓ} {B : Type ℓ} (f : R → EngineeringElement → List B) (rules : List R)
    (elements : List EngineeringElement)
    → (collect (λ rule. collect (f rule) elements) rules ≡ [])
      ↔ ((rule : R) (e : EngineeringElement) → Memᴰ rule rules → Memᴰ e elements → f rule e ≡ [])
loops-nil f rules elements =
    let (there, back) = collect-nil (λ rule. collect (f rule) elements) rules in
    (
      λ h rule e m n. (collect-nil (f rule) elements).0 (there h rule m) e n,
      λ h. back (λ rule m. (collect-nil (f rule) elements).1 (λ e n. h rule e m n)),
    )

pub validate_verification-nil :
    (elements : List EngineeringElement) (relations : List EngineeringRelation)
    (rules : List VerificationRule) (element_map : Dict ℕ EngineeringElement)
    → (validate_verification elements relations rules element_map ≡ []) ↔ (
        (rule : VerificationRule) (e : EngineeringElement)
        → Memᴰ rule rules
        → Memᴰ e elements
        → e.type_id ≡ rule.element_type_id
        → IsVerified relations element_map rule e)
unfolding validate_verification
validate_verification-nil elements relations rules element_map =
    let (there, back) =
      loops-nil (verification_issues element_map (group [] relations)) rules elements in
    (
      λ h rule e m n. (verification_issues-nil relations element_map rule e).0 (there h rule e m n),
      λ h.
          back
            (λ rule e m n. (verification_issues-nil relations element_map rule e).1 (h rule e m n)),
    )

artifact_issues-nil :
    (evidence : List (ℕ × String)) (requirement : ArtifactRequirement) (e : EngineeringElement)
    → (artifact_issues evidence requirement e ≡ []) ↔ (
        requirement.required ≡ true
        → e.type_id ≡ requirement.element_type_id
        → Memᴰ (e.id, requirement.artifact_type) evidence)
unfolding artifact_issues
artifact_issues-nil evidence requirement e =
    let pair : ℕ × String = (e.id, requirement.artifact_type) in
    (
      λ h t q.
          contains-Memᴰ pair evidence
            (ground (arith, ==_iff e.type_id requirement.element_type_id)),
      λ h. elim (Bool-cases (contains pair evidence)) [
        | inl t ↦ ground arith
        | inr f ↦
            let absent : ¬ Memᴰ pair evidence = λ m. cc (f, Memᴰ-contains pair evidence m) in
            elim (Bool-cases requirement.required) [
              | inl t ↦ elim (Bool-cases (e.type_id == requirement.element_type_id)) [
                | inl u ↦ absurd (absent (h t ((==_iff e.type_id requirement.element_type_id).0 u)))
                | inr u ↦ ground arith
              ]
              | inr u ↦ ground arith
            ]
      ],
    )

pub validate_artifacts-nil :
    (elements : List EngineeringElement) (requirements : List ArtifactRequirement)
    (evidence : List (ℕ × String))
    → (validate_artifacts elements requirements evidence ≡ []) ↔ (
        (requirement : ArtifactRequirement) (e : EngineeringElement)
        → Memᴰ requirement requirements
        → Memᴰ e elements
        → requirement.required ≡ true
        → e.type_id ≡ requirement.element_type_id
        → Memᴰ (e.id, requirement.artifact_type) evidence)
unfolding validate_artifacts
validate_artifacts-nil elements requirements evidence =
    let (there, back) = loops-nil (artifact_issues evidence) requirements elements in
    (
      λ h q e m n. (artifact_issues-nil evidence q e).0 (there h q e m n),
      λ h. back (λ q e m n. (artifact_issues-nil evidence q e).1 (h q e m n)),
    )

module _ (lifecycle : LifecycleDefinition) (e : EngineeringElement) where
  -- The element has a state of the lifecycle.
  abbrev pub HasState : Option (Dict ℕ String) → Type 0
  HasState states =
      (s : String) × (lookup e.id (or_empty states) ≡ some s) × Memᴰ s lifecycle.states

  -- A transition given for the element is one of the lifecycle, between states of it.
  abbrev pub MayMove : Option (Dict ℕ (String × String)) → Type 0
  MayMove transitions =
      (source target : String)
      → lookup e.id (or_empty transitions) ≡ some (source, target)
      → Memᴰ source lifecycle.states
        × Memᴰ target lifecycle.states
        × (allows lifecycle source target ≡ true)

  state_issues-nil :
      (states : Option (Dict ℕ String))
      → (state_issues states lifecycle e ≡ [])
        ↔ (e.type_id ≡ lifecycle.element_type_id → HasState states)
  unfolding state_issues lookup
  state_issues-nil none = (
    λ h q. absurd (ground (arith, ==_iff e.type_id lifecycle.element_type_id)),
    λ h. elim (Bool-cases (e.type_id == lifecycle.element_type_id)) [
      | inl t ↦
          let (s, l, m) = h ((==_iff e.type_id lifecycle.element_type_id).0 t) in absurd (cc l)
      | inr f ↦ ground arith
    ],
  )
  state_issues-nil (some states) = elim (Option-cases (lookup e.id states)) [
    | inl missing ↦ (
      λ h q. absurd (ground (arith, ==_iff e.type_id lifecycle.element_type_id)),
      λ h. elim (Bool-cases (e.type_id == lifecycle.element_type_id)) [
        | inl t ↦
            let (s, l, m) = h ((==_iff e.type_id lifecycle.element_type_id).0 t) in
            absurd (cc (missing, l))
        | inr f ↦ ground arith
      ],
    )
    | inr (s, there) ↦ (
      λ h q. (
        s,
        there,
        contains-Memᴰ s lifecycle.states
            (ground (arith, ==_iff e.type_id lifecycle.element_type_id)),
      ),
      λ h. elim (Bool-cases (e.type_id == lifecycle.element_type_id)) [
        | inl t ↦
            let (s', l, m) = h ((==_iff e.type_id lifecycle.element_type_id).0 t) in
            let known = Memᴰ-contains s' lifecycle.states m in ground arith
        | inr f ↦ ground arith
      ],
    )
  ]

  step_issues-nil :
      (source target : String)
      → (step_issues lifecycle e (source, target) ≡ [])
        ↔ Memᴰ source lifecycle.states
          × Memᴰ target lifecycle.states
          × (allows lifecycle source target ≡ true)
  unfolding step_issues
  step_issues-nil source target = (
    λ h. (
      contains-Memᴰ source lifecycle.states (ground arith),
      contains-Memᴰ target lifecycle.states (ground arith),
      ground arith,
    ),
    λ (m, n, a).
        let k = Memᴰ-contains source lifecycle.states m in
        let l = Memᴰ-contains target lifecycle.states n in ground arith,
  )

  transition_issues-nil :
      (transitions : Option (Dict ℕ (String × String)))
      → (transition_issues transitions lifecycle e ≡ [])
        ↔ (e.type_id ≡ lifecycle.element_type_id → MayMove transitions)
  unfolding transition_issues lookup
  transition_issues-nil none = (λ h q s t l. absurd (cc l), λ h. refl)
  transition_issues-nil (some transitions) =
      elim (Bool-cases (e.type_id == lifecycle.element_type_id)) [
        | inr f ↦ (
          λ h q. absurd (cc (f, (==_iff e.type_id lifecycle.element_type_id).1 q)),
          λ h. ground arith,
        )
        | inl t ↦
            let q = (==_iff e.type_id lifecycle.element_type_id).0 t in
            elim (Option-cases (lookup e.id transitions)) [
              | inl missing ↦ (λ h _ s u l. absurd (cc (missing, l)), λ h. ground arith)
              | inr ((s, u), there) ↦
                  let (found, right) = step_issues-nil s u in
                  (
                    λ h _ s' u' l.
                        let same : some (s, u) ≡ some (s', u') = sym there ∙ l in
                        (step_issues-nil s' u').0 (ground arith),
                    λ h. let k = right (h q s u there) in ground arith,
                  )
            ]
      ]

-- Every element has a state of its lifecycles, moves along them, and the evidence is about elements.
pub record FollowsLifecycles (elements : List EngineeringElement)
    (lifecycles : List LifecycleDefinition) (element_map : Dict ℕ EngineeringElement)
    (states : Option (Dict ℕ String)) (transitions : Option (Dict ℕ (String × String)))
    : Type 0 where
  pub in_state :
      (lifecycle : LifecycleDefinition) (e : EngineeringElement)
      → Memᴰ lifecycle lifecycles
      → Memᴰ e elements
      → e.type_id ≡ lifecycle.element_type_id
      → HasState lifecycle e states
  pub moves :
      (lifecycle : LifecycleDefinition) (e : EngineeringElement)
      → Memᴰ lifecycle lifecycles
      → Memᴰ e elements
      → e.type_id ≡ lifecycle.element_type_id
      → MayMove lifecycle e transitions
  pub evidence_known :
      (id : ℕ) → Memᴰ id (ids_of states ++ ids_of transitions) → has_key id element_map ≡ true

unknown_ids-nil :
    (element_map : Dict ℕ EngineeringElement) (ids : List ℕ)
    → (map (element_issue "INVALID_LIFECYCLE_STATE") (unknown_ids element_map ids) ≡ [])
      ↔ ((id : ℕ) → Memᴰ id ids → has_key id element_map ≡ true)
unfolding unknown_ids
unknown_ids-nil element_map ids =
    let (there, back) = outsiders-nil (λ id. has_key id element_map) ids in
    (
      λ h. there ((sort_by-nil (λ id. id) _).0 (map-nil _ _ h)),
      λ h.
          ap (map (element_issue "INVALID_LIFECYCLE_STATE"))
            ((sort_by-nil (λ id. id) _).1 (back h)),
    )

pub validate_lifecycle-nil :
    (elements : List EngineeringElement) (lifecycles : List LifecycleDefinition)
    (element_map : Dict ℕ EngineeringElement) (states : Option (Dict ℕ String))
    (transitions : Option (Dict ℕ (String × String)))
    → (validate_lifecycle elements lifecycles element_map states transitions ≡ [])
      ↔ FollowsLifecycles elements lifecycles element_map states transitions
unfolding validate_lifecycle
validate_lifecycle-nil elements lifecycles element_map states transitions =
    let (s_in, s_out) = loops-nil (state_issues states) lifecycles elements in
    let (t_in, t_out) = loops-nil (transition_issues transitions) lifecycles elements in
    let (u_in, u_out) = unknown_ids-nil element_map (ids_of states ++ ids_of transitions) in
    (
      λ h.
          let (a, rest) =
            append-nil_parts (collect (λ l. collect (state_issues states l) elements) lifecycles)
              h in
          let (b, c) =
            append-nil_parts
              (collect (λ l. collect (transition_issues transitions l) elements) lifecycles) rest in
          record {
            in_state = λ l e m n. (state_issues-nil l e states).0 (s_in a l e m n);
            moves = λ l e m n. (transition_issues-nil l e transitions).0 (t_in b l e m n);
            evidence_known = u_in c;
          },
      λ h.
          let a = s_out (λ l e m n. (state_issues-nil l e states).1 (h.in_state l e m n)) in
          let b = t_out (λ l e m n. (transition_issues-nil l e transitions).1 (h.moves l e m n)) in
          rw a (rw b (u_out h.evidence_known)),
    )
