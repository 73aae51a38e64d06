-- ===== src/Traceability/Diagnosis.antt =====
-- When `traceability_violations` finds nothing.
use multi_agent_aircraft_dev.Base.{
  ◌≡◌, refl, ◌≢◌, ◌↔◌, inl, inr, Bool, true, false, not, ◌&&◌, List, [], ◌∷◌, Memᴰ, arith, ◌==◌,
  ==_iff, nat_eq, string_eq, Bool-cases, List-cases, select, any-select, Memᴰ-select,
  Memᴰ-select_intro, select-nil, map-nil, collect, collect-nil, append-nil_parts, none,
}
use multi_agent_aircraft_dev.Dict.{values}
use multi_agent_aircraft_dev.Models.{EngineeringElement, EngineeringRelation, relation_type_eq}
use multi_agent_aircraft_dev.Profiles.{TraceabilityRule, StandardProfile}
use multi_agent_aircraft_dev.Traceability.{TraceabilityGraph, outgoing, is_known}
use multi_agent_aircraft_dev.Traceability.Violations.{
  gap_at, dangling_target, wrong_target_type, wrong_relation_type, is_of_type, matches,
  required_gaps, rule_gaps, relation_gaps, traceability_violations,
}

module _ (graph : TraceabilityGraph) (rule : TraceabilityRule) (source : EngineeringElement) where
  -- A relation of the rule's type leads from the element to one of the rule's target type.
  abbrev pub IsLinked : Type 0
  IsLinked =
      (r : EngineeringRelation) × Memᴰ r graph.relations
      × (r.source_id ≡ source.id)
      × (r.relation_type ≡ rule.relation_type)
      × (is_of_type graph rule.target_type_id r.target_id ≡ true)

  -- What a rule asks of an element of its source type.
  abbrev pub IsObeyed : Type 0
  IsObeyed = (rule.required ≡ true → IsLinked) × (rule.required ≡ false → ¬ IsLinked)

  abbrev matching : List EngineeringRelation
  matching = select (matches graph rule) (outgoing graph source.id none)

  IsLinked-matching : IsLinked → matching ≢ []
  unfolding outgoing matches
  IsLinked-matching (r, m, s, t, k) e =
      let there : Memᴰ r (outgoing graph source.id none) =
        Memᴰ-select_intro _ r graph.relations m (ground (arith, ==_iff r.source_id source.id)) in
      let fails = (select-nil (matches graph rule) (outgoing graph source.id none)).0 e r there in
      ground (arith, ==_iff r.relation_type rule.relation_type)

  matching-IsLinked : (r : EngineeringRelation) → Memᴰ r matching → IsLinked
  unfolding outgoing matches
  matching-IsLinked r m =
      let (i, t) = Memᴰ-select (matches graph rule) r (outgoing graph source.id none) m in
      let (j, u) = Memᴰ-select _ r graph.relations i in
      (
        r,
        j,
        (==_iff r.source_id source.id).0 (ground arith),
        (==_iff r.relation_type rule.relation_type).0 (ground arith),
        ground arith,
      )

  -- with no relation of the rule's type, each of the others is of another type
  select-other :
      (q s : EngineeringRelation → Bool) (rs : List EngineeringRelation)
      → select s rs ≡ []
      → select (λ r. q r && not (s r)) rs ≡ select q rs
  unfolding select
  select-other q s [] h = refl
  select-other q s (r ∷ rs) h = ground (arith, select-other q s rs)

  required_gaps-found :
      (leaving : List EngineeringRelation) → required_gaps graph rule source leaving ≢ []
  unfolding required_gaps
  required_gaps-found leaving =
      let same = select (λ r. r.relation_type == rule.relation_type) leaving in
      let right = λ (r : EngineeringRelation). is_of_type graph rule.target_type_id r.target_id in
      let other =
        λ (r : EngineeringRelation). right r && not (r.relation_type == rule.relation_type) in
      ground (
        arith,
        any-select (λ r. not (is_known graph r.target_id)) same,
        any-select right leaving,
        select-other right (λ r. r.relation_type == rule.relation_type) leaving,
        map-nil (gap_at rule source dangling_target)
            (select (λ r. not (is_known graph r.target_id)) same),
        map-nil (gap_at rule source wrong_target_type) same,
        map-nil (gap_at rule source wrong_relation_type) (select other leaving),
      )

  -- An element of the source type is without findings exactly if it obeys the rule.
  rule_gaps-nil :
      source.type_id ≡ rule.source_type_id → (rule_gaps graph rule source ≡ []) ↔ IsObeyed
  unfolding rule_gaps
  rule_gaps-nil e = elim (List-cases matching) [
    | inl empty ↦ elim (Bool-cases rule.required) [
      | inl required ↦ (
        λ h. absurd (
            required_gaps-found (outgoing graph source.id none)
              (ground (arith, ==_iff source.type_id rule.source_type_id))),
        λ h. absurd (IsLinked-matching (h.0 required) empty),
      )
      | inr optional ↦ (
        λ h. (λ r. cc, λ r l. IsLinked-matching l empty),
        λ h. ground (arith, ==_iff source.type_id rule.source_type_id),
      )
    ]
    | inr (r, rs, full) ↦ elim (Bool-cases rule.required) [
      | inl required ↦ (
        λ h. (λ _. matching-IsLinked r (rw full (Memᴰ.head refl)), λ r. cc),
        λ h. ground (arith, ==_iff source.type_id rule.source_type_id),
      )
      | inr optional ↦ (
        λ h. absurd (ground (arith, ==_iff source.type_id rule.source_type_id)),
        λ h. absurd (h.1 optional (matching-IsLinked r (rw full (Memᴰ.head refl)))),
      )
    ]
  ]

  rule_gaps-other :
      (source.type_id == rule.source_type_id) ≡ false → rule_gaps graph rule source ≡ []
  unfolding rule_gaps
  rule_gaps-other ne = ground arith

module _ (graph : TraceabilityGraph) where
  relation_gaps-nil :
      (r : EngineeringRelation)
      → (relation_gaps graph r ≡ [])
        ↔ (is_known graph r.source_id ≡ true) × (is_known graph r.target_id ≡ true)
  unfolding relation_gaps
  relation_gaps-nil r = ground arith

  -- Every rule is obeyed by every element of its source type, and every relation has both ends.
  pub record IsTraceable (profile : StandardProfile) : Type 0 where
    pub obeyed :
        (rule : TraceabilityRule) (source : EngineeringElement)
        → Memᴰ rule profile.traceability
        → Memᴰ source (values graph.elements)
        → source.type_id ≡ rule.source_type_id
        → IsObeyed graph rule source
    pub anchored :
        (r : EngineeringRelation)
        → Memᴰ r graph.relations
        → (is_known graph r.source_id ≡ true) × (is_known graph r.target_id ≡ true)

  -- The diagnosis finds nothing exactly in a graph in which every element obeys the rules of its
  -- type, a required link being there and a forbidden one not, and no relation dangles.
  pub traceability_violations-nil :
      (profile : StandardProfile)
      → (traceability_violations graph profile ≡ []) ↔ IsTraceable profile
  unfolding traceability_violations
  traceability_violations-nil profile =
      let per_rule =
        λ (rule : TraceabilityRule). collect (rule_gaps graph rule) (values graph.elements) in
      let (rules_in, rules_out) = collect-nil per_rule profile.traceability in
      let (ends_in, ends_out) = collect-nil (relation_gaps graph) graph.relations in
      (
        λ h.
            let (rules, ends) = append-nil_parts (collect per_rule profile.traceability) h in
            record {
              obeyed = λ rule source m n e. (rule_gaps-nil graph rule source e).0 (
                  (collect-nil (rule_gaps graph rule) (values graph.elements)).0
                    (rules_in rules rule m) source n);
              anchored = λ r m. (relation_gaps-nil r).0 (ends_in ends r m);
            },
        λ t.
            rw
              (rules_out (λ rule m.
                (collect-nil (rule_gaps graph rule) (values graph.elements)).1 (λ source n.
                  elim (Bool-cases (source.type_id == rule.source_type_id)) [
                    | inl b ↦
                        let e = (==_iff source.type_id rule.source_type_id).0 b in
                        (rule_gaps-nil graph rule source e).1 (t.obeyed rule source m n e)
                    | inr b ↦ rule_gaps-other graph rule source b
                  ])))
              (ends_out (λ r m. (relation_gaps-nil r).1 (t.anchored r m))),
      )
