-- ===== src/Validation/RelationsSound.antt =====
-- When the pass over the relations finds nothing.
use multi_agent_aircraft_dev.Base.{
  ℕ, String, ◌≡◌, refl, sym, ap, subst, ◌≢◌, ◌↔◌, inl, inr, false, some, Option-cases, Bool-cases,
  List, [], ◌∷◌, map, Memᴰ, arith, ==_iff, nat_eq, string_eq, pair_eq, if◌then◌else◌, IsDistinct,
  append-nil_parts, contains, contains-Memᴰ, Memᴰ-contains, Memᴰ-collect,
}
use mathlib.Core.List.Memᴰ
use multi_agent_aircraft_dev.Dict.{Dict, lookup}
use multi_agent_aircraft_dev.Models.{
  EngineeringElement, EngineeringRelation, RelationType, relation_type_eq,
}
use multi_agent_aircraft_dev.Profiles.{RelationDefinition}
use multi_agent_aircraft_dev.Validation.Relations.{
  Link, link, Pair, allowed_pairs, end_issues, relation_issues, check_relations,
}

-- The profile allows relations of this type between elements of these types.
abbrev pub IsAllowed : List RelationDefinition → RelationType → String → String → Type 0
IsAllowed definitions type source target =
    (d : RelationDefinition) × Memᴰ d definitions
    × (d.relation_type ≡ type)
    × Memᴰ source d.source_type_ids
    × Memᴰ target d.target_type_ids

pub allowed_pairs-IsAllowed :
    (definitions : List RelationDefinition) (type : RelationType) (source target : String)
    → Memᴰ (type, (source, target)) (allowed_pairs definitions)
      ↔ IsAllowed definitions type source target
unfolding allowed_pairs
allowed_pairs-IsAllowed definitions type source target = (
  λ m.
      let (d, i, n) = (Memᴰ-collect _ _ definitions).0 m in
      let (s, j, o) = (Memᴰ-collect _ _ d.source_type_ids).0 n in
      let (t, k, e) = Memᴰ.of_map _ d.target_type_ids o in
      (
        d,
        i,
        ap (λ p. p.0) e,
        subst (λ x. Memᴰ x d.source_type_ids) (ap (λ p. p.1.0) e) j,
        subst (λ x. Memᴰ x d.target_type_ids) (ap (λ p. p.1.1) e) k,
      ),
  λ (d, i, e, j, k). (Memᴰ-collect _ _ definitions).1 (
    d,
    i,
    (Memᴰ-collect _ _ d.source_type_ids).1 (
      source,
      j,
      Memᴰ.cast (ap (λ t. (t, (source, target))) (sym e))
          (Memᴰ.map (λ t. (d.relation_type, (source, t))) k),
    ),
  ),
)

module _ (definitions : List RelationDefinition) (element_map : Dict ℕ EngineeringElement) where
  -- Both ends are there, and the profile allows the relation between their types.
  abbrev pub IsFitting : EngineeringRelation → Type 0
  IsFitting r =
      (source target : EngineeringElement) × (lookup r.source_id element_map ≡ some source)
      × (lookup r.target_id element_map ≡ some target)
      × IsAllowed definitions r.relation_type source.type_id target.type_id

  end_issues-nil :
      (r : EngineeringRelation)
      → (end_issues
            (allowed_pairs definitions)
            r
            (lookup r.source_id element_map)
            (lookup r.target_id element_map)
          ≡ [])
        ↔ IsFitting r
  unfolding end_issues
  end_issues-nil r = elim (Option-cases (lookup r.source_id element_map)) [
    | inl missing ↦ (λ h. absurd (ground arith), λ (s, t, a, b, c). absurd (cc (missing, a)))
    | inr (s, a) ↦ elim (Option-cases (lookup r.target_id element_map)) [
      | inl missing ↦ (λ h. absurd (ground arith), λ (s', t, a', b, c). absurd (cc (missing, b)))
      | inr (t, b) ↦
          let pair : Pair = (r.relation_type, (s.type_id, t.type_id)) in
          let same = allowed_pairs-IsAllowed definitions r.relation_type s.type_id t.type_id in
          (
            λ h. (
              s,
              t,
              a,
              b,
              same.0 (contains-Memᴰ pair (allowed_pairs definitions) (ground arith)),
            ),
            λ (s', t', a', b', c).
                let m = Memᴰ-contains _ (allowed_pairs definitions) (
                  (allowed_pairs-IsAllowed definitions r.relation_type s'.type_id t'.type_id).1
                    c) in
                ground arith,
          )
    ]
  ]

  -- No relation stands twice, and each one fits.
  pub record IsRelated (rs : List EngineeringRelation) : Type 0 where
    pub links : IsDistinct (map link rs)
    pub fitting : (r : EngineeringRelation) → Memᴰ r rs → IsFitting r

  IsRelated-cons :
      (r : EngineeringRelation) (rs : List EngineeringRelation)
      → IsRelated (r ∷ rs) ↔ IsRelated rs × IsFitting r × (¬ Memᴰ (link r) (map link rs))
  IsRelated-cons r rs = (
    λ h. (
      record { links = h.links.1; fitting = λ x m. h.fitting x (Memᴰ.tail m) },
      h.fitting r (Memᴰ.head refl),
      h.links.0,
    ),
    λ (h, f, k). record {
      links = (k, h.links);
      fitting =
          λ x m. elim m [ Memᴰ.head q ↦ subst IsFitting (sym q) f | Memᴰ.tail i ↦ h.fitting x i ];
    },
  )

  abbrev AreNew : List Link → List EngineeringRelation → Type 0
  AreNew seen rs = (r : EngineeringRelation) → Memᴰ r rs → contains (link r) seen ≡ false

  AreNew-cons :
      (seen : List Link) (r : EngineeringRelation) (rs : List EngineeringRelation)
      → AreNew (link r ∷ seen) rs ↔ AreNew seen rs × (¬ Memᴰ (link r) (map link rs))
  unfolding contains
  AreNew-cons seen r rs = (
    λ h. (
      λ x m. ground (arith, h x m),
      λ m.
          let (x, i, same) = Memᴰ.of_map link rs m in
          ground (arith, h x i, ==_iff (link x) (link r)),
    ),
    λ (h, k) x m.
        let ne : link x ≢ link r = λ q. k (subst (λ y. Memᴰ y (map link rs)) q (Memᴰ.map link m)) in
        ground (arith, h x m, ==_iff (link x) (link r)),
  )

  check_relations-seen :
      (seen : List Link) (rs : List EngineeringRelation)
      → (check_relations (allowed_pairs definitions) element_map seen rs ≡ [])
        ↔ AreNew seen rs × IsRelated rs
  unfolding check_relations relation_issues
  check_relations-seen seen [] =
      (λ h. (λ r m. elim m [ ], record { links = tt; fitting = λ r m. elim m [ ] }), λ h. refl)
  check_relations-seen seen (r ∷ rs) = elim (Bool-cases (contains (link r) seen)) [
    | inl old ↦ (λ h. absurd (ground arith), λ h. absurd (cc (old, h.0 r (Memᴰ.head refl))))
    | inr fresh ↦
        let (ends_in, ends_out) = end_issues-nil r in
        let (rest_in, rest_out) = check_relations-seen (link r ∷ seen) rs in
        (
          λ h.
              let both = rw (fresh, if◌then◌else◌) at h in
              let (first, rest) =
                append-nil_parts
                  (end_issues (allowed_pairs definitions) r (lookup r.source_id element_map)
                    (lookup r.target_id element_map))
                  both in
              let (new, related) = rest_in rest in
              let (old, k) = (AreNew-cons seen r rs).0 new in
              (
                λ x m. elim m [
                  | Memᴰ.head q ↦ subst (λ y. contains (link y) seen ≡ false) (sym q) fresh
                  | Memᴰ.tail i ↦ old x i
                ],
                (IsRelated-cons r rs).1 (related, ends_in first, k),
              ),
          λ (new, related).
              let (inner, f, k) = (IsRelated-cons r rs).0 related in
              rw (fresh, if◌then◌else◌, ends_out f)
                (rest_out ((AreNew-cons seen r rs).1 (λ x m. new x (Memᴰ.tail m), k), inner)),
        )
  ]

  -- The pass finds nothing exactly if no relation stands twice, both ends of each are there, and the
  -- profile allows it between their types.
  pub check_relations-nil :
      (rs : List EngineeringRelation)
      → (check_relations (allowed_pairs definitions) element_map [] rs ≡ []) ↔ IsRelated rs
  unfolding contains
  check_relations-nil rs =
      let (there, back) = check_relations-seen [] rs in
      (λ h. (there h).1, λ h. back (λ r m. refl, h))
