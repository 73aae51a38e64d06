-- ===== src/Validation/AttributesSound.antt =====
-- When the pass over the attributes finds nothing.
use multi_agent_aircraft_dev.Base.{
  ℕ, String, ◌≡◌, sym, ap, ◌∙◌, ◌↔◌, inl, inr, true, not, some, Option-cases, Bool-cases, List, [],
  map, Memᴰ, arith, nat_eq, string_eq, append-nil_parts, map-nil, select, select-nil, contains,
  contains-Memᴰ, Memᴰ-contains, collect, collect-nil, sort_by-nil, sort_with, sort_with-perm,
  perm-Memᴰ, outsiders-nil, text_le,
}
use mathlib.Core.List.Permᴰ
use multi_agent_aircraft_dev.Dict.{Dict, lookup, keys}
use multi_agent_aircraft_dev.Evidence.{AttributeValue}
use multi_agent_aircraft_dev.Models.{EngineeringElement, element_id}
use multi_agent_aircraft_dev.Profiles.{AttributeDefinition, ElementTypeDefinition}
use multi_agent_aircraft_dev.Validation.{element_issue}
use multi_agent_aircraft_dev.Validation.Elements.{TypeDefinitions}
use multi_agent_aircraft_dev.Validation.Attributes.{
  attribute_value_matches, values_of, defines, attribute_issues, typed_issues, value_issues,
  strangers, validate_attributes,
}

-- A required attribute has a value, and a value is of the attribute's type.
pub record IsFilled (values : Dict String AttributeValue) (attribute : AttributeDefinition)
    : Type 0 where
  pub present :
      attribute.required ≡ true → (v : AttributeValue) × (lookup attribute.id values ≡ some v)
  pub of_type :
      (v : AttributeValue)
      → lookup attribute.id values ≡ some v
      → attribute_value_matches attribute.type v ≡ true

attribute_issues-nil :
    (id : ℕ) (values : Dict String AttributeValue) (attribute : AttributeDefinition)
    → (attribute_issues id values attribute ≡ []) ↔ IsFilled values attribute
unfolding attribute_issues
attribute_issues-nil id values attribute = elim (Option-cases (lookup attribute.id values)) [
  | inl missing ↦ (
    λ h. record { present = λ q. absurd (ground arith); of_type = λ v l. absurd (cc (missing, l)) },
    λ h. elim (Bool-cases attribute.required) [
      | inl t ↦ let (v, l) = h.present t in absurd (cc (missing, l))
      | inr f ↦ ground arith
    ],
  )
  | inr (v, there) ↦ (
    λ h. record { present = λ _. (v, there); of_type = λ w l. ground arith },
    λ h. let k = h.of_type v there in ground arith,
  )
]

-- The values at an element fit its type: each is of a declared attribute, and each attribute is
-- filled.
pub record HasValues (definition : ElementTypeDefinition) (values : Dict String AttributeValue)
    : Type 0 where
  pub declared :
      (a : String)
      → Memᴰ a (keys values)
      → Memᴰ a (map (λ (d : AttributeDefinition). d.id) definition.attributes)
  pub filled : (a : AttributeDefinition) → Memᴰ a definition.attributes → IsFilled values a

typed_issues-nil :
    (definition : ElementTypeDefinition) (values : Dict String AttributeValue) (id : ℕ)
    → (typed_issues definition values id ≡ []) ↔ HasValues definition values
unfolding typed_issues defines
typed_issues-nil definition values id =
    let names = map (λ (d : AttributeDefinition). d.id) definition.attributes in
    let (u_in, u_out) =
      select-nil (λ a. not (defines definition a)) (sort_with text_le (keys values)) in
    let (a_in, a_out) = collect-nil (attribute_issues id values) definition.attributes in
    let sorted = sort_with-perm text_le (keys values) in
    let unknown = select (λ a. not (defines definition a)) (sort_with text_le (keys values)) in
    (
      λ h.
          let (a, b) =
            append-nil_parts (map (λ _. element_issue "UNKNOWN_ATTRIBUTE" id) unknown) h in
          record {
            declared = λ k m. contains-Memᴰ k names (
                ground (
                  arith,
                  u_in (map-nil (λ _. element_issue "UNKNOWN_ATTRIBUTE" id) unknown a) k
                      (perm-Memᴰ (Permᴰ.symm sorted) m),
                ));
            filled = λ k m. (attribute_issues-nil id values k).0 (a_in b k m);
          },
      λ h.
          rw
            (u_out (λ k m.
              let there = Memᴰ-contains k names (h.declared k (perm-Memᴰ sorted m)) in
              ground arith))
            (a_out (λ k m. (attribute_issues-nil id values k).1 (h.filled k m))),
    )

module _ (elements : List EngineeringElement) (types : TypeDefinitions)
    (attributes : Dict ℕ (Dict String AttributeValue)) where
  -- The attributes given are those of elements, and fit their types.
  pub record IsDescribed : Type 0 where
    pub fitting :
        (e : EngineeringElement) (d : ElementTypeDefinition)
        → Memᴰ e elements
        → lookup e.type_id types ≡ some d
        → HasValues d (values_of attributes e.id)
    pub described : (id : ℕ) → Memᴰ id (keys attributes) → Memᴰ id (map element_id elements)

  value_issues-nil :
      (e : EngineeringElement)
      → (value_issues types attributes e ≡ []) ↔ (
          (d : ElementTypeDefinition)
          → lookup e.type_id types ≡ some d
          → HasValues d (values_of attributes e.id))
  unfolding value_issues
  value_issues-nil e = elim (Option-cases (lookup e.type_id types)) [
    | inl missing ↦ (λ h d l. absurd (cc (missing, l)), λ h. ground arith)
    | inr (d, there) ↦
        let (found, right) = typed_issues-nil d (values_of attributes e.id) e.id in
        (
          λ h d' l.
              let same : some d ≡ some d' = sym there ∙ l in
              (typed_issues-nil d' (values_of attributes e.id) e.id).0 (ground arith),
          λ h. let k = right (h d there) in ground arith,
        )
  ]

  pub validate_attributes-nil : (validate_attributes elements types attributes ≡ []) ↔ IsDescribed
  unfolding validate_attributes strangers
  validate_attributes-nil =
      let (v_in, v_out) = collect-nil (value_issues types attributes) elements in
      let (o_in, o_out) =
        outsiders-nil (λ id. contains id (map element_id elements)) (keys attributes) in
      (
        λ h.
            let (a, b) = append-nil_parts (collect (value_issues types attributes) elements) h in
            record {
              fitting = λ e d m. (value_issues-nil e).0 (v_in a e m) d;
              described = λ id m.
                  contains-Memᴰ id (map element_id elements)
                    (o_in ((sort_by-nil (λ i. i) _).0 (map-nil _ _ b)) id m);
            },
        λ h.
            let a = v_out (λ e m. (value_issues-nil e).1 (λ d. h.fitting e d m)) in
            let b =
              (sort_by-nil (λ i. i) _).1
                (o_out (λ id m. Memᴰ-contains id (map element_id elements) (h.described id m))) in
            rw a (ap (map (element_issue "UNKNOWN_ATTRIBUTE")) b),
      )
