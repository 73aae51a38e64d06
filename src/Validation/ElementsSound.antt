-- ===== src/Validation/ElementsSound.antt =====
-- When the pass over the elements finds nothing.
use multi_agent_aircraft_dev.Base.{
  ℕ, String, ◌≡◌, refl, sym, ap, subst, ◌≢◌, ◌↔◌, inl, inr, true, none, some, Option-cases, List,
  [], ◌∷◌, map, Memᴰ, arith, ◌==◌, ==_iff, nat_eq, string_eq, pair_eq, if◌then◌else◌, IsDistinct,
  append-nil_parts,
}
use mathlib.Core.List.Memᴰ
use multi_agent_aircraft_dev.Dict.{lookup, has_key, lookup-insert}
use multi_agent_aircraft_dev.Models.{EngineeringElement, element_id, element_kind_eq}
use multi_agent_aircraft_dev.Profiles.{ElementTypeDefinition}
use multi_agent_aircraft_dev.Validation.Elements.{
  TypeDefinitions, Seen, identity, note_element, type_issues, element_issues, check_elements,
  nothing_seen,
}

-- The profile has the element's type, with the element's kind.
abbrev pub IsTyped : TypeDefinitions → EngineeringElement → Type 0
IsTyped types e =
    (d : ElementTypeDefinition) × (lookup e.type_id types ≡ some d) × (e.kind ≡ d.kind)

-- Each identifier and each external identity belongs to one element, and each element is typed.
pub record IsIdentified (types : TypeDefinitions) (elements : List EngineeringElement)
    : Type 0 where
  pub ids : IsDistinct (map element_id elements)
  pub identities : IsDistinct (map identity elements)
  pub typed : (e : EngineeringElement) → Memᴰ e elements → IsTyped types e

type_issues-nil :
    (types : TypeDefinitions) (e : EngineeringElement)
    → (type_issues types e ≡ []) ↔ IsTyped types e
unfolding type_issues
type_issues-nil types e = elim (Option-cases (lookup e.type_id types)) [
  | inl missing ↦ (λ h. absurd (ground arith), λ (d, s, k). absurd (cc (missing, s)))
  | inr (d, s) ↦ (
    λ h. (d, s, ground (arith, ==_iff e.kind d.kind)),
    λ (d', s', k). ground (arith, ==_iff e.kind d.kind),
  )
]

-- The elements are new to what the loop has noted.
abbrev AreNew : Seen → List EngineeringElement → Type 0
AreNew seen es =
    (e : EngineeringElement)
    → Memᴰ e es
    → (lookup e.id seen.element_map ≡ none) × (lookup (identity e) seen.external_identities ≡ none)

-- An identity is noted for an element that is noted too.
abbrev IsCoherent : Seen → Type 0
IsCoherent seen =
    (i : String × String) (id : ℕ)
    → lookup i seen.external_identities ≡ some id
    → has_key id seen.element_map ≡ true

module _ (types : TypeDefinitions) (seen : Seen) (e : EngineeringElement) where
  abbrev IsFresh : Type 0
  IsFresh =
      (lookup e.id seen.element_map ≡ none)
      × (lookup (identity e) seen.external_identities ≡ none)
      × IsTyped types e

  element_issues-nil : IsCoherent seen → (element_issues types seen e ≡ []) ↔ IsFresh
  unfolding element_issues has_key
  element_issues-nil coherent =
      let typed = type_issues-nil types e in
      elim (Option-cases (lookup (identity e) seen.external_identities)) [
        | inl missing ↦ (
          λ h. (ground arith, missing, typed.0 (ground arith)),
          λ (a, b, t). ground (arith, typed.1 t),
        )
        | inr (id, s) ↦
            let noted = coherent (identity e) id s in
            (
              λ h. absurd (
                  ground (
                    arith,
                    ==_iff id e.id,
                    ap (λ x. lookup x seen.element_map) {x = id} {y = e.id},
                  )),
              λ (a, b, t). absurd (cc (b, s)),
            )
      ]

module _ (seen : Seen) (e : EngineeringElement) where
  -- what is noted after a fresh element
  noted_id :
      (id : ℕ)
      → lookup e.id seen.element_map ≡ none
      → lookup id (note_element seen e).element_map
        ≡ (if e.id == id then some e else lookup id seen.element_map)
  unfolding note_element has_key
  noted_id id h = rw (h, note_element) (lookup-insert e.id id e seen.element_map)

  noted_identity :
      (i : String × String)
      → lookup (identity e) seen.external_identities ≡ none
      → lookup i (note_element seen e).external_identities
        ≡ (if identity e == i then some e.id else lookup i seen.external_identities)
  unfolding note_element has_key
  noted_identity i h =
      rw (h, note_element) (lookup-insert (identity e) i e.id seen.external_identities)

  IsCoherent-note :
      IsCoherent seen
      → lookup e.id seen.element_map ≡ none
      → lookup (identity e) seen.external_identities ≡ none
      → IsCoherent (note_element seen e)
  unfolding has_key
  IsCoherent-note coherent a b i id h =
      ground (arith, noted_id id a, noted_identity i b, coherent i id, ==_iff e.id id)

  -- The rest of the list is new after a fresh element exactly if it was new before and has neither
  -- its identifier nor its identity.
  AreNew-note :
      (es : List EngineeringElement)
      → lookup e.id seen.element_map ≡ none
      → lookup (identity e) seen.external_identities ≡ none
      → AreNew (note_element seen e) es
        ↔ AreNew seen es
          × (¬ Memᴰ e.id (map element_id es))
          × (¬ Memᴰ (identity e) (map identity es))
  AreNew-note es a b = (
    λ h. (
      λ x m. ground (arith, h x m, noted_id x.id a, noted_identity (identity x) b),
      λ m.
          let (x, i, same) = Memᴰ.of_map element_id es m in
          ground (arith, h x i, noted_id x.id a, ==_iff e.id x.id),
      λ m.
          let (x, i, same) = Memᴰ.of_map identity es m in
          ground (arith, h x i, noted_identity (identity x) b, ==_iff (identity e) (identity x)),
    ),
    λ (h, k, l) x m.
        let ne : e.id ≢ x.id =
          λ q. k (subst (λ y. Memᴰ y (map element_id es)) (sym q) (Memᴰ.map element_id m)) in
        let nf : identity e ≢ identity x =
          λ q. l (subst (λ y. Memᴰ y (map identity es)) (sym q) (Memᴰ.map identity m)) in
        ground (
          arith,
          h x m,
          noted_id x.id a,
          noted_identity (identity x) b,
          ==_iff e.id x.id,
          ==_iff (identity e) (identity x),
        ),
  )

module _ (types : TypeDefinitions) where
  IsIdentified-cons :
      (e : EngineeringElement) (es : List EngineeringElement)
      → IsIdentified types (e ∷ es)
        ↔ IsIdentified types es
          × IsTyped types e
          × (¬ Memᴰ e.id (map element_id es))
          × (¬ Memᴰ (identity e) (map identity es))
  IsIdentified-cons e es = (
    λ h. (
      record { ids = h.ids.1; identities = h.identities.1; typed = λ x m. h.typed x (Memᴰ.tail m) },
      h.typed e (Memᴰ.head refl),
      h.ids.0,
      h.identities.0,
    ),
    λ (h, t, k, l). record {
      ids = (k, h.ids);
      identities = (l, h.identities);
      typed = λ x m. elim m [
        | Memᴰ.head q ↦ subst (IsTyped types) (sym q) t
        | Memᴰ.tail i ↦ h.typed x i
      ];
    },
  )

  check_elements-seen :
      (seen : Seen) (es : List EngineeringElement)
      → IsCoherent seen
      → (check_elements types seen es ≡ []) ↔ AreNew seen es × IsIdentified types es
  unfolding check_elements
  check_elements-seen seen [] coherent = (
    λ h. (λ e m. elim m [ ], record { ids = tt; identities = tt; typed = λ e m. elim m [ ] }),
    λ h. refl,
  )
  check_elements-seen seen (e ∷ es) coherent = (
    λ h.
        let (first, rest) = append-nil_parts (element_issues types seen e) h in
        let (a, b, t) = (element_issues-nil types seen e coherent).0 first in
        let (new, found) =
          (check_elements-seen (note_element seen e) es (IsCoherent-note seen e coherent a b)).0
            rest in
        let (old, k, l) = (AreNew-note seen e es a b).0 new in
        (
          λ x m. elim m [
            | Memᴰ.head q ↦
                subst
                  (λ y.
                    (lookup y.id seen.element_map ≡ none)
                    × (lookup (identity y) seen.external_identities ≡ none))
                  (sym q) (a, b)
            | Memᴰ.tail i ↦ old x i
          ],
          (IsIdentified-cons e es).1 (found, t, k, l),
        ),
    λ (new, found).
        let (a, b) = new e (Memᴰ.head refl) in
        let (inner, t, k, l) = (IsIdentified-cons e es).0 found in
        rw ((element_issues-nil types seen e coherent).1 (a, b, t)) (
          (check_elements-seen (note_element seen e) es (IsCoherent-note seen e coherent a b)).1
            ((AreNew-note seen e es a b).1 (λ x m. new x (Memᴰ.tail m), k, l), inner)),
  )

  -- The pass finds nothing exactly if identifiers and external identities are unique and each element
  -- has the kind of its type in the profile.
  pub check_elements-nil :
      (es : List EngineeringElement)
      → (check_elements types nothing_seen es ≡ []) ↔ IsIdentified types es
  unfolding lookup
  check_elements-nil es =
      let same = check_elements-seen nothing_seen es (λ i id h. absurd (ground arith)) in
      (λ h. (same.0 h).1, λ h. same.1 (λ e m. (refl, refl), h))
