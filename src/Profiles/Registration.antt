-- ===== src/Profiles/Registration.antt =====
-- The writes of the profile registries, of infrastructure/profile_registry.py and of
-- infrastructure/metadata_repositories.py, behind one interface.
use multi_agent_aircraft_dev.Base.{
  String, ◌≡◌, refl, sym, ap, subst, ◌∙◌, ◌⊎◌, inl, inr, Bool, true, false, not, ◌&&◌, ◌||◌, Option,
  none, some, Option-cases, Bool-cases, List, [], ◌∷◌, ◌++◌, arith, Eq, ◌==◌, ==_iff, string_eq,
  pair_eq, list_eq, option_eq, eq_via, if◌then◌else◌, select, contains, sort_with, texts_le,
}
use multi_agent_aircraft_dev.Dict.{lookup, insert, keys, lookup-insert}
use multi_agent_aircraft_dev.Errors.{Result, ok, err, ◌>>◌, raise_if, bind-ok}
use multi_agent_aircraft_dev.Profiles.{
  ElementTypeDefinition, RelationDefinition, LifecycleDefinition, ArtifactRequirement,
  TraceabilityRule, VerificationRule, StandardProfile, element_type_eq, relation_definition_eq,
  lifecycle_eq, artifact_eq, traceability_eq, verification_eq,
}
use multi_agent_aircraft_dev.Profiles.Registry.{ProfileStore}
use multi_agent_aircraft_dev.Profiles.Engine.{
  ProfileError, profile_exists, profile_not_found, validate_profile,
}

abbrev pub Key : Type 0
Key = String × String

abbrev pub key_of : StandardProfile → Key
key_of p = (p.id, p.version)

-- `existing != profile`, compared field by field
instance abbrev pub profile_eq : Eq StandardProfile
profile_eq =
    eq_via
      {B = String
        × (String
            × (String
                × (Option String
                    × (List ElementTypeDefinition
                        × (List RelationDefinition
                            × (List LifecycleDefinition
                                × (List ArtifactRequirement
                                    × (List TraceabilityRule
                                        × (List VerificationRule × String)))))))))}
      (λ p. (
        p.id,
        (
          p.version,
          (
            p.name,
            (
              p.description,
              (
                p.element_types,
                (
                  p.relations,
                  (p.lifecycles, (p.artifacts, (p.traceability, (p.verification, p.metadata)))),
                ),
              ),
            ),
          ),
        ),
      ))
      (λ t. record {
        id = t.0;
        version = t.1.0;
        name = t.1.1.0;
        description = t.1.1.1.0;
        element_types = t.1.1.1.1.0;
        relations = t.1.1.1.1.1.0;
        lifecycles = t.1.1.1.1.1.1.0;
        artifacts = t.1.1.1.1.1.1.1.0;
        traceability = t.1.1.1.1.1.1.1.1.0;
        verification = t.1.1.1.1.1.1.1.1.1.0;
        metadata = t.1.1.1.1.1.1.1.1.1.1;
      })
      (λ p. refl)

-- What the writes do to the registered and to the active profiles.
pub record ProfileRegistry : Type 0 where
  pub register : StandardProfile → ProfileStore → Result ProfileError ProfileStore
  pub activate : Key → ProfileStore → Result ProfileError (StandardProfile × ProfileStore)
  pub deactivate : Key → ProfileStore → Result ProfileError ProfileStore
  pub register_stores :
      (p : StandardProfile) (s s' : ProfileStore)
      → register p s ≡ ok s'
      → (validate_profile p ≡ ok tt)
        × ((lookup (key_of p) s.profiles ≡ none) ⊎ (lookup (key_of p) s.profiles ≡ some p))
        × ((j : Key)
            → lookup j s'.profiles ≡ (if key_of p == j then some p else lookup j s.profiles))
        × ((j : Key) → contains j s'.active ≡ true → contains j s.active ≡ true)
  pub activate_marks :
      (k : Key) (s : ProfileStore) (p : StandardProfile) (s' : ProfileStore)
      → activate k s ≡ ok (p, s')
      → (lookup k s.profiles ≡ some p)
        × (validate_profile p ≡ ok tt)
        × (s'.profiles ≡ s.profiles)
        × ((j : Key) → contains j s'.active ≡ (contains j s.active || k == j))
  pub deactivate_unmarks :
      (k : Key) (s s' : ProfileStore)
      → deactivate k s ≡ ok s'
      → (s'.profiles ≡ s.profiles)
        × ((j : Key) → contains j s'.active ≡ (contains j s.active && not (k == j)))

-- `existing is not None and existing != profile`
abbrev pub is_different : Option StandardProfile → StandardProfile → Bool
is_different none p = false
is_different (some existing) p = not (existing == p)

-- `InMemoryStandardProfileRegistry`
unfoldable pub register_profile : StandardProfile → ProfileStore → Result ProfileError ProfileStore
unfolding validate_profile lookup insert
register_profile p s = do
  validate_profile p
  raise_if (is_different (lookup (key_of p) s.profiles) p) profile_exists
  ok (record s { profiles = insert (key_of p) p s.profiles })

-- `self._active.add(key)`
abbrev pub add : Key → List Key → List Key
add k active = if contains k active then active else active ++ k ∷ []

unfoldable pub activate_known :
    Option StandardProfile
    → Key
    → ProfileStore
    → Result ProfileError (StandardProfile × ProfileStore)
unfolding validate_profile contains
activate_known none k s = err profile_not_found
activate_known (some p) k s = do validate_profile p; ok (p, record s { active = add k s.active })

unfoldable pub activate_profile :
    Key → ProfileStore → Result ProfileError (StandardProfile × ProfileStore)
unfolding lookup activate_known
activate_profile k s = activate_known (lookup k s.profiles) k s

-- `self._active.discard(key)`
abbrev pub drop : Key → List Key → List Key
drop k active = select (λ j. not (k == j)) active

unfoldable pub deactivate_profile : Key → ProfileStore → Result ProfileError ProfileStore
unfolding select
deactivate_profile k s = ok (record s { active = drop k s.active })

-- `SqlAlchemyStandardProfileRegistry`: a row has the profile and its `active` flag.
unfoldable pub register_row :
    Option StandardProfile → StandardProfile → ProfileStore → Result ProfileError ProfileStore
unfolding insert select
register_row none p s =
    ok (record s { profiles = insert (key_of p) p s.profiles; active = drop (key_of p) s.active })
register_row (some existing) p s = do raise_if (not (existing == p)) profile_exists; ok s

unfoldable pub register_durable : StandardProfile → ProfileStore → Result ProfileError ProfileStore
unfolding validate_profile lookup register_row
register_durable p s = do validate_profile p; register_row (lookup (key_of p) s.profiles) p s

unfoldable pub deactivate_row :
    Option StandardProfile → Key → ProfileStore → Result ProfileError ProfileStore
unfolding select
deactivate_row none k s = err profile_not_found
deactivate_row (some p) k s = ok (record s { active = drop k s.active })

unfoldable pub deactivate_durable : Key → ProfileStore → Result ProfileError ProfileStore
unfolding lookup deactivate_row
deactivate_durable k s = deactivate_row (lookup k s.profiles) k s

abbrev pub key_texts : Key → List String
key_texts k = k.0 ∷ k.1 ∷ []

-- the profiles at some keys, in the order of the keys
unfoldable pub profiles_at : List Key → ProfileStore → List StandardProfile
unfolding lookup
profiles_at [] s = []
profiles_at (k ∷ ks) s =
    let rest = profiles_at ks s in elim (lookup k s.profiles) [ none ↦ rest | some p ↦ p ∷ rest ]

-- `get_active` and `list`
unfoldable pub get_active : ProfileStore → List StandardProfile
unfolding profiles_at sort_with texts_le
get_active s = profiles_at (sort_with (λ a b. texts_le (key_texts a) (key_texts b)) s.active) s

unfoldable pub list_profiles : ProfileStore → List StandardProfile
unfolding profiles_at sort_with texts_le keys
list_profiles s =
    profiles_at (sort_with (λ a b. texts_le (key_texts a) (key_texts b)) (keys s.profiles)) s

contains-append_one :
    (j k : Key) (xs : List Key) → contains j (xs ++ k ∷ []) ≡ (contains j xs || k == j)
unfolding contains
contains-append_one j k [] = ground (arith, ==_iff j k, ==_iff k j)
contains-append_one j k (x ∷ xs) = ground (arith, contains-append_one j k xs)

contains-add : (j k : Key) (xs : List Key) → contains j (add k xs) ≡ (contains j xs || k == j)
contains-add j k xs = elim (Bool-cases (contains k xs)) [
  | inr f ↦ rw (f, if◌then◌else◌) (contains-append_one j k xs)
  | inl t ↦ elim (Bool-cases (k == j)) [
    | inl q ↦
        let there : contains j xs ≡ true = subst (λ i. contains i xs ≡ true) ((==_iff k j).0 q) t in
        ground arith
    | inr q ↦ ground arith
  ]
]

contains-drop :
    (j k : Key) (xs : List Key) → contains j (drop k xs) ≡ (contains j xs && not (k == j))
unfolding contains select
contains-drop j k [] = refl
contains-drop j k (x ∷ xs) =
    ground (arith, contains-drop j k xs, ==_iff j x, ==_iff k x, ==_iff k j)

pub register_profile-stores :
    (p : StandardProfile) (s s' : ProfileStore)
    → register_profile p s ≡ ok s'
    → (validate_profile p ≡ ok tt)
      × ((lookup (key_of p) s.profiles ≡ none) ⊎ (lookup (key_of p) s.profiles ≡ some p))
      × ((j : Key) → lookup j s'.profiles ≡ (if key_of p == j then some p else lookup j s.profiles))
      × ((j : Key) → contains j s'.active ≡ true → contains j s.active ≡ true)
unfolding register_profile
register_profile-stores p s s' h =
    let written : ProfileStore = record s { profiles = insert (key_of p) p s.profiles } in
    let different = is_different (lookup (key_of p) s.profiles) p in
    let (_, valid, rest) =
      bind-ok (validate_profile p) (λ _. raise_if different profile_exists >> ok written) h in
    let (_, same, last) = bind-ok (raise_if different profile_exists) (λ _. ok written) rest in
    let made : written ≡ s' = ground arith in
    (
      valid,
      elim (Option-cases (lookup (key_of p) s.profiles)) [
        | inl absent ↦ inl absent
        | inr (q, found) ↦
            let equal : (q == p) ≡ true = ground arith in
            inr (found ∙ ap some ((==_iff q p).0 equal))
      ],
      λ j.
          subst (λ x. lookup j x.profiles ≡ (if key_of p == j then some p else lookup j s.profiles))
            made (lookup-insert (key_of p) j p s.profiles),
      λ j m. subst (λ x. contains j x.active ≡ true) (sym made) m,
    )

pub activate_profile-marks :
    (k : Key) (s : ProfileStore) (p : StandardProfile) (s' : ProfileStore)
    → activate_profile k s ≡ ok (p, s')
    → (lookup k s.profiles ≡ some p)
      × (validate_profile p ≡ ok tt)
      × (s'.profiles ≡ s.profiles)
      × ((j : Key) → contains j s'.active ≡ (contains j s.active || k == j))
unfolding activate_profile activate_known
activate_profile-marks k s p s' h = elim (Option-cases (lookup k s.profiles)) [
  | inl absent ↦ absurd (ground arith)
  | inr (q, found) ↦
      let written : ProfileStore = record s { active = add k s.active } in
      let answer : StandardProfile × ProfileStore = (q, written) in
      let (_, valid, last) =
        bind-ok (validate_profile q) (λ _. ok answer)
          (rw (found, activate_profile, activate_known) at h) in
      let same : q ≡ p = ground arith in
      let made : written ≡ s' = ground arith in
      (
        found ∙ ap some same,
        subst (λ x. validate_profile x ≡ ok tt) same valid,
        ap (λ x. x.profiles) (sym made),
        λ j.
            subst (λ x. contains j x.active ≡ (contains j s.active || k == j)) made
              (contains-add j k s.active),
      )
]

pub deactivate_profile-unmarks :
    (k : Key) (s s' : ProfileStore)
    → deactivate_profile k s ≡ ok s'
    → (s'.profiles ≡ s.profiles)
      × ((j : Key) → contains j s'.active ≡ (contains j s.active && not (k == j)))
unfolding deactivate_profile
deactivate_profile-unmarks k s s' h =
    let written : ProfileStore = record s { active = drop k s.active } in
    let made : written ≡ s' = ground arith in
    (
      ap (λ x. x.profiles) (sym made),
      λ j.
          subst (λ x. contains j x.active ≡ (contains j s.active && not (k == j))) made
            (contains-drop j k s.active),
    )

pub register_durable-stores :
    (p : StandardProfile) (s s' : ProfileStore)
    → register_durable p s ≡ ok s'
    → (validate_profile p ≡ ok tt)
      × ((lookup (key_of p) s.profiles ≡ none) ⊎ (lookup (key_of p) s.profiles ≡ some p))
      × ((j : Key) → lookup j s'.profiles ≡ (if key_of p == j then some p else lookup j s.profiles))
      × ((j : Key) → contains j s'.active ≡ true → contains j s.active ≡ true)
unfolding register_durable register_row
register_durable-stores p s s' h =
    let (_, valid, rest) =
      bind-ok (validate_profile p) (λ _. register_row (lookup (key_of p) s.profiles) p s) h in
    elim (Option-cases (lookup (key_of p) s.profiles)) [
      | inl absent ↦
          let written : ProfileStore = record s {
            profiles = insert (key_of p) p s.profiles;
            active = drop (key_of p) s.active;
          } in
          let made : written ≡ s' = ground arith in
          (
            valid,
            inl absent,
            λ j.
                subst
                  (λ x.
                    lookup j x.profiles ≡ (if key_of p == j then some p else lookup j s.profiles))
                  made (lookup-insert (key_of p) j p s.profiles),
            λ j m.
                let kept : contains j (drop (key_of p) s.active) ≡ true =
                  subst (λ x. contains j x.active ≡ true) (sym made) m in
                ground (arith, contains-drop j (key_of p) s.active),
          )
      | inr (q, found) ↦ elim (Bool-cases (q == p)) [
        | inr f ↦ absurd (ground arith)
        | inl t ↦
            let made : s ≡ s' = ground arith in
            let there : lookup (key_of p) s.profiles ≡ some p =
              found ∙ ap some ((==_iff q p).0 t) in
            (
              valid,
              inr there,
              λ j.
                  subst
                    (λ x.
                      lookup j x.profiles ≡ (if key_of p == j then some p else lookup j s.profiles))
                    made
                    (elim (Bool-cases (key_of p == j)) [
                      | inl e ↦
                          rw (e, if◌then◌else◌)
                            (subst (λ k. lookup k s.profiles ≡ some p) ((==_iff (key_of p) j).0 e)
                              there)
                      | inr e ↦ rw (e, if◌then◌else◌) refl
                    ]),
              λ j m. subst (λ x. contains j x.active ≡ true) (sym made) m,
            )
      ]
    ]

pub deactivate_durable-unmarks :
    (k : Key) (s s' : ProfileStore)
    → deactivate_durable k s ≡ ok s'
    → (s'.profiles ≡ s.profiles)
      × ((j : Key) → contains j s'.active ≡ (contains j s.active && not (k == j)))
unfolding deactivate_durable deactivate_row
deactivate_durable-unmarks k s s' h = elim (Option-cases (lookup k s.profiles)) [
  | inl absent ↦ absurd (ground arith)
  | inr (p, found) ↦
      let written : ProfileStore = record s { active = drop k s.active } in
      let made : written ≡ s' = ground arith in
      (
        ap (λ x. x.profiles) (sym made),
        λ j.
            subst (λ x. contains j x.active ≡ (contains j s.active && not (k == j))) made
              (contains-drop j k s.active),
      )
]

unfoldable pub profiles_in_memory : ProfileRegistry
profiles_in_memory = record {
  register = register_profile;
  activate = activate_profile;
  deactivate = deactivate_profile;
  register_stores = register_profile-stores;
  activate_marks = activate_profile-marks;
  deactivate_unmarks = deactivate_profile-unmarks;
}

unfoldable pub profiles_in_database : ProfileRegistry
profiles_in_database = record {
  register = register_durable;
  activate = activate_profile;
  deactivate = deactivate_durable;
  register_stores = register_durable-stores;
  activate_marks = activate_profile-marks;
  deactivate_unmarks = deactivate_durable-unmarks;
}
