-- ===== src/Profiles/Composition.antt =====
-- What a composition of profiles holds, in application/profile_engine.py.
use multi_agent_aircraft_dev.Base.{
  String, ◌≡◌, refl, sym, ap, subst, ◌∙◌, ◌⊎◌, inl, inr, ◌↔◌, Bool, true, false, not, Option, none,
  some, Bool-cases, List, [], ◌∷◌, map, Memᴰ, arith, Eq, ◌==◌, ==_iff, string_eq, nat_eq, ◌||◌,
  text_length, contains, join, IsDistinct, unique, unique-IsDistinct, is_empty,
}
use mathlib.Core.List.Memᴰ
use multi_agent_aircraft_dev.Dict.{
  Dict, lookup, insert, values, lookup-insert, lookup-insert_self, lookup-values, values-insert,
}
use multi_agent_aircraft_dev.Errors.{Result, ok, err, ◌>>=◌, ◌>>◌, raise_if, each, then-ok, bind-ok}
use multi_agent_aircraft_dev.Profiles.{
  StandardProfile, LifecycleDefinition, ArtifactRequirement, element_type_eq,
  relation_definition_eq, lifecycle_eq, artifact_eq, traceability_eq, verification_eq,
}
use multi_agent_aircraft_dev.Profiles.Engine.{
  merge_known, merge_list, merge_all, merge, merge_fields, compose, make_profile, validate_profile,
  validate_unique_ids, has_unknown, duplicate_ids, unknown_types, lifecycle_of_unknown,
  artifact_of_unknown, profile_field, no_profiles, type_id, definition_id, lifecycle_id,
  artifact_id, trace_id, check_id, reference, listing,
}

-- Some of the profiles has the definition.
abbrev pub IsDefined : {A : Type 0} → (StandardProfile → List A) → List StandardProfile → A → Type 0
IsDefined field ps d = (p : StandardProfile) × Memᴰ p ps × Memᴰ d (field p)

module _ {A : Type 0} ⦃e : Eq A⦄ (id_of : A → String) where
  -- Later definitions leave the earlier ones as they are.
  abbrev Extends : Dict String A → Dict String A → Type 0
  Extends m m' = (k : String) (d : A) → lookup k m ≡ some d → lookup k m' ≡ some d

  merge_known-inserts :
      (o : Option A) (d : A) (m m' : Dict String A)
      → merge_known id_of o d m ≡ ok m'
      → (m' ≡ insert (id_of d) d m) × ((o ≡ none) ⊎ (o ≡ some d))
  unfolding merge_known
  merge_known-inserts none d m m' h = (ground arith, inl refl)
  merge_known-inserts (some x) d m m' h = elim (Bool-cases (x == d)) [
    | inl t ↦ (ground arith, inr (ap some ((==_iff x d).0 t)))
    | inr f ↦ absurd (ground arith)
  ]

  insert-Extends :
      (d : A) (m : Dict String A)
      → (lookup (id_of d) m ≡ none) ⊎ (lookup (id_of d) m ≡ some d)
      → Extends m (insert (id_of d) d m)
  insert-Extends d m before k x h = elim (Bool-cases (id_of d == k)) [
    | inl t ↦
        let at =
          subst (λ j. (lookup j m ≡ none) ⊎ (lookup j m ≡ some d)) ((==_iff (id_of d) k).0 t)
            before in
        elim at [
          | inl absent ↦ absurd (cc (absent, h))
          | inr same ↦ rw (lookup-insert (id_of d) k d m, t) (sym same ∙ h)
        ]
    | inr f ↦ rw (lookup-insert (id_of d) k d m, f) h
  ]

  -- What a merge of definitions into a dictionary gives.
  record IsMerge (In : A → Type 0) (m m' : Dict String A) : Type 0 where
    extends : Extends m m'
    complete : (d : A) → In d → lookup (id_of d) m' ≡ some d
    sound : (d : A) → Memᴰ d (values m') → In d ⊎ Memᴰ d (values m)

  merge_list-IsMerge :
      (ds : List A) (m m' : Dict String A)
      → merge_list id_of m ds ≡ ok m'
      → IsMerge (λ d. Memᴰ d ds) m m'
  unfolding merge_list
  merge_list-IsMerge [] m m' h =
      let same : m ≡ m' = ground arith in
      record {
        extends = λ k d q. subst (λ x. lookup k x ≡ some d) same q;
        complete = λ d i. elim i [ ];
        sound = λ d i. inr (subst (λ x. Memᴰ d (values x)) (sym same) i);
      }
  merge_list-IsMerge (d ∷ ds) m m' h =
      let (next, first, rest) =
        bind-ok (merge_known id_of (lookup (id_of d) m) d m) (λ n. merge_list id_of n ds) h in
      let (made, before) = merge_known-inserts (lookup (id_of d) m) d m next first in
      let tail = merge_list-IsMerge ds next m' rest in
      let grows : Extends m next =
        subst (λ x. Extends m x) (sym made) (insert-Extends d m before) in
      let here : lookup (id_of d) next ≡ some d =
        subst (λ x. lookup (id_of d) x ≡ some d) (sym made) (lookup-insert_self (id_of d) d m) in
      record {
        extends = λ k x q. tail.extends k x (grows k x q);
        complete = λ x i. elim i [
          | Memᴰ.head q ↦
              subst (λ y. lookup (id_of y) m' ≡ some y) (sym q) (tail.extends (id_of d) d here)
          | Memᴰ.tail n ↦ tail.complete x n
        ];
        sound = λ x i. elim (tail.sound x i) [
          | inl n ↦ inl (Memᴰ.tail n)
          | inr n ↦ elim (values-insert (id_of d) d x m (subst (λ y. Memᴰ x (values y)) made n)) [
            | inl q ↦ inl (Memᴰ.head q)
            | inr o ↦ inr o
          ]
        ];
      }

  merge_all-IsMerge :
      (field : StandardProfile → List A) (ps : List StandardProfile) (m m' : Dict String A)
      → merge_all id_of field m ps ≡ ok m'
      → IsMerge (IsDefined field ps) m m'
  unfolding merge_all
  merge_all-IsMerge field [] m m' h =
      let same : m ≡ m' = ground arith in
      record {
        extends = λ k d q. subst (λ x. lookup k x ≡ some d) same q;
        complete = λ d (p, i, n). elim i [ ];
        sound = λ d i. inr (subst (λ x. Memᴰ d (values x)) (sym same) i);
      }
  merge_all-IsMerge field (p ∷ ps) m m' h =
      let (next, first, rest) =
        bind-ok (merge_list id_of m (field p)) (λ n. merge_all id_of field n ps) h in
      let one = merge_list-IsMerge (field p) m next first in
      let tail = merge_all-IsMerge field ps next m' rest in
      record {
        extends = λ k x q. tail.extends k x (one.extends k x q);
        complete = λ x (q, i, n). elim i [
          | Memᴰ.head s ↦
              tail.extends (id_of x) x (one.complete x (subst (λ y. Memᴰ x (field y)) s n))
          | Memᴰ.tail j ↦ tail.complete x (q, j, n)
        ];
        sound = λ x i. elim (tail.sound x i) [
          | inl (q, j, n) ↦ inl (q, Memᴰ.tail j, n)
          | inr n ↦ elim (one.sound x n) [ inl k ↦ inl (p, Memᴰ.head refl, k) | inr o ↦ inr o ]
        ];
      }

  pub merge-IsDefined :
      (field : StandardProfile → List A) (ps : List StandardProfile) (ds : List A)
      → merge id_of field ps ≡ ok ds
      → (d : A) → Memᴰ d ds ↔ IsDefined field ps d
  unfolding merge
  merge-IsDefined field ps ds h d =
      let (m, made, rest) = bind-ok (merge_all id_of field [] ps) (λ x. ok (values x)) h in
      let same : values m ≡ ds = ground arith in
      let all = merge_all-IsMerge field ps [] m made in
      (
        λ i. elim (all.sound d (subst (λ x. Memᴰ d x) (sym same) i)) [
          | inl q ↦ q
          | inr n ↦ absurd (Memᴰ.not-nil n)
        ],
        λ q. subst (λ x. Memᴰ d x) same (lookup-values (id_of d) d m (all.complete d q)),
      )

-- six statements, none of which reads what another returns
six-ok :
    {E A₀ A₁ A₂ A₃ A₄ A₅ B : Type 0} (r₀ : Result E A₀) (r₁ : Result E A₁) (r₂ : Result E A₂)
    (r₃ : Result E A₃) (r₄ : Result E A₄) (r₅ : Result E A₅) (f : A₀ → A₁ → A₂ → A₃ → A₄ → A₅ → B)
    {b : B}
    → (r₀ >>= λ a₀.
        r₁ >>= λ a₁. r₂ >>= λ a₂. r₃ >>= λ a₃. r₄ >>= λ a₄. r₅ >>= λ a₅. ok (f a₀ a₁ a₂ a₃ a₄ a₅))
      ≡ ok b
    → (a₀ : A₀) × (a₁ : A₁) × (a₂ : A₂) × (a₃ : A₃) × (a₄ : A₄) × (a₅ : A₅) × (r₀ ≡ ok a₀)
      × (r₁ ≡ ok a₁)
      × (r₂ ≡ ok a₂)
      × (r₃ ≡ ok a₃)
      × (r₄ ≡ ok a₄)
      × (r₅ ≡ ok a₅)
      × (f a₀ a₁ a₂ a₃ a₄ a₅ ≡ b)
six-ok (ok a₀) (ok a₁) (ok a₂) (ok a₃) (ok a₄) (ok a₅) f h =
    (a₀, a₁, a₂, a₃, a₄, a₅, refl, refl, refl, refl, refl, refl, ground arith)
six-ok (err e) r₁ r₂ r₃ r₄ r₅ f h = absurd (cc h)
six-ok (ok a₀) (err e) r₂ r₃ r₄ r₅ f h = absurd (cc h)
six-ok (ok a₀) (ok a₁) (err e) r₃ r₄ r₅ f h = absurd (cc h)
six-ok (ok a₀) (ok a₁) (ok a₂) (err e) r₄ r₅ f h = absurd (cc h)
six-ok (ok a₀) (ok a₁) (ok a₂) (ok a₃) (err e) r₅ f h = absurd (cc h)
six-ok (ok a₀) (ok a₁) (ok a₂) (ok a₃) (ok a₄) (err e) f h = absurd (cc h)

-- A field of a composition holds the definitions of its parts, and each identifier once.
abbrev pub IsUnion :
    {A : Type 0}
    → (A → String)
    → (StandardProfile → List A)
    → List StandardProfile
    → List A
    → Type 0
IsUnion {A} id_of field ps ds =
    IsDistinct (map id_of ds) × ((d : A) → Memᴰ d ds ↔ IsDefined field ps d)

-- six tests, of which none raised
six-false :
    {E B : Type 0} (b₀ b₁ b₂ b₃ b₄ b₅ : Bool) (e : E) (k : Result E B) {b : B}
    → (raise_if b₀ e
        >> (raise_if b₁ e
            >> (raise_if b₂ e >> (raise_if b₃ e >> (raise_if b₄ e >> (raise_if b₅ e >> k))))))
      ≡ ok b
    → (b₀ ≡ false) × (b₁ ≡ false) × (b₂ ≡ false) × (b₃ ≡ false) × (b₄ ≡ false) × (b₅ ≡ false)
six-false false false false false false false e k h = (refl, refl, refl, refl, refl, refl)
six-false true b₁ b₂ b₃ b₄ b₅ e k h = absurd (cc h)
six-false false true b₂ b₃ b₄ b₅ e k h = absurd (cc h)
six-false false false true b₃ b₄ b₅ e k h = absurd (cc h)
six-false false false false true b₄ b₅ e k h = absurd (cc h)
six-false false false false false true b₅ e k h = absurd (cc h)
six-false false false false false false true e k h = absurd (cc h)

not-false : (b : Bool) → not b ≡ false → b ≡ true
not-false b h = ground arith

unique_fields :
    (p : StandardProfile)
    → validate_unique_ids p ≡ ok tt
    → IsDistinct (map type_id p.element_types)
      × IsDistinct (map definition_id p.relations)
      × IsDistinct (map lifecycle_id p.lifecycles)
      × IsDistinct (map artifact_id p.artifacts)
      × IsDistinct (map trace_id p.traceability)
      × IsDistinct (map check_id p.verification)
unfolding validate_unique_ids
unique_fields p h =
    let types = map type_id p.element_types in
    let relations = map definition_id p.relations in
    let lifecycles = map lifecycle_id p.lifecycles in
    let artifacts = map artifact_id p.artifacts in
    let traces = map trace_id p.traceability in
    let checks = map check_id p.verification in
    let (a, b, c, d, t, v) =
      six-false (not (unique types)) (not (unique relations)) (not (unique lifecycles))
        (not (unique artifacts)) (not (unique traces)) (not (unique checks)) duplicate_ids
        (each (λ r. raise_if (has_unknown types r) unknown_types) p.relations
          >> (each
                (λ (x : LifecycleDefinition).
                  raise_if (not (contains x.element_type_id types)) lifecycle_of_unknown)
                p.lifecycles
              >> each
                  (λ (x : ArtifactRequirement).
                    raise_if (not (contains x.element_type_id types)) artifact_of_unknown)
                  p.artifacts))
        h in
    (
      unique-IsDistinct types (not-false _ a),
      unique-IsDistinct relations (not-false _ b),
      unique-IsDistinct lifecycles (not-false _ c),
      unique-IsDistinct artifacts (not-false _ d),
      unique-IsDistinct traces (not-false _ t),
      unique-IsDistinct checks (not-false _ v),
    )

make_profile-ok :
    (p c : StandardProfile) → make_profile p ≡ ok c → (p ≡ c) × (validate_unique_ids p ≡ ok tt)
unfolding make_profile
make_profile-ok p c h =
    let blank =
      nat_eq.beq (text_length p.id) 0
      || nat_eq.beq (text_length p.version) 0
      || nat_eq.beq (text_length p.name) 0 in
    let (_, _, rest) =
      bind-ok (raise_if blank profile_field) (λ _. validate_unique_ids p >> ok p) h in
    let (u, checked, last) = bind-ok (validate_unique_ids p) (λ _. ok p) rest in
    (ground arith, checked)

-- What a composition is: the union of valid profiles, in each of its fields.
pub record IsComposition (ps : List StandardProfile) (c : StandardProfile) : Type 0 where
  pub parts : (p : StandardProfile) → Memᴰ p ps → validate_profile p ≡ ok tt
  pub element_types : IsUnion type_id (λ p. p.element_types) ps c.element_types
  pub relations : IsUnion definition_id (λ p. p.relations) ps c.relations
  pub lifecycles : IsUnion lifecycle_id (λ p. p.lifecycles) ps c.lifecycles
  pub artifacts : IsUnion artifact_id (λ p. p.artifacts) ps c.artifacts
  pub traceability : IsUnion trace_id (λ p. p.traceability) ps c.traceability
  pub verification : IsUnion check_id (λ p. p.verification) ps c.verification

each-ok {ℓ} :
    {E : Type ℓ} {A : Type ℓ} (check : A → Result E (Unit {0})) (xs : List A)
    → each check xs ≡ ok tt
    → (a : A) → Memᴰ a xs
    → check a ≡ ok tt
unfolding each
each-ok check [] h a m = elim m [ ]
each-ok check (x ∷ xs) h a m =
    let (first, rest) = then-ok (check x) (each check xs) h in
    elim m [
      | Memᴰ.head q ↦ subst (λ y. check y ≡ ok tt) (sym q) first
      | Memᴰ.tail i ↦ each-ok check xs rest a i
    ]

-- A composition that succeeds is made of valid profiles, and each of its fields holds exactly the
-- definitions of these, under identifiers that are unique: no definition is lost, changed or added.
pub compose-IsComposition :
    (json : List String → String) (ps : List StandardProfile) (id version name : String)
    (c : StandardProfile)
    → compose json ps id version name ≡ ok c
    → IsComposition ps c
unfolding compose merge_fields
compose-IsComposition json ps id version name c h =
    let description = some (join "Composition of: " (listing (map reference ps))) in
    let metadata = json (map reference ps) in
    let fields = merge_fields ps id version name description metadata in
    let (_, _, after_guard) =
      bind-ok (raise_if (is_empty ps) no_profiles)
        (λ _. each validate_profile ps >> (fields >>= make_profile)) h in
    let (u, valid, after_check) =
      bind-ok (each validate_profile ps) (λ _. fields >>= make_profile) after_guard in
    let (made, merged, last) = bind-ok fields make_profile after_check in
    let (same, checked) = make_profile-ok made c last in
    let distinct = unique_fields c (subst (λ p. validate_unique_ids p ≡ ok tt) same checked) in
    let (a, b, d, e, f, g, ha, hb, hd, he, hf, hg, is) =
      six-ok (merge type_id (λ p. p.element_types) ps) (merge definition_id (λ p. p.relations) ps)
        (merge lifecycle_id (λ p. p.lifecycles) ps) (merge artifact_id (λ p. p.artifacts) ps)
        (merge trace_id (λ p. p.traceability) ps) (merge check_id (λ p. p.verification) ps)
        (λ a b d e f g. record {
          id = id;
          version = version;
          name = name;
          description = description;
          element_types = a;
          relations = b;
          lifecycles = d;
          artifacts = e;
          traceability = f;
          verification = g;
          metadata = metadata;
        })
        merged in
    let whole = is ∙ same in
    record {
      parts = each-ok validate_profile ps valid;
      element_types = (
        distinct.0,
        merge-IsDefined type_id (λ p. p.element_types) ps c.element_types
            (ha ∙ ap (λ p. ok p.element_types) whole),
      );
      relations = (
        distinct.1,
        merge-IsDefined definition_id (λ p. p.relations) ps c.relations
            (hb ∙ ap (λ p. ok p.relations) whole),
      );
      lifecycles = (
        distinct.2,
        merge-IsDefined lifecycle_id (λ p. p.lifecycles) ps c.lifecycles
            (hd ∙ ap (λ p. ok p.lifecycles) whole),
      );
      artifacts = (
        distinct.3,
        merge-IsDefined artifact_id (λ p. p.artifacts) ps c.artifacts
            (he ∙ ap (λ p. ok p.artifacts) whole),
      );
      traceability = (
        distinct.4,
        merge-IsDefined trace_id (λ p. p.traceability) ps c.traceability
            (hf ∙ ap (λ p. ok p.traceability) whole),
      );
      verification = (
        distinct.5,
        merge-IsDefined check_id (λ p. p.verification) ps c.verification
            (hg ∙ ap (λ p. ok p.verification) whole),
      );
    }
