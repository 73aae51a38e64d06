-- ===== src/Dict.antt =====
-- A Python `dict`: an association list in insertion order, its keys compared by `==`.
use multi_agent_aircraft_dev.Base.{
  ◌≡◌, refl, sym, ◌↔◌, ◌⊎◌, inl, inr, true, Bool-cases, Memᴰ, Bool, Option, none, some, List, [],
  ◌∷◌, arith, Eq, ◌==◌, ==_self, if◌then◌else◌, is_some,
}

abbrev pub Dict {ℓ κ} : Type ℓ → Type κ → Type (ℓ ⊔ κ)
Dict K V = List (K × V)

module _ {ℓ κ} {K : Type ℓ} {V : Type κ} ⦃e : Eq K⦄ where
  -- `d.get(k)`
  unfoldable pub lookup : K → Dict K V → Option V
  lookup k [] = none
  lookup k ((j, v) ∷ d) = if j == k then some v else lookup k d

  -- `d[k] = v`: a key that is there keeps its place
  unfoldable pub insert : K → V → Dict K V → Dict K V
  insert k v [] = (k, v) ∷ []
  insert k v ((j, w) ∷ d) = if j == k then (j, v) ∷ d else (j, w) ∷ insert k v d

  -- `k in d`
  unfoldable pub has_key : K → Dict K V → Bool
  unfolding lookup
  has_key k d = is_some (lookup k d)

  -- What is read back after a write.
  pub lookup-insert :
      (k j : K) (v : V) (d : Dict K V)
      → lookup j (insert k v d) ≡ (if k == j then some v else lookup j d)
  unfolding lookup insert
  lookup-insert k j v [] = refl
  lookup-insert k j v ((i, w) ∷ d) =
      ground (arith, e.beq_iff k j, e.beq_iff i k, e.beq_iff i j, lookup-insert k j v d)

  pub lookup-insert_self : (k : K) (v : V) (d : Dict K V) → lookup k (insert k v d) ≡ some v
  lookup-insert_self k v d = rw (lookup-insert k k v d, ==_self k)

-- `list(d.values())`
unfoldable pub values {ℓ κ} : {K : Type ℓ} {V : Type κ} → Dict K V → List V
values [] = []
values ((_, v) ∷ d) = v ∷ values d

-- `list(d)`
unfoldable pub keys {ℓ κ} : {K : Type ℓ} {V : Type κ} → Dict K V → List K
keys [] = []
keys ((k, _) ∷ d) = k ∷ keys d

module _ {ℓ κ} {K : Type ℓ} {V : Type κ} ⦃e : Eq K⦄ where
  -- The keys are what `in` finds.
  pub keys-has_key : (k : K) (d : Dict K V) → Memᴰ k (keys d) ↔ (has_key k d ≡ true)
  unfolding keys has_key lookup
  keys-has_key k [] = (λ m. elim m [ ], λ h. absurd (ground arith))
  keys-has_key k ((j, v) ∷ d) =
      let (there, back) = keys-has_key k d in
      elim (Bool-cases (j == k)) [
        | inl t ↦ (λ m. ground arith, λ h. Memᴰ.head (sym ((e.beq_iff j k).0 t)))
        | inr f ↦ (
          λ m. elim m [
            | Memᴰ.head q ↦ absurd (cc (f, (e.beq_iff j k).1 (sym q)))
            | Memᴰ.tail i ↦ ground (arith, there i)
          ],
          λ h. Memᴰ.tail (back (ground arith)),
        )
      ]

module _ {ℓ κ} {K : Type ℓ} {V : Type κ} ⦃e : Eq K⦄ where
  pub lookup-values : (k : K) (v : V) (d : Dict K V) → lookup k d ≡ some v → Memᴰ v (values d)
  unfolding lookup values
  lookup-values k v [] h = absurd (cc h)
  lookup-values k v ((j, w) ∷ d) h = elim (Bool-cases (j == k)) [
    | inl t ↦ Memᴰ.head (ground arith)
    | inr f ↦ Memᴰ.tail (lookup-values k v d (ground arith))
  ]

  -- Only the written value is new.
  pub values-insert :
      (k : K) (v x : V) (d : Dict K V)
      → Memᴰ x (values (insert k v d))
      → (x ≡ v) ⊎ Memᴰ x (values d)
  unfolding insert values
  values-insert k v x [] m = elim m [ Memᴰ.head q ↦ inl q | Memᴰ.tail n ↦ elim n [ ] ]
  values-insert k v x ((j, w) ∷ d) m = elim (Bool-cases (j == k)) [
    | inl t ↦ elim (rw (t, if◌then◌else◌) at m) [
      | Memᴰ.head q ↦ inl q
      | Memᴰ.tail n ↦ inr (Memᴰ.tail n)
    ]
    | inr f ↦ elim (rw (f, if◌then◌else◌) at m) [
      | Memᴰ.head q ↦ inr (Memᴰ.head q)
      | Memᴰ.tail n ↦ elim (values-insert k v x d n) [ inl q ↦ inl q | inr i ↦ inr (Memᴰ.tail i) ]
    ]
  ]
