-- ===== src/Base/Sets.antt =====
-- `len(xs) == len(set(xs))` says that no value stands twice.
use Prim.Native.Nat.{◌≤◌}
use mathlib.Core.Path.{◌≡◌, refl, sym, ◌∙◌}
use mathlib.Core.Logic.{◌↔◌, inl, inr}
use mathlib.Core.Bool.{Bool, true, false, not}
use mathlib.Core.List.{List, [], ◌∷◌, Memᴰ}
use native.Mathlib.Omega.{arith}
use multi_agent_aircraft_dev.Base.Booleans.{Bool-cases}
use multi_agent_aircraft_dev.Base.Equality.{Eq, nat_eq}
use multi_agent_aircraft_dev.Base.Lists.{
  length, contains, contains-Memᴰ, Memᴰ-contains, to_set, unique, select, select-nil,
}

-- No value stands twice in the list.
abbrev pub IsDistinct {ℓ} : {A : Type ℓ} → List A → Type ℓ
IsDistinct [] = Unit
IsDistinct (x ∷ xs) = (¬ Memᴰ x xs) × IsDistinct xs

module _ {ℓ} {A : Type ℓ} ⦃e : Eq A⦄ where
  pub contains-to_set : (a : A) (xs : List A) → contains a (to_set xs) ≡ contains a xs
  unfolding to_set contains
  contains-to_set a [] = refl
  contains-to_set a (x ∷ xs) =
      ground (arith, contains-to_set a xs, contains-to_set x xs, e.beq_iff a x)

  pub length-to_set-le : (xs : List A) → length (to_set xs) ≤ length xs
  unfolding to_set
  length-to_set-le [] = omega arith
  length-to_set-le (x ∷ xs) = ground (arith, length-to_set-le xs)

  unique-tail :
      (x : A) (xs : List A) → unique (x ∷ xs) ≡ true → (contains x xs ≡ false) × (unique xs ≡ true)
  unfolding unique
  unique-tail x xs h = ground (arith, contains-to_set x xs, length-to_set-le xs)

  pub unique-IsDistinct : (xs : List A) → unique xs ≡ true → IsDistinct xs
  unique-IsDistinct [] h = tt
  unique-IsDistinct (x ∷ xs) h =
      let (new, rest) = unique-tail x xs h in
      (λ m. cc (new, Memᴰ-contains x xs m), unique-IsDistinct xs rest)

  pub IsDistinct-unique : (xs : List A) → IsDistinct xs → unique xs ≡ true
  unfolding unique
  IsDistinct-unique [] h = refl
  IsDistinct-unique (x ∷ xs) h = elim (Bool-cases (contains x xs)) [
    | inl old ↦ absurd (h.0 (contains-Memᴰ x xs old))
    | inr new ↦ ground (arith, contains-to_set x xs, IsDistinct-unique xs h.1)
  ]

  pub to_set-Memᴰ : (a : A) (xs : List A) → Memᴰ a (to_set xs) ↔ Memᴰ a xs
  to_set-Memᴰ a xs = (
    λ m. contains-Memᴰ a xs (sym (contains-to_set a xs) ∙ Memᴰ-contains a (to_set xs) m),
    λ m. contains-Memᴰ a (to_set xs) (contains-to_set a xs ∙ Memᴰ-contains a xs m),
  )

  -- A sorted set of the values that fail a test is empty exactly if none of the values fails it.
  pub outsiders-nil :
      (inside : A → Bool) (xs : List A)
      → (select (λ a. not (inside a)) (to_set xs) ≡ []) ↔ ((a : A) → Memᴰ a xs → inside a ≡ true)
  outsiders-nil inside xs =
      let (there, back) = select-nil (λ a. not (inside a)) (to_set xs) in
      (
        λ h a m. ground (arith, there h a ((to_set-Memᴰ a xs).1 m)),
        λ h. back (λ a m. ground (arith, h a ((to_set-Memᴰ a xs).0 m))),
      )
