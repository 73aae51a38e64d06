-- ===== src/Base/Sorting.antt =====
-- `sorted(xs, key=key)` for a key that is a number: the stable sort, by insertion.
use Prim.Native.Nat.{ℕ}
use mathlib.Core.Path.{◌≡◌, refl, sym, ap, ap₂, subst, ◌∙◌}
use mathlib.Core.Logic.{◌≢◌, ◌↔◌, inl, inr}
use mathlib.Core.Bool.{Bool}
use mathlib.Core.List.{List, [], ◌∷◌, Memᴰ, Permᴰ, map}
use mathlib.Core.List.Permᴰ
use native.Mathlib.Omega.{arith}
use multi_agent_aircraft_dev.Base.Booleans.{leb, if◌then◌else◌, Bool-cases}
use native.Mathlib.Decide.{ℕ_discrete}
use multi_agent_aircraft_dev.Base.Sets.{IsDistinct}

module _ {ℓ} {A : Type ℓ} (key : A → ℕ) where
  -- before the first element whose key is not smaller
  unfoldable pub insert_by : A → List A → List A
  insert_by x [] = x ∷ []
  insert_by x (y ∷ ys) = if leb (key x) (key y) then x ∷ y ∷ ys else y ∷ insert_by x ys

  unfoldable pub sort_by : List A → List A
  unfolding insert_by
  sort_by [] = []
  sort_by (x ∷ xs) = insert_by x (sort_by xs)

  insert_by-nil : (x : A) (xs : List A) → insert_by x xs ≢ []
  unfolding insert_by
  insert_by-nil x [] h = ground arith
  insert_by-nil x (y ∷ ys) h = ground arith

  pub sort_by-nil : (xs : List A) → (sort_by xs ≡ []) ↔ (xs ≡ [])
  unfolding sort_by
  sort_by-nil [] = (λ h. h, λ h. h)
  sort_by-nil (x ∷ xs) = (λ h. absurd (insert_by-nil x (sort_by xs) h), λ h. absurd (ground arith))

  -- Two insertions of elements with different keys can be swapped.
  pub insert_by-insert_by :
      (x y : A) (zs : List A)
      → key x ≢ key y
      → insert_by x (insert_by y zs) ≡ insert_by y (insert_by x zs)
  unfolding insert_by
  insert_by-insert_by x y [] h = ground arith
  insert_by-insert_by x y (z ∷ zs) h = ground (arith, insert_by-insert_by x y zs h)

-- `sorted` by a comparison of the values themselves, stable too.
module _ {ℓ} {A : Type ℓ} (le : A → A → Bool) where
  unfoldable pub insert_with : A → List A → List A
  insert_with x [] = x ∷ []
  insert_with x (y ∷ ys) = if le x y then x ∷ y ∷ ys else y ∷ insert_with x ys

  unfoldable pub sort_with : List A → List A
  unfolding insert_with
  sort_with [] = []
  sort_with (x ∷ xs) = insert_with x (sort_with xs)

  insert_with-perm : (x : A) (xs : List A) → Permᴰ (x ∷ xs) (insert_with x xs)
  unfolding insert_with
  insert_with-perm x [] = Permᴰ.refl _
  insert_with-perm x (y ∷ ys) = elim (Bool-cases (le x y)) [
    | inl t ↦ rw (t, if◌then◌else◌) (Permᴰ.refl _)
    | inr f ↦
        rw (f, if◌then◌else◌)
          (Permᴰ.trans (Permᴰ.swap refl refl) (Permᴰ.cons refl (insert_with-perm x ys)))
  ]

  -- Sorting keeps every value as often as it was there.
  pub sort_with-perm : (xs : List A) → Permᴰ xs (sort_with xs)
  unfolding sort_with
  sort_with-perm [] = Permᴰ.nil
  sort_with-perm (x ∷ xs) =
      Permᴰ.trans (Permᴰ.cons refl (sort_with-perm xs)) (insert_with-perm x (sort_with xs))

  pub sort_with-nil : (xs : List A) → (sort_with xs ≡ []) ↔ (xs ≡ [])
  unfolding sort_with insert_with
  sort_with-nil [] = (λ h. h, λ h. h)
  sort_with-nil (x ∷ xs) = ground (arith, insert_with-nil x (sort_with xs))
    where
      insert_with-nil : (y : A) (ys : List A) → ¬ (insert_with y ys ≡ [])
      insert_with-nil y [] h = ground arith
      insert_with-nil y (z ∷ zs) h = ground arith

-- Among the members, a key belongs to one value.
abbrev pub KeyFixes {ℓ} : {A : Type ℓ} → (A → ℕ) → List A → Type ℓ
KeyFixes {A} key xs = (a b : A) → Memᴰ a xs → Memᴰ b xs → key a ≡ key b → a ≡ b

module _ {ℓ} {A : Type ℓ} where
  pub perm-Memᴰ : {a : A} {xs ys : List A} → Permᴰ xs ys → Memᴰ a ys → Memᴰ a xs
  perm-Memᴰ Permᴰ.nil m = m
  perm-Memᴰ (Permᴰ.cons e p) (Memᴰ.head h) = Memᴰ.head (h ∙ sym e)
  perm-Memᴰ (Permᴰ.cons e p) (Memᴰ.tail m) = Memᴰ.tail (perm-Memᴰ p m)
  perm-Memᴰ (Permᴰ.swap e f) (Memᴰ.head h) = Memᴰ.tail (Memᴰ.head (h ∙ sym f))
  perm-Memᴰ (Permᴰ.swap e f) (Memᴰ.tail (Memᴰ.head h)) = Memᴰ.head (h ∙ sym e)
  perm-Memᴰ (Permᴰ.swap e f) (Memᴰ.tail (Memᴰ.tail m)) = Memᴰ.tail (Memᴰ.tail m)
  perm-Memᴰ (Permᴰ.trans p q) m = perm-Memᴰ p (perm-Memᴰ q m)

  Memᴰ-map : (key : A → ℕ) {a : A} {xs : List A} → Memᴰ a xs → Memᴰ (key a) (map key xs)
  Memᴰ-map key (Memᴰ.head e) = Memᴰ.head (ap key e)
  Memᴰ-map key (Memᴰ.tail m) = Memᴰ.tail (Memᴰ-map key m)

  pub IsDistinct-KeyFixes : (key : A → ℕ) (xs : List A) → IsDistinct (map key xs) → KeyFixes key xs
  IsDistinct-KeyFixes key [] d a b m n h = elim m [ ]
  IsDistinct-KeyFixes key (x ∷ xs) d a b (Memᴰ.head e) (Memᴰ.head f) h = e ∙ sym f
  IsDistinct-KeyFixes key (x ∷ xs) d a b (Memᴰ.head e) (Memᴰ.tail n) h =
      absurd (d.0 (subst (λ k. Memᴰ k (map key xs)) (sym h ∙ ap key e) (Memᴰ-map key n)))
  IsDistinct-KeyFixes key (x ∷ xs) d a b (Memᴰ.tail m) (Memᴰ.head f) h =
      absurd (d.0 (subst (λ k. Memᴰ k (map key xs)) (h ∙ ap key f) (Memᴰ-map key m)))
  IsDistinct-KeyFixes key (x ∷ xs) d a b (Memᴰ.tail m) (Memᴰ.tail n) h =
      IsDistinct-KeyFixes key xs d.1 a b m n h

  swap_insertions :
      (key : A → ℕ) (x y : A) (zs : List A)
      → (key x ≡ key y → x ≡ y)
      → insert_by key x (insert_by key y zs) ≡ insert_by key y (insert_by key x zs)
  swap_insertions key x y zs h = elim (ℕ_discrete (key x) (key y)) [
    | yes e ↦
        ap (λ z. insert_by key x (insert_by key z zs)) (sym (h e))
        ∙ ap (λ z. insert_by key z (insert_by key x zs)) (h e)
    | no ne ↦ insert_by-insert_by key x y zs ne
  ]

  -- Sorting forgets the order of the list, where a key belongs to one value.
  pub sort_by-perm :
      (key : A → ℕ) {xs ys : List A}
      → Permᴰ xs ys
      → KeyFixes key xs
      → sort_by key xs ≡ sort_by key ys
  unfolding sort_by
  sort_by-perm key Permᴰ.nil h = refl
  sort_by-perm key (Permᴰ.cons e p) h =
      ap₂ (insert_by key) e (sort_by-perm key p (λ a b m n. h a b (Memᴰ.tail m) (Memᴰ.tail n)))
  sort_by-perm key (Permᴰ.swap {a = a} {b = b} {l = l} e f) h =
      swap_insertions key a b (sort_by key l) (h a b (Memᴰ.head refl) (Memᴰ.tail (Memᴰ.head refl)))
      ∙ ap₂ (λ u v. insert_by key u (insert_by key v (sort_by key l))) f e
  sort_by-perm key (Permᴰ.trans p q) h =
      sort_by-perm key p h ∙ sort_by-perm key q (λ a b m n. h a b (perm-Memᴰ p m) (perm-Memᴰ p n))
