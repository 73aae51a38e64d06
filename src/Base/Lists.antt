-- ===== src/Base/Lists.antt =====
-- List functions that the program uses, over the native numbers and Boolean tests.
use Prim.Native.Nat.{ℕ, suc, ◌+◌}
use mathlib.Core.Path.{◌≡◌, refl, sym, subst}
use mathlib.Core.Logic.{◌↔◌, inl, inr}
use mathlib.Core.Bool.{Bool, true, false, not, ◌&&◌, ◌||◌}
use mathlib.Core.Option.{Option, none, some}
use mathlib.Core.List.{List, [], ◌∷◌, ◌++◌, map, Memᴰ}
use mathlib.Core.List.Memᴰ
use native.Mathlib.Omega.{arith}
use multi_agent_aircraft_dev.Base.Booleans.{if◌then◌else◌, Bool-cases, is_empty}
use multi_agent_aircraft_dev.Base.Equality.{Eq, ◌==◌, nat_eq}

module _ {ℓ} {A : Type ℓ} where
  abbrev pub length : List A → ℕ
  length [] = 0
  length (_ ∷ xs) = suc (length xs)

  -- `[x for x in xs if p(x)]`
  unfoldable pub select : (A → Bool) → List A → List A
  select p [] = []
  select p (x ∷ xs) = let rest = select p xs in if p x then x ∷ rest else rest

  -- `any(p(x) for x in xs)`
  unfoldable pub any : (A → Bool) → List A → Bool
  any p [] = false
  any p (x ∷ xs) = p x || any p xs

  -- `all(p(x) for x in xs)`
  unfoldable pub all : (A → Bool) → List A → Bool
  all p [] = true
  all p (x ∷ xs) = p x && all p xs

  -- `next((x for x in xs if p(x)), None)`
  unfoldable pub find : (A → Bool) → List A → Option A
  find p [] = none
  find p (x ∷ xs) = if p x then some x else find p xs

  -- `xs[-1] if xs else None`
  unfoldable pub last : List A → Option A
  last [] = none
  last (x ∷ xs) = let rest = last xs in elim rest [ none ↦ some x | some y ↦ some y ]

-- The findings of a loop: `for x in xs: found.extend(f(x))`
unfoldable pub collect {ℓ κ} : {A : Type ℓ} {B : Type κ} → (A → List B) → List A → List B
collect f [] = []
collect f (x ∷ xs) = f x ++ collect f xs

module _ {ℓ κ} {A : Type ℓ} where
  -- A predicate of every member.
  abbrev pub All : (A → Type κ) → List A → Type κ
  All P [] = Unit
  All P (x ∷ xs) = P x × All P xs

  pub All-at : (P : A → Type κ) {a : A} {xs : List A} → All P xs → Memᴰ a xs → P a
  All-at P h (Memᴰ.head e) = subst P (sym e) h.0
  All-at P h (Memᴰ.tail m) = All-at P h.1 m

  pub All-intro : (P : A → Type κ) (xs : List A) → ((a : A) → Memᴰ a xs → P a) → All P xs
  All-intro P [] h = tt
  All-intro P (x ∷ xs) h = (h x (Memᴰ.head refl), All-intro P xs (λ a m. h a (Memᴰ.tail m)))

module _ {ℓ} {A : Type ℓ} where
  -- A comprehension keeps the members that pass its test, and no others.
  pub Memᴰ-select :
      (p : A → Bool) (a : A) (xs : List A) → Memᴰ a (select p xs) → Memᴰ a xs × (p a ≡ true)
  unfolding select
  Memᴰ-select p a [] m = elim m [ ]
  Memᴰ-select p a (x ∷ xs) m = kept (Memᴰ-select p a xs) (p x) refl m
    where
      kept :
          (Memᴰ a (select p xs) → Memᴰ a xs × (p a ≡ true))
          → (b : Bool) → p x ≡ b
          → Memᴰ a (if b then x ∷ select p xs else select p xs)
          → Memᴰ a (x ∷ xs) × (p a ≡ true)
      kept ih true t (Memᴰ.head e) = (Memᴰ.head e, rw e t)
      kept ih true t (Memᴰ.tail r) = let (i, q) = ih r in (Memᴰ.tail i, q)
      kept ih false t r = let (i, q) = ih r in (Memᴰ.tail i, q)

  pub Memᴰ-select_intro :
      (p : A → Bool) (a : A) (xs : List A) → Memᴰ a xs → p a ≡ true → Memᴰ a (select p xs)
  unfolding select
  Memᴰ-select_intro p a [] m t = elim m [ ]
  Memᴰ-select_intro p a (x ∷ xs) (Memᴰ.head e) t =
      rw (subst (λ y. p y ≡ true) e t, if◌then◌else◌) (Memᴰ.head e)
  Memᴰ-select_intro p a (x ∷ xs) (Memᴰ.tail m) t = elim (Bool-cases (p x)) [
    | inl u ↦ rw (u, if◌then◌else◌) (Memᴰ.tail (Memᴰ-select_intro p a xs m t))
    | inr u ↦ rw (u, if◌then◌else◌) (Memᴰ-select_intro p a xs m t)
  ]

  pub find-Memᴰ :
      (p : A → Bool) (xs : List A) {a : A} → find p xs ≡ some a → Memᴰ a xs × (p a ≡ true)
  unfolding find
  find-Memᴰ p [] h = cc
  find-Memᴰ p (x ∷ xs) {a} h = elim (Bool-cases (p x)) [
    | inl t ↦ let e : x ≡ a = ground arith in (Memᴰ.head (sym e), subst (λ y. p y ≡ true) e t)
    | inr f ↦ let (i, q) = find-Memᴰ p xs {a = a} (ground arith) in (Memᴰ.tail i, q)
  ]

  -- A test that holds of every member is what `all` computes.
  pub all-at : (p : A → Bool) (xs : List A) {a : A} → all p xs ≡ true → Memᴰ a xs → p a ≡ true
  unfolding all
  all-at p [] h m = elim m [ ]
  all-at p (x ∷ xs) h (Memᴰ.head e) = rw e (ground arith)
  all-at p (x ∷ xs) h (Memᴰ.tail m) = all-at p xs (ground arith) m

module _ {ℓ} {A : Type ℓ} ⦃e : Eq A⦄ where
  -- `a in xs`
  unfoldable pub contains : A → List A → Bool
  contains a [] = false
  contains a (x ∷ xs) = a == x || contains a xs

  pub contains-Memᴰ : (a : A) (xs : List A) → contains a xs ≡ true → Memᴰ a xs
  unfolding contains
  contains-Memᴰ a [] h = cc
  contains-Memᴰ a (x ∷ xs) h = elim (Bool-cases (a == x)) [
    | inl t ↦ Memᴰ.head ((e.beq_iff a x).0 t)
    | inr f ↦ Memᴰ.tail (contains-Memᴰ a xs (ground arith))
  ]

  pub Memᴰ-contains : (a : A) (xs : List A) → Memᴰ a xs → contains a xs ≡ true
  unfolding contains
  Memᴰ-contains a [] m = elim m [ ]
  Memᴰ-contains a (x ∷ xs) (Memᴰ.head p) = rw ((e.beq_iff a x).1 p) refl
  Memᴰ-contains a (x ∷ xs) (Memᴰ.tail m) = ground (arith, Memᴰ-contains a xs m)

  -- How often a value stands in a list.
  abbrev pub count : A → List A → ℕ
  count a [] = 0
  count a (x ∷ xs) = (if a == x then 1 else 0) + count a xs

  -- `set(xs)`, as a list without repetitions
  unfoldable pub to_set : List A → List A
  unfolding contains
  to_set [] = []
  to_set (x ∷ xs) = let rest = to_set xs in if contains x rest then rest else x ∷ rest

  -- `len(xs) == len(set(xs))`
  unfoldable pub unique : List A → Bool
  unfolding to_set
  unique xs = length xs == length (to_set xs)

-- Two lists that are empty together.
pub append-nil_parts {ℓ} :
    {A : Type ℓ} (xs : List A) {ys : List A} → xs ++ ys ≡ [] → (xs ≡ []) × (ys ≡ [])
append-nil_parts [] h = (refl, h)
append-nil_parts (x ∷ xs) h = ground arith

module _ {ℓ} {A : Type ℓ} where
  -- A comprehension is empty exactly if its test fails at every member.
  pub select-nil :
      (p : A → Bool) (xs : List A) → (select p xs ≡ []) ↔ ((a : A) → Memᴰ a xs → p a ≡ false)
  unfolding select
  select-nil p [] = (λ h a m. absurd (Memᴰ.not-nil m), λ h. refl)
  select-nil p (x ∷ xs) = elim (Bool-cases (p x)) [
    | inl t ↦ (λ h. absurd (ground arith), λ h. absurd (cc (t, h x (Memᴰ.head refl))))
    | inr f ↦
        let (there, back) = select-nil p xs in
        (
          λ h a m. elim m [
            | Memᴰ.head e ↦ subst (λ y. p y ≡ false) (sym e) f
            | Memᴰ.tail i ↦ there (ground arith) a i
          ],
          λ h. rw (f, if◌then◌else◌) (back (λ a m. h a (Memᴰ.tail m))),
        )
  ]

  pub any-select : (p : A → Bool) (xs : List A) → any p xs ≡ not (is_empty (select p xs))
  unfolding any select
  any-select p [] = refl
  any-select p (x ∷ xs) = ground (arith, any-select p xs)

module _ {ℓ κ} {A : Type ℓ} {B : Type κ} where
  -- A loop finds nothing exactly if it finds nothing at each member.
  pub collect-nil :
      (f : A → List B) (xs : List A) → (collect f xs ≡ []) ↔ ((a : A) → Memᴰ a xs → f a ≡ [])
  unfolding collect
  collect-nil f [] = (λ h a m. absurd (Memᴰ.not-nil m), λ h. refl)
  collect-nil f (x ∷ xs) =
      let (there, back) = collect-nil f xs in
      (
        λ h a m. elim m [
          | Memᴰ.head e ↦ subst (λ y. f y ≡ []) (sym e) (append-nil_parts (f x) h).0
          | Memᴰ.tail i ↦ there (append-nil_parts (f x) h).1 a i
        ],
        λ h. rw (h x (Memᴰ.head refl)) (back (λ a m. h a (Memᴰ.tail m))),
      )

  pub map-nil : (f : A → B) (xs : List A) → map f xs ≡ [] → xs ≡ []
  map-nil f [] h = refl
  map-nil f (x ∷ xs) h = ground arith

module _ {ℓ κ} {A : Type ℓ} {B : Type κ} where
  -- Each finding is one of a member's.
  pub Memᴰ-collect :
      (f : A → List B) (b : B) (xs : List A)
      → Memᴰ b (collect f xs) ↔ ((a : A) × Memᴰ a xs × Memᴰ b (f a))
  unfolding collect
  Memᴰ-collect f b [] = (λ m. elim m [ ], λ (a, m, i). elim m [ ])
  Memᴰ-collect f b (x ∷ xs) =
      let (there, back) = Memᴰ-collect f b xs in
      (
        λ m. elim (Memᴰ.append_cases (f x) m) [
          | inl i ↦ (x, Memᴰ.head refl, i)
          | inr i ↦ let (a, n, k) = there i in (a, Memᴰ.tail n, k)
        ],
        λ (a, n, k). elim n [
          | Memᴰ.head e ↦ Memᴰ.append_left _ (subst (λ y. Memᴰ b (f y)) e k)
          | Memᴰ.tail i ↦ Memᴰ.append_right (f x) (back (a, i, k))
        ],
      )
