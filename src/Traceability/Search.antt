-- ===== src/Traceability/Search.antt =====
-- The loop of both searches of domain/traceability.py, over relations read in either direction: it
-- ends, and visits what a walk leads to.
use multi_agent_aircraft_dev.Base.{
  ℕ, zero, suc, ◌+◌, ◌≤◌, ◌≡◌, refl, sym, ap, subst, ◌↔◌, ◌⊎◌, inl, inr, Bool, true, false, not,
  ◌&&◌, some, List, [], ◌∷◌, map, Memᴰ, arith, ◌==◌, nat_eq, if◌then◌else◌, Bool-cases, length,
  select, contains, contains-Memᴰ, Memᴰ-contains, Memᴰ-select, Memᴰ-select_intro, IsDistinct,
  ==_iff,
}
use mathlib.Core.List.Memᴰ
use multi_agent_aircraft_dev.Models.{EngineeringRelation}
use multi_agent_aircraft_dev.Traceability.{extend, visit, explore}

Memᴰ-extend : (v : ℕ) (xs ps : List ℕ) → Memᴰ v (extend xs ps) → Memᴰ v xs ⊎ Memᴰ v ps
unfolding extend
Memᴰ-extend v [] ps m = inr m
Memᴰ-extend v (x ∷ xs) ps m = elim (Memᴰ-extend v xs (x ∷ ps) m) [
  | inl h ↦ inl (Memᴰ.tail h)
  | inr (Memᴰ.head e) ↦ inl (Memᴰ.head e)
  | inr (Memᴰ.tail h) ↦ inr h
]

Memᴰ-extend_old : (v : ℕ) (xs ps : List ℕ) → Memᴰ v ps → Memᴰ v (extend xs ps)
unfolding extend
Memᴰ-extend_old v [] ps m = m
Memᴰ-extend_old v (x ∷ xs) ps m = Memᴰ-extend_old v xs (x ∷ ps) (Memᴰ.tail m)

Memᴰ-extend_new : (v : ℕ) (xs ps : List ℕ) → Memᴰ v xs → Memᴰ v (extend xs ps)
unfolding extend
Memᴰ-extend_new v [] ps m = elim m [ ]
Memᴰ-extend_new v (x ∷ xs) ps (Memᴰ.head e) = Memᴰ-extend_old v xs (x ∷ ps) (Memᴰ.head e)
Memᴰ-extend_new v (x ∷ xs) ps (Memᴰ.tail m) = Memᴰ-extend_new v xs (x ∷ ps) m

length-extend : (xs ps : List ℕ) → length (extend xs ps) ≡ length xs + length ps
unfolding extend
length-extend [] ps = omega arith
length-extend (x ∷ xs) ps = omega (arith, length-extend xs (x ∷ ps))

length-select-le {ℓ} : {A : Type ℓ} (p : A → Bool) (xs : List A) → length (select p xs) ≤ length xs
unfolding select
length-select-le p [] = omega arith
length-select-le p (x ∷ xs) = ground (arith, length-select-le p xs)

length-map {ℓ κ} :
    {A : Type ℓ} {B : Type κ} (f : A → B) (xs : List A) → length (map f xs) ≡ length xs
length-map f [] = refl
length-map f (x ∷ xs) = ap suc (length-map f xs)

module _ (from to : EngineeringRelation → ℕ) (chosen : EngineeringRelation → Bool)
    (known : ℕ → Bool) where
  -- what the relations at an element lead to
  abbrev pub next : List EngineeringRelation → ℕ → List ℕ
  next rs v = map to (select (λ r. from r == v && chosen r) rs)

  -- the relations that no round has read yet
  abbrev pub unread : List ℕ → List EngineeringRelation → ℕ
  unread visited [] = 0
  unread visited (r ∷ rs) = (if contains (from r) visited then 0 else 1) + unread visited rs

  unread-visit :
      (c : ℕ) (visited : List ℕ) (rs : List EngineeringRelation)
      → contains c visited ≡ false
      → unread (c ∷ visited) rs + length (select (λ r. from r == c && chosen r) rs)
        ≤ unread visited rs
  unfolding contains select
  unread-visit c visited [] h = omega arith
  unread-visit c visited (r ∷ rs) h =
      ground (arith, unread-visit c visited rs h, ap (λ x. contains x visited) {x = c} {y = from r})

  pub unread-nil : (rs : List EngineeringRelation) → unread [] rs ≤ length rs
  unfolding contains
  unread-nil [] = omega arith
  unread-nil (r ∷ rs) = ground (arith, unread-nil rs)

  -- A chosen relation leads from one element to another that the graph has.
  abbrev pub Link : List EngineeringRelation → ℕ → ℕ → Type 0
  Link rs u v =
      (r : EngineeringRelation) × Memᴰ r rs
      × (from r ≡ u)
      × (to r ≡ v)
      × (chosen r ≡ true)
      × (known v ≡ true)

module _ (from to : EngineeringRelation → ℕ) (chosen : EngineeringRelation → Bool)
    (known : ℕ → Bool) (rs : List EngineeringRelation) (src : ℕ) where
  pub data Walk : ℕ → Type 0 where
    here : Walk src
    step : {u v : ℕ} → Walk u → Link from to chosen known rs u v → Walk v

  record Inv (visited pending : List ℕ) : Type 0 where
    distinct : IsDistinct visited
    source : Memᴰ src visited ⊎ Memᴰ src pending
    seen : (v : ℕ) → Memᴰ v visited → Walk v
    queued : (v : ℕ) → Memᴰ v pending → Walk v
    closed :
        (u v : ℕ)
        → Memᴰ u visited
        → Link from to chosen known rs u v
        → Memᴰ v visited ⊎ Memᴰ v pending

  -- what a round pushes
  abbrev fresh : ℕ → List ℕ → List ℕ
  fresh c visited =
      select (λ v. not (contains v (c ∷ visited)) && known v) (next from to chosen known rs c)

  Link-next :
      (c v : ℕ)
      → Memᴰ v (next from to chosen known rs c)
      → known v ≡ true
      → Link from to chosen known rs c v
  Link-next c v m k =
      let (r, i, e) = Memᴰ.of_map to _ m in
      let (j, t) = Memᴰ-select _ r rs i in
      (r, j, (==_iff (from r) c).0 (ground arith), e, ground arith, k)

  next-Link : (c v : ℕ) → Link from to chosen known rs c v → Memᴰ v (next from to chosen known rs c)
  next-Link c v (r, i, e, f, t, k) =
      let m : Memᴰ r (select (λ q. from q == c && chosen q) rs) =
        Memᴰ-select_intro _ r rs i (ground (arith, ==_iff (from r) c)) in
      subst (λ w. Memᴰ w (next from to chosen known rs c)) f (Memᴰ.map to m)

  popped-old :
      (c : ℕ) (visited ps : List ℕ)
      → contains c visited ≡ true
      → Inv visited (c ∷ ps)
      → Inv visited ps
  popped-old c visited ps h inv =
      let forget : (v : ℕ) → Memᴰ v visited ⊎ Memᴰ v (c ∷ ps) → Memᴰ v visited ⊎ Memᴰ v ps = λ v s.
        elim s [
          | inl m ↦ inl m
          | inr (Memᴰ.head e) ↦ inl (Memᴰ.cast e (contains-Memᴰ c visited h))
          | inr (Memᴰ.tail m) ↦ inr m
        ] in
      record {
        distinct = inv.distinct;
        source = forget src inv.source;
        seen = inv.seen;
        queued = λ v m. inv.queued v (Memᴰ.tail m);
        closed = λ u v m l. forget v (inv.closed u v m l);
      }

  kept :
      (c : ℕ) (visited ps : List ℕ) (v : ℕ)
      → Memᴰ v visited ⊎ Memᴰ v (c ∷ ps)
      → Memᴰ v (c ∷ visited) ⊎ Memᴰ v (extend (fresh c visited) ps)
  kept c visited ps v (inl m) = inl (Memᴰ.tail m)
  kept c visited ps v (inr (Memᴰ.head e)) = inl (Memᴰ.head e)
  kept c visited ps v (inr (Memᴰ.tail m)) = inr (Memᴰ-extend_old v (fresh c visited) ps m)

  reached :
      (c : ℕ) (visited ps : List ℕ) (v : ℕ)
      → Link from to chosen known rs c v
      → Memᴰ v (c ∷ visited) ⊎ Memᴰ v (extend (fresh c visited) ps)
  reached c visited ps v l = elim (Bool-cases (contains v (c ∷ visited))) [
    | inl t ↦ inl (contains-Memᴰ v (c ∷ visited) t)
    | inr f ↦ inr (
        Memᴰ-extend_new v (fresh c visited) ps
          (Memᴰ-select_intro _ v _ (next-Link c v l) (simp (f, l.5))))
  ]

  fresh-Link :
      (c : ℕ) (visited : List ℕ) (v : ℕ)
      → Memᴰ v (fresh c visited)
      → Link from to chosen known rs c v
  fresh-Link c visited v m =
      let (i, t) = Memᴰ-select _ v (next from to chosen known rs c) m in
      Link-next c v i (ground arith)

  popped-new :
      (c : ℕ) (visited ps : List ℕ)
      → contains c visited ≡ false
      → Inv visited (c ∷ ps)
      → Inv (c ∷ visited) (extend (fresh c visited) ps)
  popped-new c visited ps h inv =
      let walk_c = inv.queued c (Memᴰ.head refl) in
      record {
        distinct = (λ m. cc (h, Memᴰ-contains c visited m), inv.distinct);
        source = kept c visited ps src inv.source;
        seen =
            λ v m. elim m [ Memᴰ.head e ↦ subst Walk (sym e) walk_c | Memᴰ.tail i ↦ inv.seen v i ];
        queued = λ v m. elim (Memᴰ-extend v (fresh c visited) ps m) [
          | inl i ↦ step walk_c (fresh-Link c visited v i)
          | inr i ↦ inv.queued v (Memᴰ.tail i)
        ];
        closed = λ u v m l. elim m [
          | Memᴰ.head e ↦ reached c visited ps v (subst (λ w. Link from to chosen known rs w v) e l)
          | Memᴰ.tail i ↦ kept c visited ps v (inv.closed u v i l)
        ];
      }

  round-ends :
      (c : ℕ) (visited ps : List ℕ) (fuel : ℕ)
      → contains c visited ≡ false
      → length (c ∷ ps) + unread from to chosen known visited rs ≤ suc fuel
      → length (extend (fresh c visited) ps) + unread from to chosen known (c ∷ visited) rs ≤ fuel
  round-ends c visited ps fuel h le =
      let leaving = select (λ r. from r == c && chosen r) rs in
      omega (
        arith,
        length-extend (fresh c visited) ps,
        length-select-le (λ v. not (contains v (c ∷ visited)) && known v) (map to leaving),
        length-map to leaving,
        unread-visit from to chosen known c visited rs h,
      )

  -- With a round of fuel for each entry and each unread relation the loop returns.
  explore_lem :
      (fuel : ℕ) (visited pending : List ℕ)
      → length pending + unread from to chosen known visited rs ≤ fuel
      → Inv visited pending
      → (out : List ℕ) × (explore (next from to chosen known rs) known fuel visited pending
          ≡ some out)
        × Inv out []
  unfolding explore visit
  explore_lem zero visited [] le inv = (visited, refl, inv)
  explore_lem zero visited (c ∷ ps) le inv = absurd (omega (arith, le))
  explore_lem (suc fuel) visited [] le inv = (visited, refl, inv)
  explore_lem (suc fuel) visited (c ∷ ps) le inv = elim (Bool-cases (contains c visited)) [
    | inl t ↦
        rw (t, if◌then◌else◌)
          (explore_lem fuel visited ps (omega (arith, le)) (popped-old c visited ps t inv))
    | inr f ↦
        rw (f, if◌then◌else◌)
          (explore_lem fuel (c ∷ visited) (extend (fresh c visited) ps)
            (round-ends c visited ps fuel f le) (popped-new c visited ps f inv))
  ]

  complete : (out : List ℕ) → Inv out [] → {v : ℕ} → Walk v → Memᴰ v out
  complete out inv here = elim inv.source [ inl m ↦ m | inr n ↦ absurd (Memᴰ.not-nil n) ]
  complete out inv (step {u} {v} w l) = elim (inv.closed u v (complete out inv w) l) [
    | inl m ↦ m
    | inr n ↦ absurd (Memᴰ.not-nil n)
  ]

  -- The loop returns the elements that a walk from its start leads to, each once.
  pub search_lem :
      (out : List ℕ) × (explore (next from to chosen known rs) known (suc (length rs)) [] (src ∷ [])
        ≡ some out)
      × IsDistinct out
      × ((v : ℕ) → Memᴰ v out ↔ Walk v)
  search_lem =
      let start : Inv [] (src ∷ []) = record {
        distinct = tt;
        source = inr (Memᴰ.head refl);
        seen = λ v m. elim m [ ];
        queued = λ v m. subst Walk (sym (Memᴰ.eq_of_singleton m)) here;
        closed = λ u v m l. elim m [ ];
      } in
      let (out, e, inv) =
        explore_lem (suc (length rs)) [] (src ∷ [])
          (omega (arith, unread-nil from to chosen known rs)) start in
      (out, e, inv.distinct, λ v. (inv.seen v, complete out inv))
