-- ===== src/Traceability/Walks.antt =====
-- What `reachable` and `ancestors` return, and that each is the other one read backwards.
use multi_agent_aircraft_dev.Base.{
  ℕ, ◌≡◌, refl, sym, subst, ◌≢◌, ◌↔◌, Bool, true, not, Option, some, List, [], ◌∷◌, Memᴰ, arith,
  ◌==◌, ==_iff, nat_eq, select, Memᴰ-select, Memᴰ-select_intro, IsDistinct,
}
use multi_agent_aircraft_dev.Models.{RelationType, EngineeringRelation}
use multi_agent_aircraft_dev.Traceability.{
  TraceabilityGraph, has_type, is_known, source_of, target_of, discard, outgoing, incoming,
  reachable, ancestors,
}
use multi_agent_aircraft_dev.Traceability.Search.{Link, Walk, here, step, search_lem}

IsDistinct-select : (p : ℕ → Bool) (xs : List ℕ) → IsDistinct xs → IsDistinct (select p xs)
unfolding select
IsDistinct-select p [] d = tt
IsDistinct-select p (x ∷ xs) d = ground (arith, IsDistinct-select p xs d.1, Memᴰ-select p x xs)

discard-Memᴰ : (id v : ℕ) (xs : List ℕ) → Memᴰ v (discard id xs) ↔ (v ≢ id) × Memᴰ v xs
unfolding discard
discard-Memᴰ id v xs = (
  λ m. let (i, t) = Memᴰ-select (λ w. not (w == id)) v xs m in (ground (arith, ==_iff v id), i),
  λ h. Memᴰ-select_intro (λ w. not (w == id)) v xs h.1 (ground (arith, ==_iff v id)),
)

module _ (from to : EngineeringRelation → ℕ) (chosen : EngineeringRelation → Bool)
    (known : ℕ → Bool) (rs : List EngineeringRelation) where
  Walk-known : {u v : ℕ} → Walk from to chosen known rs u v → known u ≡ true → known v ≡ true
  Walk-known here k = k
  Walk-known (step w l) k = l.5

  -- one more link before a walk
  Walk-prepend :
      {u v w : ℕ}
      → Link from to chosen known rs u v
      → Walk from to chosen known rs v w
      → Walk from to chosen known rs u w
  Walk-prepend l here = step here l
  Walk-prepend l (step w m) = step (Walk-prepend l w) m

-- A walk between elements of the graph, read from its end.
Walk-reversed :
    (from to : EngineeringRelation → ℕ) (chosen : EngineeringRelation → Bool) (known : ℕ → Bool)
    (rs : List EngineeringRelation) {u v : ℕ}
    → known u ≡ true
    → Walk from to chosen known rs u v
    → Walk to from chosen known rs v u
Walk-reversed from to chosen known rs k here = here
Walk-reversed from to chosen known rs k (step w (r, m, e, f, t, k')) =
    Walk-prepend to from chosen known rs (r, m, f, e, t, Walk-known from to chosen known rs w k)
      (Walk-reversed from to chosen known rs k w)

module _ (graph : TraceabilityGraph) (type : Option RelationType) where
  -- The relations of the type lead from the first element to the second, over elements of the graph.
  abbrev pub Reaches : ℕ → ℕ → Type 0
  Reaches source v =
      Walk source_of target_of (has_type type) (is_known graph) graph.relations source v

  -- The same from the target backwards.
  abbrev pub ReachedFrom : ℕ → ℕ → Type 0
  ReachedFrom target v =
      Walk target_of source_of (has_type type) (is_known graph) graph.relations target v

  -- `reachable` returns within one round per relation and one more, and what it returns are,
  -- each once, the elements other than the source that a walk along the relations leads to.
  pub reachable_lem :
      (source_id : ℕ)
      → (out : List ℕ) × (reachable graph source_id type ≡ some out)
        × IsDistinct out
        × ((v : ℕ) → Memᴰ v out ↔ (v ≢ source_id) × Reaches source_id v)
  unfolding reachable outgoing discard
  reachable_lem source_id =
      let (found, e, d, walks) =
        search_lem source_of target_of (has_type type) (is_known graph) graph.relations source_id in
      (
        discard source_id found,
        rw (e, reachable) refl,
        IsDistinct-select (λ v. not (v == source_id)) found d,
        λ v. ground (arith, discard-Memᴰ source_id v found, walks v),
      )

  -- `ancestors` returns on every graph, and it returns, each once, exactly the elements other than
  -- the target from which the target is reached along the relations of the type.
  pub ancestors_lem :
      (target_id : ℕ)
      → (out : List ℕ) × (ancestors graph target_id type ≡ some out)
        × IsDistinct out
        × ((v : ℕ) → Memᴰ v out ↔ (v ≢ target_id) × ReachedFrom target_id v)
  unfolding ancestors incoming discard
  ancestors_lem target_id =
      let (found, e, d, walks) =
        search_lem target_of source_of (has_type type) (is_known graph) graph.relations target_id in
      (
        discard target_id found,
        rw (e, ancestors) refl,
        IsDistinct-select (λ v. not (v == target_id)) found d,
        λ v. ground (arith, discard-Memᴰ target_id v found, walks v),
      )

  -- The two searches agree: between elements of the graph, one is an ancestor of another exactly if
  -- the other is reachable from it.
  pub ancestors-reachable :
      (source target : ℕ) (up down : List ℕ)
      → is_known graph source ≡ true
      → is_known graph target ≡ true
      → ancestors graph target type ≡ some up
      → reachable graph source type ≡ some down
      → Memᴰ source up ↔ Memᴰ target down
  ancestors-reachable source target up down ks kt eu ed =
      let (u, e, _, iff_u) = ancestors_lem target in
      let (d, f, _, iff_d) = reachable_lem source in
      let same_u : u ≡ up = cc (e, eu) in
      let same_d : d ≡ down = cc (f, ed) in
      (
        λ m.
            let (ne, w) = (iff_u source).0 (subst (Memᴰ source) (sym same_u) m) in
            subst (Memᴰ target) same_d (
              (iff_d target).1 (
                λ h. ne (sym h),
                Walk-reversed target_of source_of (has_type type) (is_known graph) graph.relations
                    kt w,
              )),
        λ m.
            let (ne, w) = (iff_d target).0 (subst (Memᴰ target) (sym same_d) m) in
            subst (Memᴰ source) same_u (
              (iff_u source).1 (
                λ h. ne (sym h),
                Walk-reversed source_of target_of (has_type type) (is_known graph) graph.relations
                    ks w,
              )),
      )
