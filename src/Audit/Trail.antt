-- ===== src/Audit/Trail.antt =====
-- The latest review of a workspace is the newest one that is recorded.
use multi_agent_aircraft_dev.Base.{
  ℕ, ◌≡◌, ◌<◌, refl, ◌↔◌, subst, ◌⊎◌, inl, inr, Bool-cases, true, none, some, List, [], ◌∷◌, arith,
  select, Memᴰ, Memᴰ-select, Memᴰ-select_intro, Option-cases, ==_iff, string_eq, option_eq, nat_eq,
}
use multi_agent_aircraft_dev.Audit.{
  AuditEvent, success, audit_result_eq, goes_before, first_row, is_stored_review_of,
  latest_stored_review,
}

-- The event is newer: it is of a later time, or of the same time with a greater identifier.
abbrev pub IsNewer : AuditEvent → AuditEvent → Type 0
IsNewer a b = (b.timestamp < a.timestamp) ⊎ ((a.timestamp ≡ b.timestamp) × (b.id < a.id))

-- A successful review of the workspace.
pub record IsReviewOf (workspace_id : ℕ) (event : AuditEvent) : Type 0 where
  pub action : event.action ≡ "independent_review"
  pub target_type : event.target_type ≡ "workspace"
  pub target : event.target_id ≡ some workspace_id
  pub succeeded : event.result ≡ success

is_stored_review_of-IsReviewOf :
    (workspace_id : ℕ) (event : AuditEvent)
    → is_stored_review_of workspace_id event ≡ true
    → IsReviewOf workspace_id event
is_stored_review_of-IsReviewOf workspace_id event h = record {
  action = ground (arith, ==_iff event.action "independent_review");
  target_type = ground (arith, ==_iff event.target_type "workspace");
  target = ground (arith, ==_iff event.target_id (some workspace_id));
  succeeded = ground (arith, ==_iff event.result success);
}

IsReviewOf-is_stored :
    (workspace_id : ℕ) (event : AuditEvent)
    → IsReviewOf workspace_id event
    → is_stored_review_of workspace_id event ≡ true
IsReviewOf-is_stored workspace_id event h = ground (
  arith,
  h.action,
  h.target_type,
  h.target,
  h.succeeded,
  ==_iff event.action "independent_review",
  ==_iff event.target_type "workspace",
  ==_iff event.target_id (some workspace_id),
  ==_iff event.result success,
)

goes_before-IsNewer : (a b : AuditEvent) → (goes_before a b ≡ true) ↔ IsNewer a b
goes_before-IsNewer a b = ground (arith, ==_iff a.timestamp b.timestamp)

IsNewer-irreflexive : (a : AuditEvent) → ¬ IsNewer a a
IsNewer-irreflexive a h = ground arith

IsNewer-asymmetric : (a b : AuditEvent) → IsNewer a b → ¬ IsNewer b a
IsNewer-asymmetric a b h k = ground arith

IsNewer-chain : (f g x : AuditEvent) → IsNewer f x → ¬ IsNewer g x → IsNewer f g
IsNewer-chain f g x h k = ground arith

first_row-nil : (es : List AuditEvent) → first_row es ≡ none → es ≡ []
unfolding first_row
first_row-nil [] h = refl
first_row-nil (x ∷ es) h = elim (Option-cases (first_row es)) [
  | inl ends ↦ absurd (ground arith)
  | inr (g, more) ↦ elim (Bool-cases (goes_before g x)) [
    | inl t ↦ absurd (ground arith)
    | inr f ↦ absurd (ground arith)
  ]
]

-- One of the events, with none among them newer.
abbrev IsNewest : AuditEvent → List AuditEvent → Type 0
IsNewest e es = Memᴰ e es × ((f : AuditEvent) → Memᴰ f es → ¬ IsNewer f e)

IsNewest-first :
    (x : AuditEvent) (es : List AuditEvent)
    → ((f : AuditEvent) → Memᴰ f es → ¬ IsNewer f x)
    → IsNewest x (x ∷ es)
IsNewest-first x es top = (
  Memᴰ.head refl,
  λ f m. elim m [
    | Memᴰ.head q ↦ λ n. IsNewer-irreflexive x (subst (λ z. IsNewer z x) q n)
    | Memᴰ.tail i ↦ top f i
  ],
)

IsNewest-later :
    (x g : AuditEvent) (es : List AuditEvent) → IsNewer g x → IsNewest g es → IsNewest g (x ∷ es)
IsNewest-later x g es newer (m, top) = (
  Memᴰ.tail m,
  λ f i. elim i [
    | Memᴰ.head q ↦ λ n. IsNewer-asymmetric g x newer (subst (λ z. IsNewer z g) q n)
    | Memᴰ.tail j ↦ top f j
  ],
)

-- The first row is the newest one.
first_row-IsNewest : (es : List AuditEvent) {e : AuditEvent} → first_row es ≡ some e → IsNewest e es
unfolding first_row
first_row-IsNewest [] h = absurd (cc h)
first_row-IsNewest (x ∷ es) {e} h = elim (Option-cases (first_row es)) [
  | inl ends ↦
      subst (λ z. IsNewest z (x ∷ es)) {x = x} {y = e} (ground arith)
        (IsNewest-first x es (λ f m. elim (subst (Memᴰ f) (first_row-nil es ends) m) [ ]))
  | inr (g, more) ↦
      let (m, top) = first_row-IsNewest es more in
      elim (Bool-cases (goes_before g x)) [
        | inl t ↦
            subst (λ z. IsNewest z (x ∷ es)) {x = g} {y = e} (ground arith)
              (IsNewest-later x g es ((goes_before-IsNewer g x).0 t) (m, top))
        | inr f ↦
            subst (λ z. IsNewest z (x ∷ es)) {x = x} {y = e} (ground arith)
              (IsNewest-first x es (λ k i n.
                top k i (IsNewer-chain k g x n (λ o. cc (f, (goes_before-IsNewer g x).1 o)))))
      ]
]

-- The latest review of a workspace is none exactly if no event is a successful review of it, and
-- otherwise it is such an event, with no newer one among the events.
pub latest_stored_review_lem :
    (workspace_id : ℕ) (events : List AuditEvent)
    → ((latest_stored_review workspace_id events ≡ none)
        × ((f : AuditEvent) → Memᴰ f events → ¬ IsReviewOf workspace_id f))
      ⊎ ((e : AuditEvent) × (latest_stored_review workspace_id events ≡ some e)
          × Memᴰ e events
          × IsReviewOf workspace_id e
          × ((f : AuditEvent) → Memᴰ f events → IsReviewOf workspace_id f → ¬ IsNewer f e))
unfolding latest_stored_review
latest_stored_review_lem workspace_id events =
    let reviews : List AuditEvent = select (is_stored_review_of workspace_id) events in
    elim (Option-cases (first_row reviews)) [
      | inl ends ↦ inl (
        ends,
        λ f m r.
            elim (subst (Memᴰ f) (first_row-nil reviews ends) (
              Memᴰ-select_intro (is_stored_review_of workspace_id) f events m
                (IsReviewOf-is_stored workspace_id f r))) [ ],
      )
      | inr (e, found) ↦
          let (m, top) = first_row-IsNewest reviews found in
          let (there, is_review) = Memᴰ-select (is_stored_review_of workspace_id) e events m in
          inr (
            e,
            found,
            there,
            is_stored_review_of-IsReviewOf workspace_id e is_review,
            λ f i r. top f (
                Memᴰ-select_intro (is_stored_review_of workspace_id) f events i
                  (IsReviewOf-is_stored workspace_id f r)),
          )
    ]
