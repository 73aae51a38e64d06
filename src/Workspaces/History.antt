-- ===== src/Workspaces/History.antt =====
-- What the whole life of a workspace in a registry preserves: any sequence of calls of `create` and
-- `update`, with any arguments, the refused calls included.
use multi_agent_aircraft_dev.Base.{
  ℕ, ◌≤◌, ◌≡◌, refl, sym, subst, ◌∙◌, inl, inr, none, some, List, [], ◌∷◌, arith, ◌==◌, nat_eq,
  ==_iff, Bool-cases,
}
use multi_agent_aircraft_dev.Dict.{lookup, insert, has_key, lookup-insert}
use multi_agent_aircraft_dev.Errors.{ValueError, Result, ok, err, Result-cases}
use multi_agent_aircraft_dev.Workspaces.{WorkspaceState, closed, Workspace}
use multi_agent_aircraft_dev.Workspaces.Registry.{WorkspaceStore, Backend, create, update_with}
use multi_agent_aircraft_dev.Workspaces.Updates.{
  ◌⟶◌, prepare, abandon, return, approve, finish, SameOrigin, KeepsProfile, Successor,
  update_with-ok,
}

infix 40 ◌⟶*◌
pub data ◌⟶*◌ (s : WorkspaceState) : WorkspaceState → Type 0 where
  here : s ⟶* s
  next : {t u : WorkspaceState} → s ⟶* t → t ⟶ u → s ⟶* u

⟶*-closed : {s t : WorkspaceState} → s ⟶* t → s ≡ closed → t ≡ closed
⟶*-closed here h = h
⟶*-closed (next r e) h = closed_ends e (⟶*-closed r h)
  where
    closed_ends : {t u : WorkspaceState} → t ⟶ u → t ≡ closed → u ≡ closed
    closed_ends prepare k = cc
    closed_ends abandon k = cc
    closed_ends return k = cc
    closed_ends approve k = cc
    closed_ends finish k = cc

-- A call of a registry.
pub data Call : Type 0 where
  create_call update_call : Workspace → Call

answer : WorkspaceStore → Result ValueError (Workspace × WorkspaceStore) → WorkspaceStore
answer store (ok (_, store')) = store'
answer store (err _) = store

-- The registry after a call; one that raises leaves it as it was.
pub perform : Backend → Call → WorkspaceStore → WorkspaceStore
unfolding answer
perform backend (create_call w) store = answer store (create w store)
perform backend (update_call w) store = answer store (update_with backend w store)

pub perform_all : Backend → List Call → WorkspaceStore → WorkspaceStore
unfolding perform
perform_all backend [] store = store
perform_all backend (call ∷ calls) store = perform_all backend calls (perform backend call store)

-- How a stored workspace is related to the one that stands at its place later.
pub record Lineage (a b : Workspace) : Type 0 where
  pub version : a.version ≤ b.version
  pub origin : SameOrigin a b
  pub profile : KeepsProfile a b
  pub states : a.state ⟶* b.state

Lineage-refl : (a : Workspace) → Lineage a a
Lineage-refl a = record {
  version = omega arith;
  origin = record {
    baseline = refl;
    commit = refl;
    repository = refl;
    versions = refl;
    draft = refl;
    request = refl;
    ref = refl;
  };
  profile = record { id = λ _. refl; version = λ _. refl };
  states = here;
}

Lineage-next : {a b c : Workspace} → Lineage a b → Successor b c → Lineage a c
Lineage-next {a} {b} {c} l s = record {
  version = omega (arith, l.version, s.version);
  origin = record {
    baseline = l.origin.baseline ∙ s.origin.baseline;
    commit = l.origin.commit ∙ s.origin.commit;
    repository = l.origin.repository ∙ s.origin.repository;
    versions = l.origin.versions ∙ s.origin.versions;
    draft = l.origin.draft ∙ s.origin.draft;
    request = l.origin.request ∙ s.origin.request;
    ref = l.origin.ref ∙ s.origin.ref;
  };
  profile = record {
    id = λ h. s.profile.id (λ e. h (sym (l.profile.id h) ∙ e)) ∙ l.profile.id h;
    version = λ h. s.profile.version (λ e. h (sym (l.profile.version h) ∙ e)) ∙ l.profile.version h;
  };
  states = elim s.state [
    | inl same ↦ subst (λ u. a.state ⟶* u) same l.states
    | inr edge ↦ next l.states edge
  ];
}

create-ok :
    (w : Workspace) (store : WorkspaceStore) {made : Workspace} {store' : WorkspaceStore}
    → create w store ≡ ok (made, store')
    → (lookup w.id store ≡ none) × (store' ≡ insert w.id w store)
unfolding create has_key
create-ok w store h = ground arith

module _ (backend : Backend) where
  perform-Lineage :
      (call : Call) (store : WorkspaceStore) (j : ℕ) (a : Workspace) {b : Workspace}
      → lookup j store ≡ some b
      → Lineage a b
      → (c : Workspace) × (lookup j (perform backend call store) ≡ some c) × Lineage a c
  unfolding perform
  perform-Lineage (create_call w) store j a {b} h l = elim (Result-cases (create w store)) [
    | inr (e, refused) ↦ (b, rw refused h, l)
    | inl ((made, store'), done) ↦
        let (new, d) = create-ok w store done in
        let there : lookup j store' ≡ some b = rw (d, lookup-insert) (ground (arith)) in
        (b, rw done there, l)
  ]
  perform-Lineage (update_call w) store j a {b} h l =
      elim (Result-cases (update_with backend w store)) [
        | inr (e, refused) ↦ (b, rw refused h, l)
        | inl ((after, store'), done) ↦
            let (current, found, _, _, succ, at) = update_with-ok backend w store done in
            elim (Bool-cases (w.id == j)) [
              | inl same ↦
                  let e : w.id ≡ j = (==_iff w.id j).0 same in
                  let b_current : b ≡ current = cc (h, found, e) in
                  (
                    after,
                    rw (done, answer, at j, same) refl,
                    Lineage-next l (subst (λ x. Successor x after) (sym b_current) succ),
                  )
              | inr other ↦ (b, rw (done, answer, at j, other) h, l)
            ]
      ]

  along :
      (calls : List Call) (store : WorkspaceStore) (j : ℕ) (a : Workspace) {b : Workspace}
      → lookup j store ≡ some b
      → Lineage a b
      → (c : Workspace) × (lookup j (perform_all backend calls store) ≡ some c) × Lineage a c
  unfolding perform_all
  along [] store j a {b} h l = (b, h, l)
  along (call ∷ calls) store j a h l =
      let (c, there, l') = perform-Lineage call store j a h l in
      along calls (perform backend call store) j a there l'

  -- However a registry is used, a workspace that it stores is never lost: at its identifier there
  -- always stands a workspace of the same origin, with the same profile once one was bound, with
  -- a version at least as high, and in a state that the diagram allows to reach.
  pub perform_all-Lineage :
      (calls : List Call) (store : WorkspaceStore) (j : ℕ) {a : Workspace}
      → lookup j store ≡ some a
      → (b : Workspace) × (lookup j (perform_all backend calls store) ≡ some b) × Lineage a b
  perform_all-Lineage calls store j {a} h = along calls store j a h (Lineage-refl a)

  -- A closed workspace stays closed.
  pub perform_all-closed :
      (calls : List Call) (store : WorkspaceStore) (j : ℕ) {a : Workspace}
      → lookup j store ≡ some a
      → a.state ≡ closed
      → (b : Workspace) × (lookup j (perform_all backend calls store) ≡ some b) × (b.state ≡ closed)
  perform_all-closed calls store j h c =
      let (b, there, l) = perform_all-Lineage calls store j h in (b, there, ⟶*-closed l.states c)
