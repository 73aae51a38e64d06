-- ===== src/Workspaces/Updates.antt =====
-- What an accepted update of a workspace registry has done, for both registries at once.
use multi_agent_aircraft_dev.Base.{
  ℕ, ◌+◌, ◌≡◌, ◌≢◌, sym, ap, ◌⊎◌, inl, inr, true, false, none, some, [], arith, ◌==◌, ==_iff,
  nat_eq, string_eq, option_eq, list_eq, Option-cases, if◌then◌else◌,
}
use multi_agent_aircraft_dev.Dict.{lookup, insert, lookup-insert, lookup-insert_self}
use multi_agent_aircraft_dev.Errors.{modified_concurrently, ok, err}
use multi_agent_aircraft_dev.Evidence.{version_eq, evidence_eq, no_evidence}
use multi_agent_aircraft_dev.Workspaces.{
  WorkspaceState, active, ready_for_approval, approved, closed, Workspace, require_transition,
}
use multi_agent_aircraft_dev.Workspaces.Registry.{
  WorkspaceStore, Backend, in_memory, in_database, bound, origin_changed, profile_changed,
  evidence_changed, reconciliation_dropped, reconciliation_changed, reconciliation_left_over,
  check_update, update_with,
}

-- The diagram that the workspace gate is meant to enforce.
infix 40 ◌⟶◌
pub data ◌⟶◌ : WorkspaceState → WorkspaceState → Type 0 where
  prepare : active ⟶ ready_for_approval
  abandon : active ⟶ closed
  return : ready_for_approval ⟶ active
  approve : ready_for_approval ⟶ approved
  finish : approved ⟶ closed

pub accepted : (s t : WorkspaceState) → require_transition s t ≡ ok tt → (s ≡ t) ⊎ (s ⟶ t)
unfolding require_transition
accepted s t h = grind (arith, prepare, abandon, return, approve, finish)

-- The fields that fix where a workspace comes from.
pub record SameOrigin (a b : Workspace) : Type 0 where
  pub baseline : a.source_baseline_id ≡ b.source_baseline_id
  pub commit : a.source_git_commit ≡ b.source_git_commit
  pub repository : a.source_git_repository ≡ b.source_git_repository
  pub versions : a.source_external_versions ≡ b.source_external_versions
  pub draft : a.project_draft_id ≡ b.project_draft_id
  pub request : a.change_request_id ≡ b.change_request_id
  pub ref : a.git_ref ≡ b.git_ref

origin_changed-SameOrigin : (a b : Workspace) → origin_changed a b ≡ false → SameOrigin a b
unfolding origin_changed
origin_changed-SameOrigin a b h = ground (
  arith,
  ==_iff a.source_baseline_id b.source_baseline_id,
  ==_iff a.source_git_commit b.source_git_commit,
  ==_iff a.source_git_repository b.source_git_repository,
  ==_iff a.source_external_versions b.source_external_versions,
  ==_iff a.project_draft_id b.project_draft_id,
  ==_iff a.git_ref b.git_ref,
)

-- A profile that is bound stays bound.
pub record KeepsProfile (a b : Workspace) : Type 0 where
  pub id : a.profile_id ≢ none → b.profile_id ≡ a.profile_id
  pub version : a.profile_version ≢ none → b.profile_version ≡ a.profile_version

profile_changed-KeepsProfile : (a b : Workspace) → profile_changed a b ≡ false → KeepsProfile a b
unfolding profile_changed
profile_changed-KeepsProfile a b h =
    ground (arith, ==_iff a.profile_id b.profile_id, ==_iff a.profile_version b.profile_version)

-- No evidence of a reconciliation is left on a workspace that is not reconciled.
abbrev pub IsClean : Workspace → Type 0
IsClean w =
    w.reconciled ≡ false
    → (w.reconciled_change_set_hash ≡ none) × (w.reconciliation_external_versions ≡ [])

left_over-IsClean : (w : Workspace) → reconciliation_left_over w ≡ false → IsClean w
unfolding reconciliation_left_over
left_over-IsClean w h = ground arith

-- A bound graph hash and its evidence are replaced only by an update that resets both and makes
-- the workspace active.
abbrev pub KeepsEvidence : Workspace → Workspace → Type 0
KeepsEvidence a b =
    a.validation_graph_hash ≢ none
    → ((b.validation_graph_hash ≡ a.validation_graph_hash)
        × (b.validation_evidence ≡ a.validation_evidence))
      ⊎ ((b.validation_graph_hash ≡ none)
          × (b.validation_evidence ≡ no_evidence)
          × (b.state ≡ active))

bound-hash :
    (backend : Backend) (a : Workspace) → a.validation_graph_hash ≢ none → bound backend a ≡ true
unfolding bound
bound-hash in_memory a h = ground arith
bound-hash in_database a h = ground arith

evidence_changed-KeepsEvidence :
    (backend : Backend) (a b : Workspace) → evidence_changed backend a b ≡ false → KeepsEvidence a b
unfolding evidence_changed
evidence_changed-KeepsEvidence backend a b h some_hash = ground (
  arith,
  bound-hash backend a some_hash,
  ==_iff a.validation_graph_hash b.validation_graph_hash,
  ==_iff a.validation_evidence b.validation_evidence,
  ==_iff b.validation_evidence no_evidence,
)

-- The evidence of a reconciliation stays as long as the workspace counts as reconciled, and is
-- dropped only on the way from or to the state `active`.
abbrev pub KeepsReconciliation : Workspace → Workspace → Type 0
KeepsReconciliation a b =
    a.reconciled ≡ true
    → ((b.reconciled ≡ true)
        × (b.reconciled_change_set_hash ≡ a.reconciled_change_set_hash)
        × (b.reconciliation_external_versions ≡ a.reconciliation_external_versions))
      ⊎ ((b.reconciled ≡ false) × ((a.state ≡ active) ⊎ (b.state ≡ active)))

reconciliation-Keeps :
    (a b : Workspace)
    → reconciliation_dropped a b ≡ false
    → reconciliation_changed a b ≡ false
    → KeepsReconciliation a b
unfolding reconciliation_dropped reconciliation_changed
reconciliation-Keeps a b h k r = ground (
  arith,
  ==_iff a.reconciled_change_set_hash b.reconciled_change_set_hash,
  ==_iff a.reconciliation_external_versions b.reconciliation_external_versions,
)

-- What a stored workspace and the one that replaces it have in common.
pub record Successor (a b : Workspace) : Type 0 where
  pub version : b.version ≡ a.version + 1
  pub origin : SameOrigin a b
  pub profile : KeepsProfile a b
  pub evidence : KeepsEvidence a b
  pub reconciliation : KeepsReconciliation a b
  pub clean : IsClean b
  pub state : (a.state ≡ b.state) ⊎ (a.state ⟶ b.state)

module _ (backend : Backend) where
  check_update-ok :
      (a b : Workspace)
      → check_update backend a b ≡ ok tt
      → (a.version ≡ b.version)
        × (origin_changed a b ≡ false)
        × (profile_changed a b ≡ false)
        × (evidence_changed backend a b ≡ false)
        × (reconciliation_dropped a b ≡ false)
        × (reconciliation_changed a b ≡ false)
        × (reconciliation_left_over b ≡ false)
        × (require_transition a.state b.state ≡ ok tt)
  unfolding check_update
  check_update-ok a b h = ground arith

  check_update-Successor :
      (a w : Workspace)
      → check_update backend a w ≡ ok tt
      → Successor a (record w { version = w.version + 1 })
  unfolding origin_changed profile_changed
  check_update-Successor a w h =
      let next : Workspace = record w { version = w.version + 1 } in
      let (v, o, p, e, d, c, l, t) = check_update-ok a w h in
      record {
        version = ap (λ n. n + 1) (sym v);
        origin = origin_changed-SameOrigin a next o;
        profile = profile_changed-KeepsProfile a next p;
        evidence = evidence_changed-KeepsEvidence backend a w e;
        reconciliation = reconciliation-Keeps a w d c;
        clean = left_over-IsClean w l;
        state = accepted a.state w.state t;
      }

  -- An update that is accepted replaces one stored workspace, which had the version that the
  -- caller read, by the caller's with the next version; the two have the same origin, a bound
  -- profile and bound evidence are kept or reset as a whole, and the state is the same or follows
  -- the diagram. No other workspace changes.
  pub update_with-ok :
      (w : Workspace) (store : WorkspaceStore) {next : Workspace} {store' : WorkspaceStore}
      → update_with backend w store ≡ ok (next, store')
      → (current : Workspace) × (lookup w.id store ≡ some current)
        × (current.version ≡ w.version)
        × (next ≡ record w { version = w.version + 1 })
        × Successor current next
        × ((j : ℕ) → lookup j store' ≡ (if w.id == j then some next else lookup j store))
  unfolding update_with
  update_with-ok w store {next} {store'} h = elim (Option-cases (lookup w.id store)) [
    | inl missing ↦ absurd (ground arith)
    | inr (current, found) ↦
        let passed : check_update backend current w ≡ ok tt = ground (arith) in
        let e : next ≡ record w { version = w.version + 1 } = ground (arith) in
        let d : store' ≡ insert w.id (record w { version = w.version + 1 }) store =
          ground (arith) in
        (
          current,
          found,
          (check_update-ok current w passed).0,
          e,
          rw e (check_update-Successor current w passed),
          λ j. rw (d, e) (lookup-insert w.id j (record w { version = w.version + 1 }) store),
        )
  ]

-- Two writers that read the same version: once one has written, the other is refused and has to
-- reload, in either registry, whatever it wants to write.
pub stale_update :
    (backend backend' : Backend) (w : Workspace) (store : WorkspaceStore) (late : Workspace)
    {next : Workspace} {store' : WorkspaceStore}
    → update_with backend w store ≡ ok (next, store')
    → late.id ≡ w.id
    → late.version ≡ w.version
    → update_with backend' late store' ≡ err modified_concurrently
unfolding update_with check_update
stale_update backend backend' w store late {next} {store'} h same_id same_version =
    elim (Option-cases (lookup w.id store)) [
      | inl missing ↦ absurd (ground arith)
      | inr (current, found) ↦
          let d : store' ≡ insert w.id (record w { version = w.version + 1 }) store =
            ground arith in
          let there : lookup late.id store' ≡ some (record w { version = w.version + 1 }) =
            rw (d, same_id)
              (lookup-insert_self w.id (record w { version = w.version + 1 }) store) in
          ground arith
    ]
