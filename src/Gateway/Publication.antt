-- ===== src/Gateway/Publication.antt =====
-- What the publication of a change set leaves behind, with the ways in which it can end.
use multi_agent_aircraft_dev.Base.{
  ℕ, String, ◌≡◌, refl, ap, ◌∙◌, inl, inr, true, Option, none, some, Bool-cases, List, [], ◌∷◌, ◌+◌,
  arith, ==_iff, nat_eq, string_eq, option_eq,
}
use multi_agent_aircraft_dev.Dict.{lookup}
use multi_agent_aircraft_dev.Errors.{
  modified_concurrently, Exception, value_error, Result, ok, err, Result-cases,
}
use multi_agent_aircraft_dev.ChangeControl.{level_eq, request_eq}
use multi_agent_aircraft_dev.Evidence.{ExternalVersion}
use multi_agent_aircraft_dev.Models.{EngineeringGraph}
use multi_agent_aircraft_dev.Audit.{MetaValue, flag, audit_result_eq}
use multi_agent_aircraft_dev.Workspaces.{Workspace, state_eq, mark_reconciled}
use multi_agent_aircraft_dev.Workspaces.Registry.{WorkspaceStore, in_database, durable_update}
use multi_agent_aircraft_dev.Workspaces.Updates.{update_with-ok}
use multi_agent_aircraft_dev.Gateway.World.{Actor, World, Reconciler, record_action, audit_record}
use multi_agent_aircraft_dev.Gateway.Service.{update_workspace}
use multi_agent_aircraft_dev.Gateway.Returns.{Returns}
use multi_agent_aircraft_dev.Gateway.Reconciliation.{
  ReconciliationResult, reconciled_with, reconciliation_failed, has_evidence, concurrent_winner,
  lost_race, recover, try_publish, publish_result, publish,
}

-- At its place in the store, the workspace carries the evidence that the result tells.
abbrev pub HoldsEvidence : ℕ → String → ReconciliationResult → WorkspaceStore → Type 0
HoldsEvidence i hash result store =
    (workspace : Workspace) × (lookup i store ≡ some workspace)
    × (workspace.reconciled ≡ true)
    × (workspace.reconciled_change_set_hash ≡ some hash)
    × (result ≡ record {
      workspace_id = i;
      change_set_hash = hash;
      external_versions = workspace.reconciliation_external_versions;
    })

pub has_evidence_iff :
    (hash : String) (workspace : Workspace)
    → has_evidence hash workspace ≡ true
    → (workspace.reconciled ≡ true) × (workspace.reconciled_change_set_hash ≡ some hash)
unfolding has_evidence
has_evidence_iff hash workspace h =
    ground (arith, ==_iff workspace.reconciled_change_set_hash (some hash))

module _ (actor : Actor) (i : ℕ) (changes : EngineeringGraph) (hash : String) where
  pub reconciled_with-Returns :
      (found : List ExternalVersion) (mark : List (String × MetaValue)) (w : World)
      {r : ReconciliationResult} {v : World}
      → Returns (reconciled_with actor i changes hash found mark) w r v
      → (r ≡ record { workspace_id = i; change_set_hash = hash; external_versions = found })
        × (v.store.workspaces ≡ w.store.workspaces)
        × (v.calls ≡ w.calls)
  unfolding reconciled_with record_action audit_record
  reconciled_with-Returns found mark w h = ground arith

  reconciliation_failed-Returns :
      (e : Exception) (w : World) {r : ReconciliationResult} {v : World}
      → Returns (reconciliation_failed actor i changes hash e) w r v
      → ⊥
  unfolding reconciliation_failed record_action audit_record
  reconciliation_failed-Returns e w h = ground arith

  concurrent_winner-Returns :
      (current : Option Workspace) (w : World) {r : ReconciliationResult} {v : World}
      → lookup i w.store.workspaces ≡ current
      → Returns (concurrent_winner actor i changes hash current) w r v
      → HoldsEvidence i hash r v.store.workspaces
  unfolding concurrent_winner
  concurrent_winner-Returns none w there h =
      absurd (reconciliation_failed-Returns (value_error modified_concurrently) w h)
  concurrent_winner-Returns (some current) w {r} {v} there h =
      elim (Bool-cases (has_evidence hash current)) [
        | inl held ↦
            let (result, same, _) =
              reconciled_with-Returns current.reconciliation_external_versions
                ((("concurrent_winner", flag true)) ∷ []) w {r = r} {v = v} (ground (arith)) in
            let (a, b) = has_evidence_iff hash current held in
            (current, rw same there, a, b, result)
        | inr other ↦ absurd (
            reconciliation_failed-Returns (value_error modified_concurrently) w {r = r} {v = v}
              (ground (arith)))
      ]

  recover-Returns :
      (e : Exception) (w : World) {r : ReconciliationResult} {v : World}
      → Returns (recover actor i changes hash e) w r v
      → HoldsEvidence i hash r v.store.workspaces
  unfolding recover
  recover-Returns e w {r} {v} h = elim (Bool-cases (lost_race e)) [
    | inl lost ↦
        concurrent_winner-Returns (lookup i w.store.workspaces) w {r = r} {v = v} refl
          (ground (arith))
    | inr other ↦ absurd (reconciliation_failed-Returns e w {r = r} {v = v} (ground (arith)))
  ]

  mark_reconciled-ok :
      (workspace : Workspace) (found : List ExternalVersion) {marked : Workspace}
      → mark_reconciled workspace hash found ≡ ok marked
      → marked ≡ record workspace {
        reconciled = true;
        reconciled_change_set_hash = some hash;
        reconciliation_external_versions = found;
      }
  unfolding mark_reconciled
  mark_reconciled-ok workspace found h = ground arith

  update-there :
      (marked : Workspace) (store : WorkspaceStore) {next : Workspace} {store' : WorkspaceStore}
      → marked.id ≡ i
      → durable_update marked store ≡ ok (next, store')
      → lookup i store' ≡ some (record marked { version = marked.version + 1 })
  unfolding durable_update
  update-there marked store {next} {store'} same h =
      let (_, _, _, e, _, at) = update_with-ok in_database marked store h in
      at i ∙ rw ((==_iff marked.id i).1 same, e) refl

  try_publish-Returns :
      (reconciler : Reconciler) (meanwhile : WorkspaceStore → WorkspaceStore)
      (workspace : Workspace) (w : World) {found : List ExternalVersion} {v : World}
      → workspace.id ≡ i
      → Returns (try_publish reconciler meanwhile workspace changes hash) w found v
      → (after : Workspace) × (lookup i v.store.workspaces ≡ some after)
        × (after.reconciled ≡ true)
        × (after.reconciled_change_set_hash ≡ some hash)
        × (after.reconciliation_external_versions ≡ found)
  unfolding try_publish update_workspace
  try_publish-Returns reconciler meanwhile workspace w {found} {v} same h =
      elim (Result-cases (reconciler workspace changes)) [
        | inr (e, raised) ↦ absurd (ground arith)
        | inl (answer, told) ↦ elim (Result-cases (mark_reconciled workspace hash answer)) [
          | inr (e, raised) ↦ absurd (ground arith)
          | inl (marked, done) ↦
              elim (Result-cases (durable_update marked (meanwhile w.store.workspaces))) [
                | inr (e, raised) ↦ absurd (ground arith)
                | inl ((next, store'), stored) ↦
                    let m : marked ≡ record workspace {
                      reconciled = true;
                      reconciled_change_set_hash = some hash;
                      reconciliation_external_versions = answer;
                    } =
                      mark_reconciled-ok workspace answer done in
                    let at : lookup i store'
                        ≡ some (record marked { version = marked.version + 1 }) =
                      update-there marked (meanwhile w.store.workspaces) (rw m same) stored in
                    let kept : v.store.workspaces ≡ store' = ground (arith) in
                    let told_all : answer ≡ found = ground (arith) in
                    (
                      record marked { version = marked.version + 1 },
                      rw kept at,
                      rw m refl,
                      rw m refl,
                      rw m told_all,
                    )
              ]
        ]
      ]

  publish_result-Returns :
      (result : Result Exception (List ExternalVersion)) (x : World) {r : ReconciliationResult}
      {v : World}
      → ((found : List ExternalVersion)
          → result ≡ ok found
          → (after : Workspace) × (lookup i x.store.workspaces ≡ some after)
            × (after.reconciled ≡ true)
            × (after.reconciled_change_set_hash ≡ some hash)
            × (after.reconciliation_external_versions ≡ found))
      → Returns (publish_result actor i changes hash result) x r v
      → HoldsEvidence i hash r v.store.workspaces
  unfolding publish_result
  publish_result-Returns (err e) x held h = recover-Returns e x h
  publish_result-Returns (ok found) x held h =
      let (after, there, a, b, told) = held found refl in
      let (result, kept, _) = reconciled_with-Returns found [] x h in
      (after, rw kept there, a, b, rw told result)

  pub publish-Returns :
      (reconciler : Reconciler) (meanwhile : WorkspaceStore → WorkspaceStore)
      (workspace : Workspace) (w : World) {r : ReconciliationResult} {v : World}
      → workspace.id ≡ i
      → Returns (publish reconciler meanwhile actor workspace i changes hash) w r v
      → HoldsEvidence i hash r v.store.workspaces
  unfolding publish
  publish-Returns reconciler meanwhile workspace w {r} {v} same h =
      let (result, x) = try_publish reconciler meanwhile workspace changes hash w in
      publish_result-Returns result x
        (λ found e. try_publish-Returns reconciler meanwhile workspace w same (ap (λ z. (z, x)) e))
        h
