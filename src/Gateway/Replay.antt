-- ===== src/Gateway/Replay.antt =====
-- What a reconciliation leaves behind, in application/workspace_reconciliation.py.
use multi_agent_aircraft_dev.Base.{
  ℕ, String, ◌≡◌, inl, inr, true, some, Option-cases, Bool-cases, [], ◌∷◌, arith, ◌==◌, nat_eq,
  string_eq, option_eq,
}
use multi_agent_aircraft_dev.Dict.{lookup}
use multi_agent_aircraft_dev.ChangeControl.{
  ChangeRequest, l2_modify_workspace, level_eq, request_eq,
}
use multi_agent_aircraft_dev.Models.{EngineeringGraph, compute_change_set_hash}
use multi_agent_aircraft_dev.Changes
use multi_agent_aircraft_dev.Audit.{flag, audit_result_eq}
use multi_agent_aircraft_dev.Workspaces.{Workspace, state_eq}
use multi_agent_aircraft_dev.Workspaces.Registry.{WorkspaceStore}
use multi_agent_aircraft_dev.Gateway.World.{Actor, World, Reconciler, record_action, audit_record}
use multi_agent_aircraft_dev.Gateway.Returns.{Returns}
use multi_agent_aircraft_dev.Gateway.Reconciliation.{
  ReconciliationResult, has_evidence, not_both_ready, require_l2, reconcile_found, reconcile,
}
use multi_agent_aircraft_dev.Gateway.Publication.{
  HoldsEvidence, has_evidence_iff, reconciled_with-Returns, publish-Returns,
}

module _ (reconciler : Reconciler) (digest : EngineeringGraph → String)
    (meanwhile : WorkspaceStore → WorkspaceStore) (actor : Actor) (i : ℕ) (w : World) where
  abbrev current_hash : String
  current_hash = compute_change_set_hash digest (Changes.get_changes i w.store.changes)

  reconcile_found-Returns :
      (workspace : Workspace) (request : ChangeRequest) {r : ReconciliationResult} {v : World}
      → workspace.id ≡ i
      → lookup i w.store.workspaces ≡ some workspace
      → Returns (reconcile_found reconciler digest meanwhile actor i workspace request) w r v
      → HoldsEvidence i current_hash r v.store.workspaces
  unfolding reconcile_found
  reconcile_found-Returns workspace request {r} {v} same stored h =
      let changes : EngineeringGraph = Changes.get_changes i w.store.changes in
      elim (Bool-cases (not_both_ready workspace request)) [
        | inl refused ↦ absurd (ground arith)
        | inr ready ↦ elim (Bool-cases (has_evidence current_hash workspace)) [
          | inl held ↦
              let (result, kept, _) =
                reconciled_with-Returns actor i changes current_hash
                  workspace.reconciliation_external_versions (("idempotent_replay", flag true) ∷ [])
                  w {r = r} {v = v} (ground (arith)) in
              let (a, b) = has_evidence_iff current_hash workspace held in
              (workspace, rw kept stored, a, b, result)
          | inr other ↦
              publish-Returns actor i changes current_hash reconciler meanwhile workspace w {r = r}
                {v = v} same (ground (arith))
        ]
      ]

  reconcile-found :
      {r : ReconciliationResult} {v : World}
      → Returns (reconcile reconciler digest meanwhile actor i) w r v
      → (workspace : Workspace) × (request : ChangeRequest) × (lookup i w.store.workspaces
          ≡ some workspace)
        × Returns (reconcile_found reconciler digest meanwhile actor i workspace request) w r v
  unfolding reconcile require_l2 record_action audit_record
  reconcile-found h = elim (Bool-cases (actor.authorization_level == l2_modify_workspace)) [
    | inr other ↦ absurd (ground arith)
    | inl right ↦ elim (Option-cases (lookup i w.store.workspaces)) [
      | inl missing ↦ absurd (ground arith)
      | inr (workspace, stored) ↦
          elim (Option-cases (lookup workspace.change_request_id w.store.change_requests)) [
            | inl missing ↦ absurd (ground arith)
            | inr (request, asked) ↦ (workspace, request, stored, ground arith)
          ]
    ]
  ]

  -- Whichever way a reconciliation returns (it published, it replayed, or another writer won the race
  -- for the same change set), whatever other transactions did to the workspaces meanwhile, the stored
  -- workspace then carries the evidence for the change set that the call found, and the result is
  -- exactly that evidence. The store has the workspace at its own identifier.
  pub reconcile-HoldsEvidence :
      {r : ReconciliationResult} {v : World}
      → ((workspace : Workspace) → lookup i w.store.workspaces ≡ some workspace → workspace.id ≡ i)
      → Returns (reconcile reconciler digest meanwhile actor i) w r v
      → HoldsEvidence i current_hash r v.store.workspaces
  reconcile-HoldsEvidence keyed h =
      let (workspace, request, stored, rest) = reconcile-found h in
      reconcile_found-Returns workspace request (keyed workspace stored) stored rest
