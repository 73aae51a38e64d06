-- ===== src/Gateway/ReplayOnce.antt =====
-- When a reconciliation calls the external systems, in application/workspace_reconciliation.py.
use multi_agent_aircraft_dev.Base.{ℕ, String, ◌≡◌, true, some, nat_eq, string_eq, option_eq}
use multi_agent_aircraft_dev.ChangeControl
use multi_agent_aircraft_dev.ChangeControl.{level_eq, request_eq}
use multi_agent_aircraft_dev.Models.{EngineeringGraph, compute_change_set_hash}
use multi_agent_aircraft_dev.Changes
use multi_agent_aircraft_dev.Audit.{audit_result_eq}
use multi_agent_aircraft_dev.Workspaces
use multi_agent_aircraft_dev.Workspaces.{Workspace, state_eq}
use multi_agent_aircraft_dev.Workspaces.Registry.{WorkspaceStore}
use multi_agent_aircraft_dev.Gateway.World.{Actor, World, Reconciler}
use multi_agent_aircraft_dev.Gateway.Returns.{Returns}

-- The workspace carries the evidence that this change set was reconciled.
abbrev pub IsEvidenced : String → Workspace → Type 0
IsEvidenced hash workspace =
    (workspace.reconciled ≡ true) × (workspace.reconciled_change_set_hash ≡ some hash)

module _ (reconciler : Reconciler) (digest : EngineeringGraph → String)
    (meanwhile : WorkspaceStore → WorkspaceStore) (actor : Actor) (i : ℕ) (w : World) where
  abbrev present : EngineeringGraph
  present = Changes.get_changes i w.store.changes

  abbrev current_hash : String
  current_hash = compute_change_set_hash digest present
