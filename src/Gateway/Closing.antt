-- ===== src/Gateway/Closing.antt =====
-- When a workspace can be closed, in application/gateway_service.py.
use multi_agent_aircraft_dev.Base.{ℕ, nat_eq, some, inl, inr, Option-cases, ◌≡◌, arith}
use multi_agent_aircraft_dev.Dict.{lookup}
use multi_agent_aircraft_dev.ChangeControl
use multi_agent_aircraft_dev.ChangeControl.{ChangeRequest, ChangeRequestState, request_eq}
use multi_agent_aircraft_dev.Workspaces
use multi_agent_aircraft_dev.Workspaces.{Workspace, WorkspaceState, state_eq}
use multi_agent_aircraft_dev.Gateway.World.{Actor, Config, World}
use multi_agent_aircraft_dev.Gateway.Returns.{Returns, bind-Returns, check-Returns}
use multi_agent_aircraft_dev.Gateway.Decisions.{
  require_closable, write_closure, close_loaded, close_authorized, close_workspace,
}
use multi_agent_aircraft_dev.Gateway.Service.{require_modify, load_workflow}

-- The two states allow a closure exactly when both are approved.
pub require_closable-Returns :
    (workspace_state : WorkspaceState) (request_state : ChangeRequestState) {w : World}
    {u : Unit {0}} {v : World}
    → Returns (require_closable workspace_state request_state) w u v
    → (workspace_state ≡ Workspaces.approved) × (request_state ≡ ChangeControl.approved) × (v ≡ w)
unfolding require_closable ChangeControl.require_transition
require_closable-Returns ws rs h = ground arith

pub load_workflow-Returns :
    (config : Config) (i : ℕ) {w : World} {found : Workspace × ChangeRequest} {v : World}
    → Returns (load_workflow config i) w found v
    → (v ≡ w)
      × (lookup i w.store.workspaces ≡ some found.0)
      × (lookup found.0.change_request_id w.store.change_requests ≡ some found.1)
unfolding load_workflow
load_workflow-Returns config i {w} h = elim (Option-cases (lookup i w.store.workspaces)) [
  | inl missing ↦ absurd (ground arith)
  | inr (workspace, stored) ↦
      elim (Option-cases (lookup workspace.change_request_id w.store.change_requests)) [
        | inl missing ↦ absurd (ground arith)
        | inr (request, asked) ↦ ground arith
      ]
]

close_loaded-Returns :
    (actor : Actor) (i : ℕ) (found : Workspace × ChangeRequest) (w : World) {u : Unit {0}}
    {v : World}
    → Returns (close_loaded actor i found) w u v
    → (found.0.state ≡ Workspaces.approved) × (found.1.state ≡ ChangeControl.approved)
unfolding close_loaded
close_loaded-Returns actor i (workspace, request) w h =
    (check-Returns (require_closable workspace.state request.state)
      (write_closure actor i workspace request)
      ((workspace.state ≡ Workspaces.approved) × (request.state ≡ ChangeControl.approved)) {w = w}
      (λ _ _ k.
        let (a, b, same) = require_closable-Returns workspace.state request.state k in
        (same, (a, b)))
      h).0

module _ (config : Config) (actor : Actor) (i : ℕ) where
  configured :
      (w : World) {u : Unit {0}} {v : World}
      → Returns (close_workspace config actor i) w u v
      → Returns (close_authorized config actor i) w u v
  unfolding close_workspace require_modify
  configured w h = ground arith

  close_authorized-Returns :
      (w : World) {u : Unit {0}} {v : World}
      → Returns (close_authorized config actor i) w u v
      → (found : Workspace × ChangeRequest) × (x : World) × Returns
          (load_workflow config i)
          w
          found
          x
        × Returns (close_loaded actor i found) x u v
  unfolding close_authorized
  close_authorized-Returns w h = bind-Returns (load_workflow config i) (close_loaded actor i) h

  -- A workspace that was closed was approved before, and so was its change request: the closure of
  -- a rejected one, for which the code has a branch, never succeeds.
  pub close_workspace-approved :
      (w : World) {u : Unit {0}} {v : World}
      → Returns (close_workspace config actor i) w u v
      → (workspace : Workspace) × (request : ChangeRequest) × (lookup i w.store.workspaces
          ≡ some workspace)
        × (lookup workspace.change_request_id w.store.change_requests ≡ some request)
        × (workspace.state ≡ Workspaces.approved)
        × (request.state ≡ ChangeControl.approved)
  close_workspace-approved w h =
      let (found, x, loaded, done) = close_authorized-Returns w (configured w h) in
      let (same, stored, asked) = load_workflow-Returns config i loaded in
      let (a, b) = close_loaded-Returns actor i found x done in
      (found.0, found.1, stored, asked, a, b)
