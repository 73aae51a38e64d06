-- ===== src/Gateway/Editing.antt =====
-- The edits of a workspace in application/gateway_service.py.
use multi_agent_aircraft_dev.Base.{ℕ, not, none, some, [], ◌∷◌, nat_eq, string_eq, option_eq}
use multi_agent_aircraft_dev.Errors.{not_configured}
use multi_agent_aircraft_dev.ChangeControl.{request_eq, level_eq}
use multi_agent_aircraft_dev.Workspaces.{state_eq}
use multi_agent_aircraft_dev.Audit.{success, number}
use multi_agent_aircraft_dev.Models.{EngineeringElement, EngineeringRelation}
use multi_agent_aircraft_dev.Changes
use multi_agent_aircraft_dev.Gateway.World.{
  Actor, Config, Action, pure, gets, lift, ◌>>=◌, ◌>>◌, refuse_if, modify, record_action,
}
use multi_agent_aircraft_dev.Gateway.Service.{require_workspace}

-- `self._workspace_changes.save_element` and `add_relation`
unfoldable pub save_workspace_element :
    Config → Actor → EngineeringElement → ℕ → Action EngineeringElement
unfolding require_workspace
save_workspace_element config actor element workspace_id = do
  require_workspace config actor workspace_id
  refuse_if (not config.changes_configured) not_configured
  modify (λ s. record s { changes = Changes.save_element workspace_id element s.changes })
  record_action actor "save_workspace_element" "engineering_element" (some element.id) success none
      (("workspace_id", number workspace_id) ∷ [])
  pure element

unfoldable pub add_workspace_relation :
    Config → Actor → EngineeringRelation → ℕ → Action EngineeringRelation
unfolding require_workspace
add_workspace_relation config actor relation workspace_id = do
  require_workspace config actor workspace_id
  refuse_if (not config.changes_configured) not_configured
  added ← gets (λ s. Changes.add_relation s.canonical workspace_id relation s.changes)
  changes ← lift added
  modify (λ s. record s { changes = changes })
  record_action actor "add_workspace_relation" "engineering_relation" (some relation.id) success
      none (("workspace_id", number workspace_id) ∷ [])
  pure relation
