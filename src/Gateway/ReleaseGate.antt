-- ===== src/Gateway/ReleaseGate.antt =====
-- What has held when the governed approval returned, in application/governed_gateway_service.py.
use multi_agent_aircraft_dev.Base.{ℕ, ◌≡◌, true, false, some, string_eq, option_eq, nat_eq}
use multi_agent_aircraft_dev.Dict.{lookup}
use multi_agent_aircraft_dev.ChangeControl.{l3_approve, level_eq}
use multi_agent_aircraft_dev.Workspaces.{Workspace}
use multi_agent_aircraft_dev.Budget.{BudgetGate}
use multi_agent_aircraft_dev.Models.{compute_change_set_hash}
use multi_agent_aircraft_dev.Changes
use multi_agent_aircraft_dev.Gateway.World.{Actor, is_ai, Config, Store, World}
use multi_agent_aircraft_dev.Gateway.Returns.{Returns}
use multi_agent_aircraft_dev.Gateway.ReleaseChecks.{IsReviewed, WithinBudget, IsReproduced}

-- What a release stands on.
pub record IsReleasable (config : Config) (actor : Actor) (i : ℕ) (workspace : Workspace)
    (store : Store) : Type 0 where
  pub not_ai : is_ai actor ≡ false
  pub level : actor.authorization_level ≡ l3_approve
  pub stored : lookup i store.workspaces ≡ some workspace
  pub budget : (gate : BudgetGate) → config.budget_gate ≡ some gate → WithinBudget gate workspace
  pub review : IsReviewed config actor i workspace store
  pub reconciled : workspace.reconciled ≡ true
  pub published :
      workspace.reconciled_change_set_hash
      ≡ some (compute_change_set_hash config.digest (Changes.get_changes i store.changes))
  pub reproduced : IsReproduced config i workspace store
