-- ===== src/Gateway/Releases.antt =====
-- Which operations of the Gateway can write a baseline.
use multi_agent_aircraft_dev.Base.{ℕ, String, ◌≡◌, refl, Bool, ◌≢◌, Option, none, some}
use multi_agent_aircraft_dev.Errors.{
  ValueError, Exception, value_error, service, adapter, service_of, approval_failed_value,
  approval_failed_adapter, reconciliation_failed_value, reconciliation_failed_adapter,
  direct_approval_disabled, Result, ok, err,
}
use multi_agent_aircraft_dev.ChangeControl.{require_approval}
use multi_agent_aircraft_dev.Profiles.{StandardProfile}
use multi_agent_aircraft_dev.Gateway.Service.{profile_if, get_active_profile}
use multi_agent_aircraft_dev.Evidence.{ValidationInputs}
use multi_agent_aircraft_dev.Budget.{BudgetPlan, BudgetGate, BudgetDecision, require_within_limit}
use multi_agent_aircraft_dev.Models.{EngineeringElement, EngineeringRelation}
use multi_agent_aircraft_dev.Gateway.World.{Actor, is_ai, Config, Action, raise, ◌>>◌}
use multi_agent_aircraft_dev.Gateway.Effects.{KeepsBaselines, KeepsBaselines-raise, keeps_baselines}
use multi_agent_aircraft_dev.Gateway.Creation.{
  creation_failed, link_workspace, create_workspace, create_initial_workspace,
}
use multi_agent_aircraft_dev.Gateway.Decisions.{reject_workspace, reopen_workspace, close_workspace}
use multi_agent_aircraft_dev.Gateway.Editing.{save_workspace_element, add_workspace_relation}
use multi_agent_aircraft_dev.Gateway.Preparation.{
  over_limit, require_budget, require_preparable, bind_and_submit, issues_recorded, bind_if_valid,
  prepare_with, prepare_loaded, prepare_authorized, prepare_for_approval,
}
use multi_agent_aircraft_dev.Gateway.Review.{record_independent_review}
use multi_agent_aircraft_dev.Gateway.Approval.{approval_refused, approve}
use multi_agent_aircraft_dev.Gateway.GovernedApproval.{
  authorized, approve_authorized, approve_workspace,
}
use multi_agent_aircraft_dev.Baselines.{Baseline}

module _ (actor : Actor) where
  profile_if-Keeps :
      (action : String) (found : Option StandardProfile) (active : Bool)
      → KeepsBaselines (profile_if actor action found active)
  unfolding profile_if
  profile_if-Keeps action none active = search keeps_baselines depth 40
  profile_if-Keeps action (some p) active = search keeps_baselines depth 40

  creation_failed-Keeps : (i : ℕ) (e : Exception) → KeepsBaselines (creation_failed actor i e)
  unfolding creation_failed
  creation_failed-Keeps i (value_error e) = search keeps_baselines depth 40
  creation_failed-Keeps i (service e) = search keeps_baselines
  creation_failed-Keeps i (adapter t) = search keeps_baselines
  creation_failed-Keeps i (service_of e) = search keeps_baselines
  creation_failed-Keeps i (approval_failed_value e) = search keeps_baselines
  creation_failed-Keeps i (approval_failed_adapter t) = search keeps_baselines
  creation_failed-Keeps i (reconciliation_failed_value e) = search keeps_baselines
  creation_failed-Keeps i (reconciliation_failed_adapter t) = search keeps_baselines

  over_limit-Keeps :
      (i : ℕ) (r : Result ValueError BudgetDecision) → KeepsBaselines (over_limit actor i r)
  unfolding over_limit
  over_limit-Keeps i (ok d) = search keeps_baselines
  over_limit-Keeps i (err e) = search keeps_baselines depth 40

  require_budget-Keeps :
      (i : ℕ) (gate : Option BudgetGate) (plan : Option BudgetPlan)
      → KeepsBaselines (require_budget actor i gate plan)
  unfolding require_budget
  require_budget-Keeps i none plan = search keeps_baselines
  require_budget-Keeps i (some gate) none = search keeps_baselines
  require_budget-Keeps i (some gate) (some plan) =
      over_limit-Keeps i (require_within_limit gate plan)

  approval_refused-Keeps :
      {A : Type 0} (action target_type : String) (i : ℕ) (r : Result ValueError (Unit {0}))
      (m : Action A)
      → (r ≡ ok tt → KeepsBaselines m)
      → KeepsBaselines (approval_refused actor action target_type i r m)
  unfolding approval_refused
  approval_refused-Keeps action target_type i (ok u) m k = k refl
  approval_refused-Keeps action target_type i (err e) m k = search keeps_baselines depth 40

  pub approve-Keeps : (i : ℕ) → KeepsBaselines (approve actor i)
  unfolding approve
  approve-Keeps i =
      approval_refused-Keeps "approve_baseline" "baseline" i
        (require_approval actor.authorization_level (is_ai actor))
        (raise (service direct_approval_disabled))
        (λ _. KeepsBaselines-raise (service direct_approval_disabled))

ruleset step_rules =
    (keeps_baselines, profile_if-Keeps, creation_failed-Keeps, require_budget-Keeps)

module _ (config : Config) (actor : Actor) where
  pub create_workspace-Keeps :
      (new_id b r : ℕ) (git_ref : String)
      → KeepsBaselines (create_workspace config new_id actor b r git_ref)
  unfolding create_workspace link_workspace
  create_workspace-Keeps new_id b r git_ref = search step_rules depth 60 fits 4000

  pub create_initial_workspace-Keeps :
      (new_id d r : ℕ) (repository git_ref : String)
      → KeepsBaselines (create_initial_workspace config new_id actor d r repository git_ref)
  unfolding create_initial_workspace
  create_initial_workspace-Keeps new_id d r repository git_ref =
      search step_rules depth 60 fits 4000

  pub reject_workspace-Keeps :
      (i : ℕ) (reason : String) → KeepsBaselines (reject_workspace config actor i reason)
  unfolding reject_workspace
  reject_workspace-Keeps i reason = search step_rules depth 40 fits 4000

  pub reopen_workspace-Keeps : (i : ℕ) → KeepsBaselines (reopen_workspace config actor i)
  unfolding reopen_workspace
  reopen_workspace-Keeps i = search step_rules depth 40 fits 4000

  pub close_workspace-Keeps : (i : ℕ) → KeepsBaselines (close_workspace config actor i)
  unfolding close_workspace
  close_workspace-Keeps i = search step_rules depth 40 fits 4000

  pub save_workspace_element-Keeps :
      (element : EngineeringElement) (i : ℕ)
      → KeepsBaselines (save_workspace_element config actor element i)
  unfolding save_workspace_element
  save_workspace_element-Keeps element i = search step_rules depth 40 fits 4000

  pub add_workspace_relation-Keeps :
      (relation : EngineeringRelation) (i : ℕ)
      → KeepsBaselines (add_workspace_relation config actor relation i)
  unfolding add_workspace_relation
  add_workspace_relation-Keeps relation i = search step_rules depth 40 fits 4000

  pub prepare_for_approval-Keeps :
      (i : ℕ) (given : Bool) (p v : String) (inputs : ValidationInputs) (plan : Option BudgetPlan)
      → KeepsBaselines (prepare_for_approval config actor i given p v inputs plan)
  unfolding prepare_for_approval prepare_authorized prepare_loaded prepare_with bind_if_valid
      require_preparable bind_and_submit issues_recorded get_active_profile
  prepare_for_approval-Keeps i given p v inputs plan = search step_rules depth 60 fits 6000

  pub record_independent_review-Keeps :
      (i : ℕ) (accepted : Bool) (reason uri : String)
      → KeepsBaselines (record_independent_review config actor i accepted reason uri)
  unfolding record_independent_review
  record_independent_review-Keeps i accepted reason uri = search step_rules depth 40 fits 4000

  authorized-Keeps :
      (r : Result ValueError (Unit {0})) (m : Action Baseline)
      → r ≢ ok tt
      → KeepsBaselines (authorized r >> m)
  unfolding authorized
  authorized-Keeps (ok u) m h = absurd (h refl)
  authorized-Keeps (err e) m h = search keeps_baselines

  -- The governed approval stops an actor that may not approve before anything else.
  pub approve_workspace-Keeps :
      (new_id i : ℕ)
      → require_approval actor.authorization_level (is_ai actor) ≢ ok tt
      → KeepsBaselines (approve_workspace config new_id actor i)
  unfolding approve_workspace
  approve_workspace-Keeps new_id i h =
      authorized-Keeps (require_approval actor.authorization_level (is_ai actor))
        (approve_authorized config new_id actor i) h
