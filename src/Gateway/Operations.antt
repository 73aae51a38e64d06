-- ===== src/Gateway/Operations.antt =====
-- The public operations of the Gateway with their arguments, each run in a transaction of its own, and
-- the sequences of them. Whether an operation returned or raised, only the state after it is kept.
use multi_agent_aircraft_dev.Base.{ℕ, String, Bool, Option, List, [], ◌∷◌}
use multi_agent_aircraft_dev.Evidence.{ValidationInputs}
use multi_agent_aircraft_dev.Budget.{BudgetPlan}
use multi_agent_aircraft_dev.Models.{EngineeringElement, EngineeringRelation}
use multi_agent_aircraft_dev.Gateway.World.{
  Reconciler, Actor, Config, World, Action, pure, ◌>>◌, transactional,
}
use multi_agent_aircraft_dev.Gateway.Reconciliation.{reconcile}
use multi_agent_aircraft_dev.Gateway.Creation.{create_workspace, create_initial_workspace}
use multi_agent_aircraft_dev.Gateway.Decisions.{reject_workspace, reopen_workspace, close_workspace}
use multi_agent_aircraft_dev.Gateway.Editing.{save_workspace_element, add_workspace_relation}
use multi_agent_aircraft_dev.Gateway.Preparation.{prepare_for_approval}
use multi_agent_aircraft_dev.Gateway.Review.{record_independent_review}
use multi_agent_aircraft_dev.Gateway.Approval.{approve}
use multi_agent_aircraft_dev.Gateway.GovernedApproval.{approve_workspace}

-- The identifiers that an operation draws are its first arguments; a reconciliation comes with the
-- answers of the external systems. The operations run one after the other.
pub data Operation : Type 0 where
  create_call : ℕ → ℕ → ℕ → String → Operation
  create_initial_call : ℕ → ℕ → ℕ → String → String → Operation
  save_element_call : EngineeringElement → ℕ → Operation
  add_relation_call : EngineeringRelation → ℕ → Operation
  prepare_call : ℕ → Bool → String → String → ValidationInputs → Option BudgetPlan → Operation
  review_call : ℕ → Bool → String → String → Operation
  approve_call : ℕ → Operation
  approve_workspace_call : ℕ → ℕ → Operation
  reject_call : ℕ → String → Operation
  reopen_call close_call : ℕ → Operation
  reconcile_call : Reconciler → ℕ → Operation

unfoldable pub run : Config → Actor → Operation → Action (Unit {0})
run config actor (create_call n b r g) = create_workspace config n actor b r g >> pure tt
run config actor (create_initial_call n d r h g) =
    create_initial_workspace config n actor d r h g >> pure tt
run config actor (save_element_call e i) = save_workspace_element config actor e i >> pure tt
run config actor (add_relation_call r i) = add_workspace_relation config actor r i >> pure tt
run config actor (prepare_call i given p v inputs plan) =
    prepare_for_approval config actor i given p v inputs plan >> pure tt
run config actor (review_call i accepted reason uri) =
    record_independent_review config actor i accepted reason uri
run config actor (approve_call b) = approve actor b
run config actor (approve_workspace_call n i) = approve_workspace config n actor i >> pure tt
run config actor (reject_call i reason) = reject_workspace config actor i reason
run config actor (reopen_call i) = reopen_workspace config actor i
run config actor (close_call i) = close_workspace config actor i
run config actor (reconcile_call reconciler i) =
    reconcile reconciler config.digest (λ s. s) actor i >> pure tt

-- The state after one operation, whether it returned or raised.
unfoldable pub perform : Config → Actor × Operation → World → World
unfolding run
perform config (actor, operation) w = (transactional (run config actor operation) w).1

unfoldable pub perform_all : Config → List (Actor × Operation) → World → World
unfolding perform
perform_all config [] w = w
perform_all config (o ∷ os) w = perform_all config os (perform config o w)
