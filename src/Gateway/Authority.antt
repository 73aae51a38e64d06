-- ===== src/Gateway/Authority.antt =====
-- Who can release a baseline.
use multi_agent_aircraft_dev.Base.{
  ℕ, ◌≡◌, ◌≢◌, ◌⊎◌, refl, ◌∙◌, true, List, [], ◌∷◌, All, arith, ==_iff,
}
use multi_agent_aircraft_dev.Gateway.GovernedApproval.{authorized, approve_workspace}
use multi_agent_aircraft_dev.Errors.{
  Exception, service_of, approval_requires_human_l3, Result, ok, err,
}
use multi_agent_aircraft_dev.ChangeControl.{l3_approve, level_eq, require_approval}
use multi_agent_aircraft_dev.Gateway.World.{
  Actor, is_ai, Config, Store, World, settle, transactional,
}
use multi_agent_aircraft_dev.Gateway.Effects.{KeepsBaselines, keeps_baselines}
use multi_agent_aircraft_dev.Gateway.Releases.{
  create_workspace-Keeps, create_initial_workspace-Keeps, save_workspace_element-Keeps,
  add_workspace_relation-Keeps, prepare_for_approval-Keeps, record_independent_review-Keeps,
  approve-Keeps, approve_workspace-Keeps, reject_workspace-Keeps, reopen_workspace-Keeps,
  close_workspace-Keeps,
}
use multi_agent_aircraft_dev.Gateway.Publishes.{reconcile-Keeps}
use multi_agent_aircraft_dev.Gateway.Operations.{
  Operation, create_call, create_initial_call, save_element_call, add_relation_call, prepare_call,
  review_call, approve_call, approve_workspace_call, reject_call, reopen_call, close_call,
  reconcile_call, run, perform, perform_all,
}

-- An actor without the right to release: an AI, or one at another level than L3.
abbrev pub MayNotApprove : Actor → Type 0
MayNotApprove actor = (is_ai actor ≡ true) ⊎ (actor.authorization_level ≢ l3_approve)

MayNotApprove-refused :
    (actor : Actor)
    → MayNotApprove actor
    → require_approval actor.authorization_level (is_ai actor) ≢ ok tt
unfolding require_approval
MayNotApprove-refused actor h e = ground (arith, ==_iff actor.authorization_level l3_approve)

ruleset operation_rules = (
  keeps_baselines, create_workspace-Keeps, create_initial_workspace-Keeps,
  save_workspace_element-Keeps, add_workspace_relation-Keeps, prepare_for_approval-Keeps,
  record_independent_review-Keeps, approve-Keeps, reject_workspace-Keeps, reopen_workspace-Keeps,
  close_workspace-Keeps, reconcile-Keeps,
)

module _ (config : Config) where
  run-Keeps :
      (actor : Actor) (operation : Operation)
      → MayNotApprove actor
      → KeepsBaselines (run config actor operation)
  unfolding run
  run-Keeps actor (create_call n b r g) h = search operation_rules
  run-Keeps actor (create_initial_call n d r k g) h = search operation_rules
  run-Keeps actor (save_element_call e i) h = search operation_rules
  run-Keeps actor (add_relation_call r i) h = search operation_rules
  run-Keeps actor (prepare_call i given p v inputs plan) h = search operation_rules
  run-Keeps actor (review_call i accepted reason uri) h = search operation_rules
  run-Keeps actor (approve_call b) h = search operation_rules
  run-Keeps actor (approve_workspace_call n i) h =
      search
        (operation_rules, approve_workspace-Keeps config actor n i (MayNotApprove-refused actor h))
  run-Keeps actor (reject_call i reason) h = search operation_rules
  run-Keeps actor (reopen_call i) h = search operation_rules
  run-Keeps actor (close_call i) h = search operation_rules
  run-Keeps actor (reconcile_call reconciler i) h = search operation_rules

  settled :
      (before : Store) (r : Result Exception (Unit {0})) (v : World)
      → v.store.baselines ≡ before.baselines
      → (settle before (r, v)).1.store.baselines ≡ before.baselines
  unfolding settle
  settled before (ok u) v h = h
  settled before (err e) v h = refl

  perform-Keeps :
      (actor : Actor) (operation : Operation) (w : World)
      → MayNotApprove actor
      → (perform config (actor, operation) w).store.baselines ≡ w.store.baselines
  unfolding perform transactional
  perform-Keeps actor operation w h =
      let (r, v) = run config actor operation w in
      settled w.store r v ((run-Keeps actor operation h).at w)

  -- Actors that may not approve (an AI at any level, or anyone below or beside L3) never add, change
  -- or remove a baseline, whatever operations they call one after the other, in whatever order and
  -- with whatever arguments.
  pub perform_all-baselines :
      (steps : List (Actor × Operation)) (w : World)
      → All (λ step. MayNotApprove step.0) steps
      → (perform_all config steps w).store.baselines ≡ w.store.baselines
  unfolding perform_all
  perform_all-baselines [] w h = refl
  perform_all-baselines ((actor, operation) ∷ steps) w (h, hs) =
      perform_all-baselines steps (perform config (actor, operation) w) hs
      ∙ perform-Keeps actor operation w h

-- The governed approval by an actor that may not approve raises, and leaves everything as it was: the
-- store, the calls of external systems, and the audit trail too, which gets no denied event.
pub approve_workspace-refused :
    (config : Config) (new_id : ℕ) (actor : Actor) (i : ℕ) (w : World)
    → MayNotApprove actor
    → approve_workspace config new_id actor i w ≡ (err (service_of approval_requires_human_l3), w)
unfolding approve_workspace authorized require_approval
approve_workspace-refused config new_id actor i w h =
    ground (arith, ==_iff actor.authorization_level l3_approve)
