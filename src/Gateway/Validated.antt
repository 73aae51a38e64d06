-- ===== src/Gateway/Validated.antt =====
-- What a preparation that returned has validated, in application/governed_gateway_service.py.
use multi_agent_aircraft_dev.Base.{
  ℕ, String, ◌≡◌, refl, ap, subst, ◌∙◌, Bool, true, ◌||◌, Option, none, some, inl, inr,
  Option-cases, arith, ◌==◌, string_eq, option_eq, is_empty, nat_eq,
}
use multi_agent_aircraft_dev.Dict.{lookup}
use multi_agent_aircraft_dev.Errors.{ok, elements_must_be_omitted, exact_profile_required}
use multi_agent_aircraft_dev.ChangeControl.{ChangeRequest}
use multi_agent_aircraft_dev.Evidence.{ValidationInputs}
use multi_agent_aircraft_dev.Budget.{BudgetGate, BudgetPlan}
use multi_agent_aircraft_dev.Budget.Limit.{require_within_limit_lem}
use multi_agent_aircraft_dev.Workspaces.{Workspace}
use multi_agent_aircraft_dev.Models.{EngineeringGraph}
use multi_agent_aircraft_dev.Profiles.{StandardProfile}
use multi_agent_aircraft_dev.Profiles.Registry.{get_profile, is_active}
use multi_agent_aircraft_dev.Validation.{ValidationResult, valid}
use multi_agent_aircraft_dev.Validation.Engine.{
  HashPayload, EngineInputs, validate_graph, given, graph_hash, engine,
}
use multi_agent_aircraft_dev.Validation.Conformance.{Conforms, validate_graph-Conforms}
use multi_agent_aircraft_dev.Changes
use multi_agent_aircraft_dev.Gateway.World.{Actor, Config, World, ◌>>=◌, ◌>>◌, refuse_if}
use multi_agent_aircraft_dev.Gateway.Returns.{
  Returns, bind-Returns, check-Returns, refuse_if-Returns,
}
use multi_agent_aircraft_dev.Gateway.ReleaseChecks.{get_active_profile-Returns}
use multi_agent_aircraft_dev.Gateway.Closing.{load_workflow-Returns}
use multi_agent_aircraft_dev.Gateway.Service.{load_workflow, require_modify, get_active_profile}
use multi_agent_aircraft_dev.Gateway.Preparation.{
  require_preparable, over_limit, require_budget, bind_if_valid, prepare_with, prepare_loaded,
  prepare_authorized, prepare_for_approval, evidence_of,
}

require_preparable-Returns :
    (workspace : Workspace) (request : ChangeRequest) (p n : String) {w : World} {u : Unit {0}}
    {v : World}
    → Returns (require_preparable workspace request p n) w u v
    → v ≡ w
unfolding require_preparable
require_preparable-Returns workspace request p n h = ground arith

require_budget-Returns :
    (actor : Actor) (i : ℕ) (gate : Option BudgetGate) (plan : Option BudgetPlan) {w : World}
    {u : Unit {0}} {v : World}
    → Returns (require_budget actor i gate plan) w u v
    → v ≡ w
unfolding require_budget over_limit
require_budget-Returns actor i none plan h = ground arith
require_budget-Returns actor i (some gate) none h = absurd (ground arith)
require_budget-Returns actor i (some gate) (some plan) h =
    elim (require_within_limit_lem gate plan) [
      | inl (_, fits) ↦ ground arith
      | inr (_, over) ↦ absurd (ground arith)
    ]

module _ (config : Config) (actor : Actor) (i : ℕ) (p n : String) (inputs : ValidationInputs)
    (plan : Option BudgetPlan) where
  -- the issues and the hash are those of the workspace's graph, as it is when it is read
  prepare_with-Returns :
      (workspace : Workspace) (request : ChangeRequest) (profile : StandardProfile) (w : World)
      {result : ValidationResult} {v : World}
      → Returns (prepare_with config actor i workspace request p n inputs plan profile) w result v
      → (let graph = Changes.get_graph w.store.canonical i w.store.changes in
          let validation = config.validator.validate graph profile inputs in
          (result.issues ≡ validation.issues) × (result.graph_hash ≡ validation.graph_hash))
  unfolding prepare_with
  prepare_with-Returns workspace request profile w h =
      let graph = Changes.get_graph w.store.canonical i w.store.changes in
      let validation = config.validator.validate graph profile inputs in
      let reported : ValidationResult = record {
        profile_id = p;
        profile_version = n;
        graph_hash = validation.graph_hash;
        issues = validation.issues;
      } in
      let (_, u, _, last) =
        bind-Returns
          (bind_if_valid actor i workspace request p n reported
            (evidence_of actor inputs config.budget_gate plan))
          (λ _ x. (ok reported, x)) {w = w} h in
      (ground arith, ground arith)

  -- The result is that of the validation of the workspace's graph against an active profile.
  pub record IsValidated (w : World) (result : ValidationResult) : Type 0 where
    pub profile : StandardProfile
    pub found : get_profile p n w.store.profiles ≡ some profile
    pub active : is_active p n w.store.profiles ≡ true
    pub issues :
        result.issues
        ≡ (config.validator.validate
            (Changes.get_graph w.store.canonical i w.store.changes)
            profile
            inputs).issues
    pub hash :
        result.graph_hash
        ≡ (config.validator.validate
            (Changes.get_graph w.store.canonical i w.store.changes)
            profile
            inputs).graph_hash

  prepare_loaded-Returns :
      (workflow : Workspace × ChangeRequest) (w : World) {result : ValidationResult} {v : World}
      → Returns (prepare_loaded config actor i p n inputs plan workflow) w result v
      → IsValidated w result
  unfolding prepare_loaded
  prepare_loaded-Returns (workspace, request) w {result} {v} h =
      let profile_next = λ (profile : StandardProfile).
        prepare_with config actor i workspace request p n inputs plan profile in
      let profile_step = get_active_profile actor "prepare_for_approval" p n >>= profile_next in
      let (_, first) =
        check-Returns (require_preparable workspace request p n)
          (require_budget actor i config.budget_gate plan >> profile_step) (Unit {0}) {w = w}
          (λ _ _ k. (require_preparable-Returns workspace request p n k, tt)) h in
      let (_, second) =
        check-Returns (require_budget actor i config.budget_gate plan) profile_step (Unit {0})
          {w = w} (λ _ _ k. (require_budget-Returns actor i config.budget_gate plan k, tt)) first in
      let (profile, u, got, rest) =
        bind-Returns (get_active_profile actor "prepare_for_approval" p n) profile_next {w = w}
          second in
      let (found, active, same) = get_active_profile-Returns actor "prepare_for_approval" p n got in
      let (issues, hash) =
        prepare_with-Returns workspace request profile w
          (subst (λ x. Returns (profile_next profile) x result v) same rest) in
      record { profile = profile; found = found; active = active; issues = issues; hash = hash }

  authorized_first :
      (graph_given : Bool) (w : World) {result : ValidationResult} {v : World}
      → Returns (prepare_for_approval config actor i graph_given p n inputs plan) w result v
      → Returns (prepare_authorized config actor i graph_given p n inputs plan) w result v
  unfolding prepare_for_approval require_modify
  authorized_first graph_given w h = elim (Option-cases (lookup i w.store.workspaces)) [
    | inl missing ↦ absurd (ground arith)
    | inr (workspace, stored) ↦ ground arith
  ]

  prepare_authorized-Returns :
      (graph_given : Bool) (w : World) {result : ValidationResult} {v : World}
      → Returns (prepare_authorized config actor i graph_given p n inputs plan) w result v
      → Returns
          (load_workflow config i >>= prepare_loaded config actor i p n inputs plan)
          w
          result
          v
  unfolding prepare_authorized
  prepare_authorized-Returns graph_given w h =
      let body = load_workflow config i >>= prepare_loaded config actor i p n inputs plan in
      let named = refuse_if (p == "" || n == "") exact_profile_required in
      let (_, first) =
        check-Returns (refuse_if graph_given elements_must_be_omitted) (named >> body) (Unit {0})
          {w = w} (λ _ _ k. ((refuse_if-Returns _ _ k).1, tt)) h in
      (check-Returns named body (Unit {0}) {w = w} (λ _ _ k. ((refuse_if-Returns _ _ k).1, tt))
        first).1

  prepare_for_approval-IsValidated :
      (graph_given : Bool) (w : World) {result : ValidationResult} {v : World}
      → Returns (prepare_for_approval config actor i graph_given p n inputs plan) w result v
      → IsValidated w result
  prepare_for_approval-IsValidated graph_given w {result} {v} h =
      let (workflow, u, loaded, rest) =
        bind-Returns (load_workflow config i) (prepare_loaded config actor i p n inputs plan)
          {w = w} (prepare_authorized-Returns graph_given w (authorized_first graph_given w h)) in
      let (same, _, _) = load_workflow-Returns config i loaded in
      prepare_loaded-Returns workflow w (
        subst (λ x. Returns (prepare_loaded config actor i p n inputs plan workflow) x result v)
          same rest)

hash_of :
    (digest : HashPayload → String) (graph : EngineeringGraph) (profile : StandardProfile)
    (inputs : EngineInputs)
    → (validate_graph digest graph profile inputs).graph_hash
      ≡ graph_hash digest graph profile inputs
unfolding validate_graph
hash_of digest graph profile inputs = refl

-- A preparation with the validation engine that returned a result without issues has validated the
-- graph of the workspace, as it was when the call began, against a stored and active profile of the
-- name and version asked for: the graph conforms to it with the evidence given, and the hash in the
-- result is that of exactly this graph, this profile and this evidence.
pub prepare_for_approval-Conforms :
    (digest : HashPayload → String) (config : Config) (actor : Actor) (i : ℕ) (graph_given : Bool)
    (p n : String) (inputs : ValidationInputs) (plan : Option BudgetPlan) (w : World)
    (result : ValidationResult) (v : World)
    → config.validator ≡ engine digest
    → Returns (prepare_for_approval config actor i graph_given p n inputs plan) w result v
    → valid result ≡ true
    → (profile : StandardProfile) × (get_profile p n w.store.profiles ≡ some profile)
      × (is_active p n w.store.profiles ≡ true)
      × Conforms
          (Changes.get_graph w.store.canonical i w.store.changes)
          profile
          (given digest inputs)
      × (result.graph_hash
          ≡ graph_hash digest
              (Changes.get_graph w.store.canonical i w.store.changes)
              profile
              (given digest inputs))
unfolding validate_graph engine
prepare_for_approval-Conforms digest config actor i graph_given p n inputs plan w result v uses h
      passed =
    let graph = Changes.get_graph w.store.canonical i w.store.changes in
    let seen = prepare_for_approval-IsValidated config actor i p n inputs plan graph_given w h in
    let ran = ap (λ x. x.validate graph seen.profile inputs) uses in
    (
      seen.profile,
      seen.found,
      seen.active,
      (validate_graph-Conforms graph seen.profile (given digest inputs) digest).0
          (subst (λ x. is_empty x ≡ true) (seen.issues ∙ ap (λ r. r.issues) ran) passed),
      seen.hash
          ∙ ap (λ r. r.graph_hash) ran
          ∙ hash_of digest graph seen.profile (given digest inputs),
    )
