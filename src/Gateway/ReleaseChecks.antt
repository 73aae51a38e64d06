-- ===== src/Gateway/ReleaseChecks.antt =====
-- What has held when one of the tests of the governed approval passed.
use multi_agent_aircraft_dev.Base.{
  ℕ, String, ◌≡◌, sym, subst, ◌∙◌, Bool, true, false, not, Option, none, some, Option-cases, inl,
  inr, arith, ◌≤◌, ◌==◌, ==_iff, string_eq, option_eq, nat_eq,
}
use multi_agent_aircraft_dev.ChangeControl.{l3_approve, level_eq, require_approval}
use multi_agent_aircraft_dev.Workspaces.{Workspace, require_reconciled}
use multi_agent_aircraft_dev.Budget.{BudgetGate, BudgetPlan, make_plan, total_kopeks}
use multi_agent_aircraft_dev.Budget.Limit.{require_within_limit-cases}
use multi_agent_aircraft_dev.Audit.{AuditEvent, latest_stored_review}
use multi_agent_aircraft_dev.Profiles.{StandardProfile}
use multi_agent_aircraft_dev.Profiles.Registry.{get_profile, is_active}
use multi_agent_aircraft_dev.Changes
use multi_agent_aircraft_dev.Gateway.World.{Actor, is_ai, Config, Store, World}
use multi_agent_aircraft_dev.Gateway.Returns.{Returns, bind-Returns, refuse_if-Returns}
use multi_agent_aircraft_dev.Gateway.ReviewCheck.{CountsFor, review_current-CountsFor}
use multi_agent_aircraft_dev.Gateway.Service.{refuse_profile, profile_if, get_active_profile}
use multi_agent_aircraft_dev.Gateway.GovernedApproval.{
  check_budget, budget_evidence_ok, check_review, check_reconciled, require_reproduced,
  reproduce_with, check_reproduced, authorized, stored_inputs,
}

pub authorized-Returns :
    (actor : Actor) {w : World} {u : Unit {0}} {v : World}
    → Returns (authorized (require_approval actor.authorization_level (is_ai actor))) w u v
    → (is_ai actor ≡ false) × (actor.authorization_level ≡ l3_approve) × (v ≡ w)
unfolding require_approval authorized
authorized-Returns actor h = ground (arith, ==_iff actor.authorization_level l3_approve)

-- Where reviews are required, the latest review of the workspace counts for this actor's approval.
abbrev pub IsReviewed : Config → Actor → ℕ → Workspace → Store → Type 0
IsReviewed config actor i workspace store =
    config.review_required ≡ true
    → (review : AuditEvent) × (latest_stored_review i store.audit ≡ some review)
      × CountsFor actor workspace review

pub check_review-Returns :
    (config : Config) (actor : Actor) (i : ℕ) (workspace : Workspace) {w : World} {u : Unit {0}}
    {v : World}
    → Returns (check_review config actor i workspace) w u v
    → (v ≡ w) × IsReviewed config actor i workspace w.store
unfolding check_review
check_review-Returns config actor i workspace {w} h =
    elim (Option-cases (latest_stored_review i w.store.audit)) [
      | inl missing ↦ ground arith
      | inr (review, found) ↦ (
        ground (arith),
        λ required.
            (review, found, review_current-CountsFor actor workspace review (ground (arith))),
      )
    ]

pub check_reconciled-Returns :
    (hash : String) (workspace : Workspace) {w : World} {u : Unit {0}} {v : World}
    → Returns (check_reconciled (require_reconciled workspace (some hash))) w u v
    → (v ≡ w) × (workspace.reconciled ≡ true) × (workspace.reconciled_change_set_hash ≡ some hash)
unfolding check_reconciled require_reconciled
check_reconciled-Returns hash workspace h =
    ground (arith, ==_iff workspace.reconciled_change_set_hash (some hash))

-- The budget evidence that a workspace keeps is a plan within the limit of the gate.
pub record WithinBudget (gate : BudgetGate) (workspace : Workspace) : Type 0 where
  pub plan : BudgetPlan
  pub kept : workspace.validation_evidence.budget_plan ≡ some plan
  pub limit : workspace.validation_evidence.budget_limit_kopeks ≡ some gate.limit_kopeks
  pub within : total_kopeks plan ≤ gate.limit_kopeks

budget_evidence_ok-WithinBudget :
    (gate : BudgetGate) (workspace : Workspace)
    → budget_evidence_ok gate workspace.validation_evidence.budget_plan
        workspace.validation_evidence.budget_limit_kopeks
      ≡ true
    → WithinBudget gate workspace
unfolding budget_evidence_ok make_plan
budget_evidence_ok-WithinBudget gate workspace h =
    elim (Option-cases workspace.validation_evidence.budget_plan) [
      | inl missing ↦ absurd (ground arith)
      | inr (plan, kept) ↦ elim (require_within_limit-cases gate plan) [
        | inl (fits, _) ↦ record {
          plan = plan;
          kept = kept;
          limit = ground (
            arith,
            ==_iff workspace.validation_evidence.budget_limit_kopeks (some gate.limit_kopeks),
          );
          within = fits;
        }
        | inr (over, refused) ↦ absurd (ground (arith))
      ]
    ]

pub check_budget-Returns :
    (config_gate : Option BudgetGate) (workspace : Workspace) {w : World} {u : Unit {0}} {v : World}
    → Returns (check_budget config_gate workspace) w u v
    → (v ≡ w) × ((gate : BudgetGate) → config_gate ≡ some gate → WithinBudget gate workspace)
unfolding check_budget
check_budget-Returns none workspace h = (ground arith, λ gate e. absurd (ground arith))
check_budget-Returns (some gate) workspace {w} {u} {v} h =
    let (passed, same) = refuse_if-Returns _ _ h in
    (
      same,
      λ g e.
          subst (λ x. WithinBudget x workspace) (ground arith)
            (budget_evidence_ok-WithinBudget gate workspace (ground arith)),
    )

profile_if-Returns :
    (actor : Actor) (action : String) (found : Option StandardProfile) (active : Bool) {w : World}
    {p : StandardProfile} {v : World}
    → Returns (profile_if actor action found active) w p v
    → (found ≡ some p) × (active ≡ true) × (v ≡ w)
unfolding profile_if refuse_profile
profile_if-Returns actor action none active h = absurd (ground arith)
profile_if-Returns actor action (some q) true h = ground arith
profile_if-Returns actor action (some q) false h = absurd (ground arith)

pub get_active_profile-Returns :
    (actor : Actor) (action p n : String) {w : World} {profile : StandardProfile} {v : World}
    → Returns (get_active_profile actor action p n) w profile v
    → (get_profile p n w.store.profiles ≡ some profile)
      × (is_active p n w.store.profiles ≡ true)
      × (v ≡ w)
unfolding get_active_profile
get_active_profile-Returns actor action p n {w} h =
    profile_if-Returns actor action (get_profile p n w.store.profiles)
      (is_active p n w.store.profiles) h

-- The validation of the workspace comes out again from the evidence that it keeps: over the graph
-- with the workspace's changes, with the profile that it is bound to, which is active.
pub record IsReproduced (config : Config) (i : ℕ) (workspace : Workspace) (store : Store)
    : Type 0 where
  pub profile_id : String
  pub profile_version : String
  pub profile : StandardProfile
  pub bound_id : workspace.profile_id ≡ some profile_id
  pub bound_version : workspace.profile_version ≡ some profile_version
  pub found : get_profile profile_id profile_version store.profiles ≡ some profile
  pub active : is_active profile_id profile_version store.profiles ≡ true
  pub hash :
      workspace.validation_graph_hash
      ≡ some (
          config.validator.graph_hash
            (Changes.get_graph store.canonical i store.changes)
            profile
            (stored_inputs workspace.validation_evidence))

require_reproduced-Returns :
    (config : Config) (i : ℕ) (workspace : Workspace) (profile : StandardProfile) {w : World}
    {u : Unit {0}} {v : World}
    → Returns (require_reproduced config i workspace profile) w u v
    → (v ≡ w)
      × (workspace.validation_graph_hash
          ≡ some (
              config.validator.graph_hash
                (Changes.get_graph w.store.canonical i w.store.changes)
                profile
                (stored_inputs workspace.validation_evidence)))
unfolding require_reproduced
require_reproduced-Returns config i workspace profile {w} h =
    let bound : String =
      config.validator.graph_hash (Changes.get_graph w.store.canonical i w.store.changes) profile
        (stored_inputs workspace.validation_evidence) in
    let (same, v_w) = refuse_if-Returns (not (some bound == workspace.validation_graph_hash)) _ h in
    (v_w, sym ((==_iff (some bound) workspace.validation_graph_hash).0 (ground arith)))

reproduce_with-Returns :
    (config : Config) (actor : Actor) (i : ℕ) (workspace : Workspace) (p n : String) {w : World}
    {u : Unit {0}} {v : World}
    → workspace.profile_id ≡ some p
    → workspace.profile_version ≡ some n
    → Returns (reproduce_with config actor i workspace p n) w u v
    → (v ≡ w) × IsReproduced config i workspace w.store
unfolding reproduce_with
reproduce_with-Returns config actor i workspace p n {w} at_p at_n h =
    let (profile, v, got, rest) =
      bind-Returns (get_active_profile actor "approve_workspace" p n)
        (require_reproduced config i workspace) h in
    let (found, active, v_w) = get_active_profile-Returns actor "approve_workspace" p n got in
    let (end, hash) = require_reproduced-Returns config i workspace profile rest in
    (
      end ∙ v_w,
      record {
        profile_id = p;
        profile_version = n;
        profile = profile;
        bound_id = at_p;
        bound_version = at_n;
        found = found;
        active = active;
        hash =
            subst
              (λ x.
                workspace.validation_graph_hash
                ≡ some (
                    config.validator.graph_hash
                      (Changes.get_graph x.store.canonical i x.store.changes) profile
                      (stored_inputs workspace.validation_evidence)))
              v_w hash;
      },
    )

pub check_reproduced-Returns :
    (config : Config) (actor : Actor) (i : ℕ) (workspace : Workspace) {w : World} {u : Unit {0}}
    {v : World}
    → Returns (check_reproduced config actor i workspace) w u v
    → (v ≡ w) × IsReproduced config i workspace w.store
unfolding check_reproduced
check_reproduced-Returns config actor i workspace {w} h = elim (Option-cases workspace.profile_id) [
  | inl missing ↦ absurd (ground arith)
  | inr (p, at_p) ↦ elim (Option-cases workspace.profile_version) [
    | inl missing ↦ absurd (ground arith)
    | inr (n, at_n) ↦ reproduce_with-Returns config actor i workspace p n at_p at_n (ground arith)
  ]
]
