-- ===== src/Gateway/Review.antt =====
-- `record_independent_review` of
-- application/governed_gateway_service.py.
use multi_agent_aircraft_dev.Base.{
  ℕ, String, Bool, true, not, ◌&&◌, ◌||◌, Option, none, some, [], ◌∷◌, ◌==◌, nat_eq, string_eq,
  option_eq, is_blank,
}
use multi_agent_aircraft_dev.Dict.{lookup}
use multi_agent_aircraft_dev.Errors.{
  not_configured, reviewer_capability, review_needs_reason, review_needs_ready,
  review_needs_evidence, review_needs_reconciliation, review_stale, reviewer_is_preparer,
}
use multi_agent_aircraft_dev.ChangeControl.{request_eq, level_eq, l0_read, l3_approve}
use multi_agent_aircraft_dev.Workspaces
use multi_agent_aircraft_dev.Workspaces.{
  Workspace, WorkspaceState, state_eq, make_workspace, clear_reconciliation,
  clear_validation_evidence,
}
use multi_agent_aircraft_dev.Audit.{flag, success, stated, text, number, of_text}
use multi_agent_aircraft_dev.Models.{compute_change_set_hash}
use multi_agent_aircraft_dev.Changes
use multi_agent_aircraft_dev.Gateway.World.{
  Actor, is_ai, Config, Action, gets, or_raise, ◌>>=◌, ◌>>◌, refuse_if, record_action,
}

-- `not hash`: missing or empty
abbrev no_digest : Option String → Bool
no_digest none = true
no_digest (some t) = t == ""

unfoldable pub record_independent_review :
    Config → Actor → ℕ → Bool → String → String → Action (Unit {0})
record_independent_review config actor workspace_id accepted reason evidence_uri = do
  refuse_if (not (config.review_required && config.workspaces_configured)) not_configured
  refuse_if
      (actor.authorization_level == l0_read
        || (is_ai actor && actor.authorization_level == l3_approve))
      reviewer_capability
  refuse_if (is_blank reason || is_blank evidence_uri) review_needs_reason
  workspace ← or_raise (← gets (λ s. lookup workspace_id s.workspaces)) review_needs_ready
  refuse_if (not (workspace.state == Workspaces.ready_for_approval)) review_needs_ready
  refuse_if
      (no_digest workspace.validation_graph_hash || no_digest workspace.reconciled_change_set_hash)
      review_needs_evidence
  refuse_if (not (workspace.reconciled && config.changes_configured)) review_needs_reconciliation
  changes ← gets (λ s. Changes.get_changes workspace_id s.changes)
  refuse_if
      (not (
        some (compute_change_set_hash config.digest changes)
        == workspace.reconciled_change_set_hash))
      review_stale
  refuse_if (some actor.actor_id == workspace.validation_evidence.prepared_by_actor_id)
      reviewer_is_preparer
  record_action actor "independent_review" "workspace" (some workspace_id) success
      (some (stated reason))
      (("accepted", flag accepted)
        ∷ ("evidence_uri", text evidence_uri)
        ∷ ("validation_graph_hash", of_text workspace.validation_graph_hash)
        ∷ ("reconciled_change_set_hash", of_text workspace.reconciled_change_set_hash)
        ∷ ("workspace_version", number workspace.version)
        ∷ [])
