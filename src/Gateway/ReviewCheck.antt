-- ===== src/Gateway/ReviewCheck.antt =====
-- When a review counts for an approval, in application/governed_gateway_service.py.
use multi_agent_aircraft_dev.Base.{
  ℕ, String, ◌≡◌, ◌≢◌, refl, ap, true, Option, none, some, arith, ==_iff, string_eq, option_eq,
  nat_eq,
}
use multi_agent_aircraft_dev.Workspaces.{Workspace}
use multi_agent_aircraft_dev.Audit.{
  MetaValue, null, text, number, flag, versions, of_text, metadata_at, AuditEvent,
}
use multi_agent_aircraft_dev.Gateway.World.{Actor}
use multi_agent_aircraft_dev.Gateway.GovernedApproval.{review_current, is_true, is_number, is_text}

-- The review accepts this validation, change set and version of the workspace, and its author neither
-- prepared the workspace nor is the actor.
pub record CountsFor (actor : Actor) (workspace : Workspace) (review : AuditEvent) : Type 0 where
  pub accepted : metadata_at "accepted" review ≡ flag true
  pub validation :
      metadata_at "validation_graph_hash" review ≡ of_text workspace.validation_graph_hash
  pub change_set :
      metadata_at "reconciled_change_set_hash" review ≡ of_text workspace.reconciled_change_set_hash
  pub version : metadata_at "workspace_version" review ≡ number workspace.version
  pub not_by_preparer : some review.actor_id ≢ workspace.validation_evidence.prepared_by_actor_id
  pub not_by_approver : review.actor_id ≢ actor.actor_id

is_true-flag : (v : MetaValue) → is_true v ≡ true → v ≡ flag true
is_true-flag (flag b) h = ap flag h
is_true-flag null h = absurd (ground arith)
is_true-flag (text t) h = absurd (ground arith)
is_true-flag (number n) h = absurd (ground arith)
is_true-flag (versions vs) h = absurd (ground arith)

is_number-number : (v : MetaValue) (n : ℕ) → is_number v n ≡ true → v ≡ number n
is_number-number (number m) n h = ap number ((==_iff m n).0 h)
is_number-number null n h = absurd (ground arith)
is_number-number (text t) n h = absurd (ground arith)
is_number-number (flag b) n h = absurd (ground arith)
is_number-number (versions vs) n h = absurd (ground arith)

is_text-of_text : (v : MetaValue) (t : Option String) → is_text v t ≡ true → v ≡ of_text t
is_text-of_text null none h = refl
is_text-of_text (text u) (some t) h = ap text ((==_iff u t).0 h)
is_text-of_text null (some t) h = absurd (ground arith)
is_text-of_text (text u) none h = absurd (ground arith)
is_text-of_text (number n) t h = absurd (ground arith)
is_text-of_text (flag b) t h = absurd (ground arith)
is_text-of_text (versions vs) t h = absurd (ground arith)

pub review_current-CountsFor :
    (actor : Actor) (workspace : Workspace) (review : AuditEvent)
    → review_current actor workspace review ≡ true
    → CountsFor actor workspace review
unfolding review_current
review_current-CountsFor actor workspace review h = record {
  accepted = is_true-flag (metadata_at "accepted" review) (ground (arith));
  validation =
      is_text-of_text (metadata_at "validation_graph_hash" review) workspace.validation_graph_hash
        (ground (arith));
  change_set =
      is_text-of_text (metadata_at "reconciled_change_set_hash" review)
        workspace.reconciled_change_set_hash (ground (arith));
  version =
      is_number-number (metadata_at "workspace_version" review) workspace.version (ground (arith));
  not_by_preparer =
      ground
        (arith, ==_iff (some review.actor_id) workspace.validation_evidence.prepared_by_actor_id);
  not_by_approver = ground (arith, ==_iff review.actor_id actor.actor_id);
}
