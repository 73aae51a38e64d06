-- ===== src/Workspaces.antt =====
-- domain/workspaces.py: a controlled workspace, its evidence methods and the gate of its lifecycle.
pub mod Registry
pub mod Updates
pub mod History
mod Tests
use multi_agent_aircraft_dev.Base.{
  ℕ, String, ◌≡◌, ◌↔◌, refl, Bool, true, false, not, ◌&&◌, ◌||◌, Option, none, some, List, [], ◌∷◌,
  arith, Eq, ◌==◌, nat_eq, nat_beq, string_eq, option_eq, list_eq, is_none, is_some, is_empty,
  contains, text_length, if◌then◌else◌,
}
use multi_agent_aircraft_dev.Errors.{
  ValueError, field_constraint, initial_workspace_needs_draft, two_origins, profile_immutable,
  evidence_needs_active, graph_hash_length, clear_needs_active, reconcile_needs_ready,
  change_set_hash_length, clear_reconciliation_needs_active, not_reconciled, reconciliation_stale,
  invalid_workspace_transition, Result, ok, err, ◌>>=◌, ◌>>◌, raise_if,
}
use multi_agent_aircraft_dev.Evidence.{
  ExternalVersion, version_eq, ValidationEvidence, evidence_eq, no_evidence,
}

pub data WorkspaceState : Type 0 where
  active ready_for_approval approved closed : WorkspaceState

abbrev pub state_rank : WorkspaceState → ℕ
state_rank active = 0
state_rank ready_for_approval = 1
state_rank approved = 2
state_rank closed = 3

pub state_beq_iff :
    (a b : WorkspaceState) → (nat_beq (state_rank a) (state_rank b) ≡ true) ↔ (a ≡ b)
state_beq_iff a b = ground arith

instance abbrev pub state_eq : Eq WorkspaceState
state_eq = record { beq = λ a b. nat_beq (state_rank a) (state_rank b); beq_iff = state_beq_iff }

pub record Workspace : Type 0 where
  pub id : ℕ
  pub version : ℕ
  pub source_baseline_id : Option ℕ
  pub source_git_commit : String
  pub change_request_id : ℕ
  pub source_git_repository : Option String
  pub source_external_versions : List ExternalVersion
  pub project_draft_id : Option ℕ
  pub git_ref : String
  pub profile_id : Option String
  pub profile_version : Option String
  pub validation_graph_hash : Option String
  pub validation_evidence : ValidationEvidence
  pub reconciled : Bool
  pub reconciled_change_set_hash : Option String
  pub reconciliation_external_versions : List ExternalVersion
  pub state : WorkspaceState

-- `min_length=1` of an optional text, and the 64 characters of an optional hash.
abbrev empty_text : Option String → Bool
empty_text none = false
empty_text (some t) = t == ""

abbrev not_a_digest : Option String → Bool
not_a_digest none = false
not_a_digest (some t) = not (text_length t == 64)

-- The constraints of the fields.
unfoldable pub fields_ok : Workspace → Bool
fields_ok w = not (
    w.source_git_commit == ""
    || w.git_ref == ""
    || empty_text w.source_git_repository
    || empty_text w.profile_id
    || empty_text w.profile_version
    || not_a_digest w.validation_graph_hash
    || not_a_digest w.reconciled_change_set_hash)

unfoldable pub require_single_origin : Workspace → Result ValueError Workspace
require_single_origin w =
    if is_none w.source_baseline_id
    then (raise_if (is_none w.project_draft_id || is_none w.source_git_repository)
          initial_workspace_needs_draft
        >> ok w)
    else (raise_if (is_some w.project_draft_id) two_origins >> ok w)

-- `Workspace(...)`: the fields, then the validator of the whole model.
unfoldable pub make_workspace : Workspace → Result ValueError Workspace
unfolding fields_ok require_single_origin
make_workspace w = do raise_if (not (fields_ok w)) field_constraint; require_single_origin w

unfoldable pub bind_profile : Workspace → String → String → Result ValueError Workspace
bind_profile w profile_id profile_version = do
  raise_if (is_some w.profile_id && not (w.profile_id == some profile_id)) profile_immutable
  raise_if (is_some w.profile_version && not (w.profile_version == some profile_version))
      profile_immutable
  ok (record w { profile_id = some profile_id; profile_version = some profile_version })

unfoldable pub bind_validation_evidence :
    Workspace → String → ValidationEvidence → Result ValueError Workspace
bind_validation_evidence w graph_hash evidence = do
  raise_if (not (w.state == active)) evidence_needs_active
  raise_if (not (text_length graph_hash == 64)) graph_hash_length
  ok (record w { validation_graph_hash = some graph_hash; validation_evidence = evidence })

unfoldable pub clear_validation_evidence : Workspace → Result ValueError Workspace
clear_validation_evidence w = do
  raise_if (not (w.state == active)) clear_needs_active
  ok (record w { validation_graph_hash = none; validation_evidence = no_evidence })

unfoldable pub mark_reconciled :
    Workspace → String → List ExternalVersion → Result ValueError Workspace
mark_reconciled w change_set_hash external_versions = do
  raise_if (not (w.state == ready_for_approval)) reconcile_needs_ready
  raise_if (not (text_length change_set_hash == 64)) change_set_hash_length
  ok (record w {
    reconciled = true;
    reconciled_change_set_hash = some change_set_hash;
    reconciliation_external_versions = external_versions;
  })

unfoldable pub clear_reconciliation : Workspace → Result ValueError Workspace
clear_reconciliation w = do
  raise_if (not (w.state == active)) clear_reconciliation_needs_active
  ok (record w {
    reconciled = false;
    reconciled_change_set_hash = none;
    reconciliation_external_versions = [];
  })

-- `not hash`: missing or empty
abbrev no_text : Option String → Bool
no_text none = true
no_text (some t) = t == ""

unfoldable pub require_reconciled : Workspace → Option String → Result ValueError (Unit {0})
require_reconciled w current_change_set_hash = do
  raise_if (not w.reconciled || no_text w.reconciled_change_set_hash) not_reconciled
  raise_if
      (is_some current_change_set_hash
        && not (w.reconciled_change_set_hash == current_change_set_hash))
      reconciliation_stale

-- `WorkspaceGate._TRANSITIONS`
abbrev pub transitions : WorkspaceState → List WorkspaceState
transitions active = ready_for_approval ∷ closed ∷ []
transitions ready_for_approval = active ∷ approved ∷ []
transitions approved = closed ∷ []
transitions closed = []

unfoldable pub require_transition : WorkspaceState → WorkspaceState → Result ValueError (Unit {0})
unfolding contains
require_transition current target =
    if current == target
    then ok tt
    else raise_if (not (contains target (transitions current))) invalid_workspace_transition
