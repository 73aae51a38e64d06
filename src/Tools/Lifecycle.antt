-- ===== src/Tools/Lifecycle.antt =====
-- application/tool_lifecycle.py: the reviews and the revocation of custom tools. `urlsplit` of the
-- standard library is a parameter: whether a text is an HTTPS address with a host.
use multi_agent_aircraft_dev.Base.{
  String, Bool, true, false, not, ◌&&◌, ◌||◌, Option, none, some, List, [], ◌∷◌, ◌==◌,
  if◌then◌else◌, select, string_eq, is_blank, text_length, leb, join,
}
use multi_agent_aircraft_dev.Dict.{lookup}
use multi_agent_aircraft_dev.Errors.{ValueError, value_error, Result, ok, err, ◌>>◌, raise_if}
use multi_agent_aircraft_dev.ChangeControl.{l2_modify_workspace, l3_approve, level_eq}
use multi_agent_aircraft_dev.Audit.{
  human, actor_type_eq, AuditResult, success, denied, text, Reason, stated, raised, AuditEvent,
  record_event, later, Stamps,
}
use multi_agent_aircraft_dev.Gateway.World.{Actor}
use multi_agent_aircraft_dev.Tools.{
  untrusted, sandbox, ToolLifecycleState, pending_review, active, rejected, revoked, tool_state_eq,
  ToolDescriptor, ToolStore,
}
use multi_agent_aircraft_dev.Tools.Store.{ToolRegistry}

-- What the tool services keep: the registry's tools and the audit events.
pub record ToolWorld : Type 0 where
  pub tools : ToolStore
  pub audit : List AuditEvent
  pub stamps : Stamps

-- `ToolLifecycleDenied`, one constructor for each message.
pub data LifecycleDenied : Type 0 where
  listing_by_human listing_needs_l2 review_by_human review_needs_l3 : LifecycleDenied
  not_found not_pending revocation_by_human revocation_needs_l2 : LifecycleDenied
  revocation_needs_reason not_revocable : LifecycleDenied
  refused : ValueError → LifecycleDenied

-- `ToolReviewDecision`
pub record ToolReviewDecision : Type 0 where
  pub accepted : Bool
  pub reason : String
  pub evidence_uri : Option String

-- a field that breaks its constraint, or an acceptance without evidence
pub data DecisionError : Type 0 where
  decision_field decision_evidence : DecisionError

-- `self.evidence_uri or ""`
abbrev pub uri_text : Option String → String
uri_text none = ""
uri_text (some u) = u

-- The constructor of `ToolReviewDecision`: its fields, then `validate_evidence`.
unfoldable pub make_decision :
    (String → Bool) → Bool → String → Option String → Result DecisionError ToolReviewDecision
make_decision is_https accepted reason evidence_uri = do
  raise_if
      (not (
        leb 3 (text_length reason)
        && leb (text_length reason) 4000
        && leb (text_length (uri_text evidence_uri)) 2048))
      decision_field
  raise_if (accepted && not (is_https (uri_text evidence_uri))) decision_evidence
  ok (record { accepted = accepted; reason = reason; evidence_uri = evidence_uri })

abbrev pub is_human : Actor → Bool
is_human actor = actor.actor_type == human

abbrev pub is_l2_or_l3 : Actor → Bool
is_l2_or_l3 actor =
    actor.authorization_level == l2_modify_workspace || actor.authorization_level == l3_approve

-- `_record`
unfoldable pub record_lifecycle : Actor → String → AuditResult → Reason → ToolWorld → ToolWorld
unfolding record_event
record_lifecycle actor tool_id result reason w = record w {
  audit =
      record_event
        (record {
          id = (w.stamps 0).id;
          timestamp = (w.stamps 0).timestamp;
          actor_id = actor.actor_id;
          actor_type = actor.actor_type;
          authorization_level = actor.authorization_level;
          action = "tool_lifecycle";
          target_type = "external_tool";
          target_id = none;
          result = result;
          reason = some reason;
          metadata = ("tool_id", text tool_id) ∷ [];
        })
        w.audit;
  stamps = later w.stamps;
}

unfoldable pub list_pending :
    ToolRegistry → Actor → ToolWorld → Result LifecycleDenied (List ToolDescriptor)
unfolding select
list_pending registry actor w = do
  raise_if (not (is_human actor)) listing_by_human
  raise_if (not (is_l2_or_l3 actor)) listing_needs_l2
  ok (select (λ t. t.lifecycle_state == pending_review) (registry.list_tools false w.tools))

-- `updated` and `reason` of a review
abbrev pub decided : ToolReviewDecision → ToolDescriptor → ToolDescriptor
decided decision current =
    if decision.accepted
    then record current { lifecycle_state = active; trust_level = sandbox; enabled = true }
    else record current { lifecycle_state = rejected; trust_level = untrusted; enabled = false }

-- `f"{decision.evidence_uri}"`
abbrev pub shown : Option String → String
shown none = "None"
shown (some u) = u

abbrev pub review_reason : ToolReviewDecision → Reason
review_reason decision = stated (
    if decision.accepted
    then join "tool approved for SANDBOX; evidence="
        (join (shown decision.evidence_uri) (join "; " decision.reason))
    else join "tool review rejected; " decision.reason)

-- The registry's answer to a transition, and its record.
unfoldable pub finish :
    Actor
    → String
    → Reason
    → ToolWorld
    → Result ValueError (ToolDescriptor × ToolStore)
    → Result LifecycleDenied ToolDescriptor × ToolWorld
unfolding record_lifecycle
finish actor tool_id reason w (err e) =
    (err (refused e), record_lifecycle actor tool_id denied (raised (value_error e)) w)
finish actor tool_id reason w (ok (tool, tools)) =
    (ok tool, record_lifecycle actor tool_id success reason (record w { tools = tools }))

-- `state.value`
abbrev pub state_value : ToolLifecycleState → String
state_value pending_review = "pending_review"
state_value active = "active"
state_value rejected = "rejected"
state_value revoked = "revoked"

unfoldable pub review_found :
    ToolRegistry
    → String
    → ToolReviewDecision
    → Actor
    → ToolWorld
    → Option ToolDescriptor
    → Result LifecycleDenied ToolDescriptor × ToolWorld
unfolding finish record_lifecycle
review_found registry tool_id decision actor w none =
    (err not_found, record_lifecycle actor tool_id denied (stated "tool not found") w)
review_found registry tool_id decision actor w (some current) =
    if current.lifecycle_state == pending_review
    then finish actor tool_id (review_reason decision) w
        (registry.move tool_id pending_review (decided decision current) w.tools)
    else (
      err not_pending,
      record_lifecycle actor tool_id denied
          (stated (join "tool is not pending review: " (state_value current.lifecycle_state))) w,
    )

unfoldable pub review :
    ToolRegistry
    → String
    → ToolReviewDecision
    → Actor
    → ToolWorld
    → Result LifecycleDenied ToolDescriptor × ToolWorld
unfolding lookup review_found
review registry tool_id decision actor w =
    if not (is_human actor)
    then (err review_by_human, w)
    else if not (actor.authorization_level == l3_approve)
    then (err review_needs_l3, w)
    else review_found registry tool_id decision actor w (lookup tool_id w.tools)

abbrev pub revocation : ToolDescriptor → ToolDescriptor
revocation current = record current {
  lifecycle_state = revoked;
  trust_level = untrusted;
  enabled = false;
}

-- `stripped`: the reason without the white space around it
unfoldable pub revoke_found :
    ToolRegistry
    → String
    → Actor
    → String
    → ToolWorld
    → Option ToolDescriptor
    → Result LifecycleDenied ToolDescriptor × ToolWorld
unfolding finish record_lifecycle
revoke_found registry tool_id actor stripped w none =
    (err not_found, record_lifecycle actor tool_id denied (stated "tool not found") w)
revoke_found registry tool_id actor stripped w (some current) =
    if current.lifecycle_state == rejected || current.lifecycle_state == revoked
    then (err not_revocable, w)
    else finish actor tool_id (stated (join "tool revoked; " stripped)) w
        (registry.move tool_id current.lifecycle_state (revocation current) w.tools)

-- `strip` is `str.strip` of Python.
unfoldable pub revoke :
    ToolRegistry
    → (String → String)
    → String
    → Actor
    → String
    → ToolWorld
    → Result LifecycleDenied ToolDescriptor × ToolWorld
unfolding is_blank lookup revoke_found
revoke registry strip tool_id actor reason w =
    if not (is_human actor)
    then (err revocation_by_human, w)
    else if not (is_l2_or_l3 actor)
    then (err revocation_needs_l2, w)
    else if is_blank reason
    then (err revocation_needs_reason, w)
    else revoke_found registry tool_id actor (strip reason) w (lookup tool_id w.tools)
