-- ===== src/Tools/Invocation.antt =====
-- `ToolInvocationService` of application/tool_invocation.py. The execution adapters are parameters:
-- what each returns, or the text of the exception that it raises.
use multi_agent_aircraft_dev.Base.{
  ℕ, String, Bool, true, false, not, Option, none, some, List, [], ◌∷◌, ◌==◌, string_eq,
  if◌then◌else◌, select, any,
}
use multi_agent_aircraft_dev.Dict.{lookup}
use multi_agent_aircraft_dev.Errors.{ValueError, Result, ok, err, ◌>>◌}
use multi_agent_aircraft_dev.ChangeControl.{l2_modify_workspace, l3_approve, level_eq}
use multi_agent_aircraft_dev.Audit.{
  AuditResult, success, failure, denied, text, stated, record_event, later,
}
use multi_agent_aircraft_dev.Gateway.World.{Actor}
use multi_agent_aircraft_dev.Tools.{
  ToolTrustLevel, untrusted, pending_review, active, tool_state_eq, ToolPermission, ToolDescriptor,
  ToolStore,
}
use multi_agent_aircraft_dev.Tools.Policy.{
  Denied, ToolInvocationRequest, require_minimum_trust, authorize,
}
use multi_agent_aircraft_dev.Tools.Store.{ToolRegistry}
use multi_agent_aircraft_dev.Tools.Lifecycle.{ToolWorld, is_human}

-- What the service raises: a denial by the policy or by the service itself, an error of the registry,
-- or the exception of an adapter.
pub data InvocationError : Type 0 where
  by_policy : Denied → InvocationError
  tool_not_registered no_adapter : InvocationError
  registration_by_human registration_needs_l2 l3_operation_declared : InvocationError
  by_registry : ValueError → InvocationError
  by_adapter : String → InvocationError

-- `output` is its JSON text.
pub record ToolInvocationResult : Type 0 where
  pub tool_id : String
  pub operation : String
  pub ok_flag : Bool
  pub output : String
  pub error : Option String

-- `ToolExecutionAdapter.execute`, on the JSON text of the arguments
abbrev pub Adapter : Type 0
Adapter = ToolDescriptor → String → String → Result String String

-- The message of a denial.
abbrev pub Message : Type 0
Message = InvocationError → String

-- `_record`
unfoldable pub record_invocation :
    Actor → AuditResult → String → String → String → ToolWorld → ToolWorld
unfolding record_event
record_invocation actor result reason tool_id operation w = record w {
  audit =
      record_event
        (record {
          id = (w.stamps 0).id;
          timestamp = (w.stamps 0).timestamp;
          actor_id = actor.actor_id;
          actor_type = actor.actor_type;
          authorization_level = actor.authorization_level;
          action = "tool_invoke";
          target_type = "external_tool";
          target_id = none;
          result = result;
          reason = some (stated reason);
          metadata = ("tool_id", text tool_id) ∷ ("operation", text operation) ∷ [];
        })
        w.audit;
  stamps = later w.stamps;
}

abbrev pub lift_policy {ℓ} : {A : Type ℓ} → Result Denied A → Result InvocationError A
lift_policy (ok a) = ok a
lift_policy (err e) = err (by_policy e)

unfoldable pub list_available_tools :
    ToolRegistry → ToolTrustLevel → Actor → ToolWorld → Result InvocationError (List ToolDescriptor)
unfolding require_minimum_trust select
list_available_tools registry minimum_trust actor w = do
  lift_policy (require_minimum_trust actor minimum_trust)
  ok (
      select (λ t. t.lifecycle_state == active)
        (registry.available_tools minimum_trust true w.tools))

abbrev pub declares_l3 : ToolPermission → Bool
declares_l3 p = p.authorization_level == l3_approve

abbrev pub as_untrusted : ToolDescriptor → ToolDescriptor
as_untrusted tool = record tool {
  trust_level = untrusted;
  enabled = false;
  lifecycle_state = pending_review;
}

-- The registry's answer to a registration, and its record.
unfoldable pub registered :
    Actor
    → ToolWorld
    → Result ValueError (ToolDescriptor × ToolStore)
    → Result InvocationError ToolDescriptor × ToolWorld
unfolding record_invocation
registered actor w (err e) = (err (by_registry e), w)
registered actor w (ok (tool, tools)) = (
  ok tool,
  record_invocation actor success "custom tool registered disabled and untrusted" tool.tool_id
      "register" (record w { tools = tools }),
)

unfoldable pub register_user_tool :
    ToolRegistry
    → ToolDescriptor
    → Actor
    → ToolWorld
    → Result InvocationError ToolDescriptor × ToolWorld
unfolding any registered
register_user_tool registry tool actor w =
    if not (is_human actor)
    then (err registration_by_human, w)
    else if not (actor.authorization_level == l2_modify_workspace)
    then (err registration_needs_l2, w)
    else if any declares_l3 tool.permissions
    then (err l3_operation_declared, w)
    else registered actor w (registry.register (as_untrusted tool) w.tools)

module _ (message : Message) (adapters : String → Option Adapter) where
  -- The adapter's answer, and its record.
  unfoldable pub executed :
      Actor
      → ToolInvocationRequest
      → ToolDescriptor
      → ToolWorld
      → Result String String
      → Result InvocationError ToolInvocationResult × ToolWorld
  unfolding record_invocation
  executed actor request tool w (err e) =
      (err (by_adapter e), record_invocation actor failure e request.tool_id request.operation w)
  executed actor request tool w (ok output) = (
    ok (record {
      tool_id = tool.tool_id;
      operation = request.operation;
      ok_flag = true;
      output = output;
      error = none;
    }),
    record_invocation actor success "tool execution completed" tool.tool_id request.operation w,
  )

  -- The first `try` block: the tool and its adapter, if the call is permitted.
  unfoldable pub resolve :
      ToolInvocationRequest
      → Actor
      → ToolTrustLevel
      → Option ℕ
      → Option ToolDescriptor
      → Option Adapter
      → Result InvocationError (ToolDescriptor × Adapter)
  unfolding authorize
  resolve request actor minimum_trust project_id none found = err tool_not_registered
  resolve request actor minimum_trust project_id (some tool) none = do
    lift_policy (authorize tool request actor minimum_trust project_id)
    err no_adapter
  resolve request actor minimum_trust project_id (some tool) (some run) = do
    lift_policy (authorize tool request actor minimum_trust project_id)
    ok (tool, run)

  unfoldable pub invoke_resolved :
      ToolInvocationRequest
      → String
      → Actor
      → ToolWorld
      → Result InvocationError (ToolDescriptor × Adapter)
      → Result InvocationError ToolInvocationResult × ToolWorld
  unfolding executed record_invocation
  invoke_resolved request arguments actor w (err e) =
      (err e, record_invocation actor denied (message e) request.tool_id request.operation w)
  invoke_resolved request arguments actor w (ok (tool, run)) =
      executed actor request tool w (run tool request.operation arguments)

  unfoldable pub invoke :
      ToolInvocationRequest
      → String
      → Actor
      → ToolTrustLevel
      → Option ℕ
      → ToolWorld
      → Result InvocationError ToolInvocationResult × ToolWorld
  unfolding lookup resolve invoke_resolved
  invoke request arguments actor minimum_trust project_id w =
      invoke_resolved request arguments actor w (
        resolve request actor minimum_trust project_id (lookup request.tool_id w.tools)
          (adapters request.tool_id))
