-- ===== src/Tools/Policy.antt =====
-- `ToolPolicy` of application/tool_invocation.py: the authorization of one operation of a tool.
use multi_agent_aircraft_dev.Base.{
  ℕ, String, Bool, not, ◌&&◌, ◌||◌, Option, none, some, ◌==◌, nat_eq, string_eq, option_eq, is_none,
  ltb, find,
}
use multi_agent_aircraft_dev.Errors.{Result, err, ◌>>◌, raise_if}
use multi_agent_aircraft_dev.ChangeControl.{AuthorizationLevel, l3_approve, level_eq, level_rank}
use multi_agent_aircraft_dev.Gateway.World.{Actor, is_ai}
use multi_agent_aircraft_dev.Tools.{
  ToolTrustLevel, sandbox, trust_rank, physical, side_effect_eq, active, tool_state_eq,
  ToolPermission, ToolDescriptor,
}

-- `ToolInvocationDenied`, one constructor for each message.
pub data Denied : Type 0 where
  untrusted_for_ai not_active disabled trust_insufficient wrong_project not_an_operation : Denied
  other_actor other_level l3_for_ai level_insufficient physical_operation : Denied

-- `arguments` are not read by the policy.
pub record ToolInvocationRequest : Type 0 where
  pub tool_id : String
  pub operation : String
  pub actor_id : String
  pub authorization_level : AuthorizationLevel
  pub project_id : Option ℕ

unfoldable pub require_minimum_trust : Actor → ToolTrustLevel → Result Denied (Unit {0})
require_minimum_trust actor minimum_trust =
    raise_if (is_ai actor && ltb (trust_rank minimum_trust) (trust_rank sandbox)) untrusted_for_ai

abbrev pub is_operation : String → ToolPermission → Bool
is_operation operation p = p.operation == operation

-- The tests on the permission that was found.
unfoldable pub authorize_permission :
    Option ToolPermission → ToolInvocationRequest → Actor → Result Denied (Unit {0})
authorize_permission none request actor = err not_an_operation
authorize_permission (some p) request actor = do
  raise_if (not (request.actor_id == actor.actor_id)) other_actor
  raise_if (not (request.authorization_level == actor.authorization_level)) other_level
  raise_if (is_ai actor && p.authorization_level == l3_approve) l3_for_ai
  raise_if (ltb (level_rank request.authorization_level) (level_rank p.authorization_level))
      level_insufficient
  raise_if (p.side_effect == physical) physical_operation

unfoldable pub other_project : ToolDescriptor → ToolInvocationRequest → Option ℕ → Bool
other_project tool request project_id =
    tool.project_scoped && (is_none project_id || not (request.project_id == project_id))

unfoldable pub authorize :
    ToolDescriptor
    → ToolInvocationRequest
    → Actor
    → ToolTrustLevel
    → Option ℕ
    → Result Denied (Unit {0})
unfolding require_minimum_trust other_project authorize_permission find
authorize tool request actor minimum_trust project_id = do
  require_minimum_trust actor minimum_trust
  raise_if (not (tool.lifecycle_state == active)) not_active
  raise_if (not tool.enabled) disabled
  raise_if (ltb (trust_rank tool.trust_level) (trust_rank minimum_trust)) trust_insufficient
  raise_if (other_project tool request project_id) wrong_project
  authorize_permission (find (is_operation request.operation) tool.permissions) request actor
