-- ===== src/Tools/Tests.antt =====
-- A tool that is registered, reviewed and called.
use multi_agent_aircraft_dev.Base.{◌≡◌, ◌≢◌, refl, true, false, some, [], ◌∷◌, arith, string_eq}
use multi_agent_aircraft_dev.Dict.{lookup, insert}
use multi_agent_aircraft_dev.Errors.{lifecycle_state_changed, ok, err}
use multi_agent_aircraft_dev.ChangeControl.{l1_propose, l2_modify_workspace}
use multi_agent_aircraft_dev.Audit.{ai}
use multi_agent_aircraft_dev.Gateway.World.{Actor}
use multi_agent_aircraft_dev.Tools.{
  ToolDescriptor, ToolStore, untrusted, sandbox, read, pending_review, active, rejected, transition,
}
use multi_agent_aircraft_dev.Tools.Policy.{ToolInvocationRequest, authorize}
use multi_agent_aircraft_dev.Tools.Permits.{IsPermitted, authorize-IsPermitted}
use multi_agent_aircraft_dev.Tools.Transitions.{transition-twice}

abbrev pending : ToolDescriptor
pending = record {
  tool_id = "mesher";
  name = "a mesher";
  description = "makes meshes";
  trust_level = untrusted;
  permissions =
      record { operation = "mesh"; authorization_level = l1_propose; side_effect = read } ∷ [];
  project_scoped = true;
  enabled = false;
  lifecycle_state = pending_review;
  configuration_schema = "{}";
}

abbrev admitted : ToolDescriptor
admitted = record pending { trust_level = sandbox; enabled = true; lifecycle_state = active }

abbrev agent : Actor
agent = record { actor_id = "bot"; actor_type = ai; authorization_level = l2_modify_workspace }

abbrev request_0 : ToolInvocationRequest
request_0 = record {
  tool_id = "mesher";
  operation = "mesh";
  actor_id = "bot";
  authorization_level = l2_modify_workspace;
  project_id = some 5;
}

authorized_0 : authorize admitted request_0 agent sandbox (some 5) ≡ ok tt
unfolding authorize
authorized_0 = refl

authorize-IsPermitted_example : IsPermitted admitted request_0 agent sandbox (some 5)
authorize-IsPermitted_example =
    authorize-IsPermitted admitted request_0 agent sandbox (some 5) authorized_0

abbrev store_0 : ToolStore
store_0 = ("mesher", pending) ∷ []

abbrev store_1 : ToolStore
store_1 = ("mesher", admitted) ∷ []

reviewed_0 : transition "mesher" pending_review admitted store_0 ≡ ok (admitted, store_1)
unfolding transition lookup insert
reviewed_0 = refl

moved_0 : active ≢ pending_review
moved_0 h = ground arith

transition-twice_example :
    transition "mesher" pending_review (record pending { lifecycle_state = rejected }) store_1
    ≡ err lifecycle_state_changed
transition-twice_example =
    transition-twice "mesher" pending_review admitted
      (record pending { lifecycle_state = rejected }) store_0 reviewed_0 moved_0
