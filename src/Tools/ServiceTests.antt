-- ===== src/Tools/ServiceTests.antt =====
-- A tool that is registered, approved and called, and one that was revoked.
use multi_agent_aircraft_dev.Base.{
  String, ◌≡◌, ◌⊎◌, inr, refl, true, false, Option, none, some, List, [], ◌∷◌, any, find, string_eq,
}
use multi_agent_aircraft_dev.Dict.{lookup, insert}
use multi_agent_aircraft_dev.Errors.{ok}
use multi_agent_aircraft_dev.ChangeControl.{l1_propose, l2_modify_workspace, l3_approve}
use multi_agent_aircraft_dev.Audit.{human, record_event, Stamps}
use multi_agent_aircraft_dev.Gateway.World.{Actor}
use multi_agent_aircraft_dev.Tools.{
  ToolDescriptor, untrusted, sandbox, read, pending_review, active, revoked, transition,
}
use multi_agent_aircraft_dev.Tools.Policy.{ToolInvocationRequest, authorize}
use multi_agent_aircraft_dev.Tools.Store.{tools_in_database, register_durable, transition_durable}
use multi_agent_aircraft_dev.Tools.Lifecycle.{
  ToolWorld, ToolReviewDecision, review, review_found, finish, record_lifecycle,
}
use multi_agent_aircraft_dev.Tools.Invocation.{
  Message, Adapter, register_user_tool, registered, record_invocation, invoke, invoke_resolved,
  resolve, executed,
}
use multi_agent_aircraft_dev.Tools.Steps.{
  Governs, ToolCall, register_call, review_call, revoke_call, invoke_call, perform, perform_all,
  perform-Governs,
}
use multi_agent_aircraft_dev.Tools.Governed.{
  AllContained, IsApproval, perform_all-AllContained, perform_all-out, perform-activates,
}
use multi_agent_aircraft_dev.Tools.Executions.{Outcome, invoke_lem}

abbrev engineer : Actor
engineer = record {
  actor_id = "eng";
  actor_type = human;
  authorization_level = l2_modify_workspace;
}

abbrev chief : Actor
chief = record { actor_id = "chief"; actor_type = human; authorization_level = l3_approve }

abbrev mesher : ToolDescriptor
mesher = record {
  tool_id = "mesher";
  name = "a mesher";
  description = "makes meshes";
  trust_level = sandbox;
  permissions =
      record { operation = "mesh"; authorization_level = l1_propose; side_effect = read } ∷ [];
  project_scoped = false;
  enabled = true;
  lifecycle_state = active;
  configuration_schema = "{}";
}

abbrev accepting : ToolReviewDecision
accepting = record { accepted = true; reason = "sound"; evidence_uri = some "https://host/report" }

abbrev request_0 : ToolInvocationRequest
request_0 = record {
  tool_id = "mesher";
  operation = "mesh";
  actor_id = "eng";
  authorization_level = l2_modify_workspace;
  project_id = none;
}

abbrev as_is : String → String
as_is t = t

abbrev message_0 : Message
message_0 e = "denied"

abbrev adapters_0 : String → Option Adapter
adapters_0 id = some (λ tool operation arguments. ok "{}")

abbrev stamps_0 : Stamps
stamps_0 n = record { id = n; timestamp = n }

abbrev empty : ToolWorld
empty = record { tools = []; audit = []; stamps = stamps_0 }

abbrev calls_0 : List (Actor × ToolCall)
calls_0 =
    (engineer, register_call mesher)
    ∷ (chief, review_call "mesher" accepting)
    ∷ (engineer, invoke_call request_0 "{}" sandbox none)
    ∷ []

approved_0 :
    lookup "mesher" (perform_all tools_in_database as_is message_0 adapters_0 calls_0 empty).tools
    ≡ some mesher
unfolding perform_all perform tools_in_database register_durable transition_durable
    register_user_tool registered record_invocation record_event any review review_found finish
    record_lifecycle lookup insert transition invoke
approved_0 = refl

contained_0 : AllContained empty.tools
unfolding lookup
contained_0 j tool h = absurd (cc h)

perform_all-AllContained_example :
    AllContained (perform_all tools_in_database as_is message_0 adapters_0 calls_0 empty).tools
perform_all-AllContained_example =
    perform_all-AllContained tools_in_database as_is message_0 adapters_0 calls_0 empty contained_0

abbrev gone : ToolDescriptor
gone = record mesher { trust_level = untrusted; enabled = false; lifecycle_state = revoked }

abbrev with_gone : ToolWorld
with_gone = record { tools = ("mesher", gone) ∷ []; audit = []; stamps = stamps_0 }

there : lookup "mesher" with_gone.tools ≡ some gone
unfolding lookup
there = refl

perform_all-out_example :
    lookup "mesher"
      (perform_all tools_in_database as_is message_0 adapters_0 calls_0 with_gone).tools
    ≡ some gone
perform_all-out_example =
    perform_all-out tools_in_database as_is message_0 adapters_0 calls_0 with_gone "mesher" gone
      (inr refl) there

perform-Governs_example :
    Governs engineer with_gone.tools
      (perform tools_in_database as_is message_0 adapters_0 engineer
        (revoke_call "mesher" "old")
        with_gone).tools
perform-Governs_example =
    perform-Governs tools_in_database as_is message_0 adapters_0 engineer
      (revoke_call "mesher" "old") with_gone

abbrev waiting : ToolDescriptor
waiting = record gone { lifecycle_state = pending_review }

abbrev with_waiting : ToolWorld
with_waiting = record { tools = ("mesher", waiting) ∷ []; audit = []; stamps = stamps_0 }

activated :
    lookup "mesher"
      (perform tools_in_database as_is message_0 adapters_0 chief
        (review_call "mesher" accepting)
        with_waiting).tools
    ≡ some mesher
unfolding perform tools_in_database transition_durable review review_found finish record_lifecycle
    lookup insert transition
activated = refl

perform-activates_example :
    (lookup "mesher" with_waiting.tools ≡ some mesher)
    ⊎ IsApproval chief "mesher" with_waiting.tools
perform-activates_example =
    perform-activates tools_in_database as_is message_0 adapters_0 chief
      (review_call "mesher" accepting) with_waiting "mesher" mesher activated refl

abbrev with_mesher : ToolWorld
with_mesher = record { tools = ("mesher", mesher) ∷ []; audit = []; stamps = stamps_0 }

invoke_lem_example :
    Outcome message_0 adapters_0 request_0 "{}" engineer sandbox none with_mesher
      ((invoke message_0 adapters_0 request_0 "{}" engineer sandbox none with_mesher).0)
      ((invoke message_0 adapters_0 request_0 "{}" engineer sandbox none with_mesher).1)
invoke_lem_example =
    invoke_lem message_0 adapters_0 request_0 "{}" engineer sandbox none with_mesher

answered :
    (invoke message_0 adapters_0 request_0 "{}" engineer sandbox none with_mesher).0
    ≡ ok (record {
      tool_id = "mesher";
      operation = "mesh";
      ok_flag = true;
      output = "{}";
      error = none;
    })
unfolding invoke resolve authorize invoke_resolved executed find lookup
answered = refl
