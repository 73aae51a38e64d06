-- ===== src/Tools/Transitions.antt =====
-- What a transition of a registered tool does to the registry.
use multi_agent_aircraft_dev.Base.{
  String, ◌≡◌, ◌≢◌, inl, inr, some, arith, ◌==◌, ==_iff, string_eq, Option-cases, if◌then◌else◌,
}
use multi_agent_aircraft_dev.Dict.{lookup, insert, lookup-insert}
use multi_agent_aircraft_dev.Errors.{lifecycle_state_changed, ok, err}
use multi_agent_aircraft_dev.Tools.{
  ToolLifecycleState, tool_state_eq, ToolDescriptor, ToolStore, transition,
}

-- A transition that is accepted found the tool in the state that its caller expected, and replaced
-- it and no other tool.
pub transition-ok :
    (tool_id : String) (expected : ToolLifecycleState) (updated : ToolDescriptor)
    (store : ToolStore) {made : ToolDescriptor} {store' : ToolStore}
    → transition tool_id expected updated store ≡ ok (made, store')
    → (current : ToolDescriptor) × (lookup tool_id store ≡ some current)
      × (current.lifecycle_state ≡ expected)
      × (updated.tool_id ≡ tool_id)
      × ((j : String) → lookup j store' ≡ (if tool_id == j then some updated else lookup j store))
unfolding transition
transition-ok tool_id expected updated store {made} {store'} h =
    elim (Option-cases (lookup tool_id store)) [
      | inl missing ↦ absurd (ground arith)
      | inr (current, found) ↦
          let d : store' ≡ insert tool_id updated store = ground (arith) in
          (
            current,
            found,
            ground (arith, ==_iff current.lifecycle_state expected),
            ground (arith, ==_iff updated.tool_id tool_id),
            λ j. rw d (lookup-insert tool_id j updated store),
          )
    ]

-- Of two decisions on a tool in the same state only the first is accepted, if it moved the tool to
-- another state.
pub transition-twice :
    (tool_id : String) (expected : ToolLifecycleState) (first second : ToolDescriptor)
    (store : ToolStore) {made : ToolDescriptor} {store' : ToolStore}
    → transition tool_id expected first store ≡ ok (made, store')
    → first.lifecycle_state ≢ expected
    → transition tool_id expected second store' ≡ err lifecycle_state_changed
unfolding transition
transition-twice tool_id expected first second store {made} {store'} h moved =
    let (_, _, _, _, at) = transition-ok tool_id expected first store h in
    let there : lookup tool_id store' ≡ some first =
      ground (arith, at tool_id, ==_iff tool_id tool_id) in
    ground (arith, ==_iff first.lifecycle_state expected)
