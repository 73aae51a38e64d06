-- ===== src/Tools/Store.antt =====
-- The registry that the tool services call (`ToolRegistryStore` of domain/tool_registry.py) as an
-- interface, and the two that fill it: the one in memory, and the one of
-- infrastructure/tool_registry_repository.py.
use multi_agent_aircraft_dev.Base.{
  String, ◌≡◌, refl, ap, subst, ◌∙◌, ◌⊎◌, inl, inr, Bool, true, not, Option, none, some,
  Option-cases, Bool-cases, List, arith, Eq, ◌==◌, ==_iff, bool_eq, string_eq, list_eq, pair_eq,
  eq_via, nat_beq, ◌↔◌, if◌then◌else◌, select, sort_with, text_le, leb,
}
use multi_agent_aircraft_dev.Dict.{lookup, insert, has_key, values, lookup-insert}
use multi_agent_aircraft_dev.Errors.{
  ValueError, tool_registered, tool_id_changed, Result, ok, ◌>>◌, raise_if,
}
use multi_agent_aircraft_dev.ChangeControl.{AuthorizationLevel, level_eq}
use multi_agent_aircraft_dev.Tools.{
  ToolTrustLevel, trust_rank, ToolLifecycleState, tool_state_eq, ToolSideEffect, side_effect_eq,
  list_available, untrusted, ToolPermission, ToolDescriptor, ToolStore, register_tool, transition,
}
use multi_agent_aircraft_dev.Tools.Transitions.{transition-ok}

-- What a registration and a transition do to the tools that are stored.
pub record ToolRegistry : Type 0 where
  pub register : ToolDescriptor → ToolStore → Result ValueError (ToolDescriptor × ToolStore)
  pub move :
      String
      → ToolLifecycleState
      → ToolDescriptor
      → ToolStore
      → Result ValueError (ToolDescriptor × ToolStore)
  pub list_tools : Bool → ToolStore → List ToolDescriptor
  pub available_tools : ToolTrustLevel → Bool → ToolStore → List ToolDescriptor
  pub register_stores :
      (tool : ToolDescriptor) (s : ToolStore) (t : ToolDescriptor) (s' : ToolStore)
      → register tool s ≡ ok (t, s')
      → (t ≡ tool)
        × ((lookup tool.tool_id s ≡ none) ⊎ (lookup tool.tool_id s ≡ some tool))
        × ((j : String) → lookup j s' ≡ (if tool.tool_id == j then some tool else lookup j s))
  pub move_stores :
      (id : String) (expected : ToolLifecycleState) (tool : ToolDescriptor) (s : ToolStore)
      (t : ToolDescriptor) (s' : ToolStore)
      → move id expected tool s ≡ ok (t, s')
      → (t ≡ tool)
        × ((current : ToolDescriptor) × (lookup id s ≡ some current)
            × (current.lifecycle_state ≡ expected))
        × ((j : String) → lookup j s' ≡ (if id == j then some tool else lookup j s))

abbrev pub trust_eq_rank : ToolTrustLevel → ToolTrustLevel → Bool
trust_eq_rank a b = nat_beq (trust_rank a) (trust_rank b)

pub trust_beq_iff : (a b : ToolTrustLevel) → (trust_eq_rank a b ≡ true) ↔ (a ≡ b)
trust_beq_iff a b = ground arith

instance abbrev pub trust_eq : Eq ToolTrustLevel
trust_eq = record { beq = trust_eq_rank; beq_iff = trust_beq_iff }

instance abbrev pub permission_eq : Eq ToolPermission
permission_eq =
    eq_via {B = String × (AuthorizationLevel × ToolSideEffect)}
      (λ (p : ToolPermission). (p.operation, (p.authorization_level, p.side_effect)))
      (λ t. record { operation = t.0; authorization_level = t.1.0; side_effect = t.1.1 })
      (λ p. refl)

-- `self._to_descriptor(existing) != tool`, compared field by field
instance abbrev pub tool_eq : Eq ToolDescriptor
tool_eq =
    eq_via
      {B = String
        × (String
            × (String
                × (ToolTrustLevel
                    × (List ToolPermission × (Bool × (Bool × (ToolLifecycleState × String)))))))}
      (λ (t : ToolDescriptor). (
        t.tool_id,
        (
          t.name,
          (
            t.description,
            (
              t.trust_level,
              (
                t.permissions,
                (t.project_scoped, (t.enabled, (t.lifecycle_state, t.configuration_schema))),
              ),
            ),
          ),
        ),
      ))
      (λ t. record {
        tool_id = t.0;
        name = t.1.0;
        description = t.1.1.0;
        trust_level = t.1.1.1.0;
        permissions = t.1.1.1.1.0;
        project_scoped = t.1.1.1.1.1.0;
        enabled = t.1.1.1.1.1.1.0;
        lifecycle_state = t.1.1.1.1.1.1.1.0;
        configuration_schema = t.1.1.1.1.1.1.1.1;
      })
      (λ t. refl)

-- `SqlAlchemyToolRegistry.register_persisted`: the same definition may be registered again.
unfoldable pub register_existing :
    Option ToolDescriptor
    → ToolDescriptor
    → ToolStore
    → Result ValueError (ToolDescriptor × ToolStore)
unfolding insert
register_existing none tool store = ok (tool, insert tool.tool_id tool store)
register_existing (some existing) tool store = do
  raise_if (not (existing == tool)) tool_registered
  ok (tool, store)

unfoldable pub register_durable :
    ToolDescriptor → ToolStore → Result ValueError (ToolDescriptor × ToolStore)
unfolding lookup register_existing
register_durable tool store = register_existing (lookup tool.tool_id store) tool store

-- `SqlAlchemyToolRegistry.transition_persisted`, which tests the identifier first
unfoldable pub transition_durable :
    String
    → ToolLifecycleState
    → ToolDescriptor
    → ToolStore
    → Result ValueError (ToolDescriptor × ToolStore)
unfolding transition
transition_durable tool_id expected updated store = do
  raise_if (not (updated.tool_id == tool_id)) tool_id_changed
  transition tool_id expected updated store

-- `SqlAlchemyToolRegistry.list_persisted` and `list_available_persisted`
unfoldable pub list_persisted : Bool → ToolStore → List ToolDescriptor
unfolding select sort_with values text_le
list_persisted enabled_only store =
    let rows = sort_with (λ (a b : ToolDescriptor). text_le a.tool_id b.tool_id) (values store) in
    if enabled_only then select (λ t. t.enabled) rows else rows

unfoldable pub list_available_durable : ToolTrustLevel → Bool → ToolStore → List ToolDescriptor
unfolding list_persisted select
list_available_durable minimum_trust enabled_only store =
    select (λ t. leb (trust_rank minimum_trust) (trust_rank t.trust_level))
      (list_persisted enabled_only store)

pub register_durable-stores :
    (tool : ToolDescriptor) (s : ToolStore) (t : ToolDescriptor) (s' : ToolStore)
    → register_durable tool s ≡ ok (t, s')
    → (t ≡ tool)
      × ((lookup tool.tool_id s ≡ none) ⊎ (lookup tool.tool_id s ≡ some tool))
      × ((j : String) → lookup j s' ≡ (if tool.tool_id == j then some tool else lookup j s))
unfolding register_durable
register_durable-stores tool s t s' h = elim (Option-cases (lookup tool.tool_id s)) [
  | inl absent ↦
      let d : s' ≡ insert tool.tool_id tool s = ground arith in
      (ground arith, inl absent, λ j. rw d (lookup-insert tool.tool_id j tool s))
  | inr (existing, found) ↦ elim (Bool-cases (existing == tool)) [
    | inl t ↦
        let same : existing ≡ tool = (==_iff existing tool).0 t in
        let d : s' ≡ s = ground arith in
        let there : lookup tool.tool_id s ≡ some tool = found ∙ ap some same in
        (
          ground arith,
          inr there,
          λ j. elim (Bool-cases (tool.tool_id == j)) [
            | inl q ↦
                rw (d, q, if◌then◌else◌)
                  (subst (λ k. lookup k s ≡ some tool) ((==_iff tool.tool_id j).0 q) there)
            | inr q ↦ rw (d, q, if◌then◌else◌) refl
          ],
        )
    | inr f ↦ absurd (ground arith)
  ]
]

pub register_tool-stores :
    (tool : ToolDescriptor) (s : ToolStore) (t : ToolDescriptor) (s' : ToolStore)
    → register_tool tool s ≡ ok (t, s')
    → (t ≡ tool)
      × ((lookup tool.tool_id s ≡ none) ⊎ (lookup tool.tool_id s ≡ some tool))
      × ((j : String) → lookup j s' ≡ (if tool.tool_id == j then some tool else lookup j s))
unfolding register_tool has_key
register_tool-stores tool s t s' h = elim (Option-cases (lookup tool.tool_id s)) [
  | inl absent ↦
      let d : s' ≡ insert tool.tool_id tool s = ground arith in
      (ground arith, inl absent, λ j. rw d (lookup-insert tool.tool_id j tool s))
  | inr (existing, found) ↦ absurd (ground arith)
]

pub transition-stores :
    (id : String) (expected : ToolLifecycleState) (tool : ToolDescriptor) (s : ToolStore)
    (t : ToolDescriptor) (s' : ToolStore)
    → transition id expected tool s ≡ ok (t, s')
    → (t ≡ tool)
      × ((current : ToolDescriptor) × (lookup id s ≡ some current)
          × (current.lifecycle_state ≡ expected))
      × ((j : String) → lookup j s' ≡ (if id == j then some tool else lookup j s))
unfolding transition
transition-stores id expected tool s t s' h =
    let (current, found, state, _, at) = transition-ok id expected tool s h in
    (ground arith, (current, found, state), at)

pub transition_durable-stores :
    (id : String) (expected : ToolLifecycleState) (tool : ToolDescriptor) (s : ToolStore)
    (t : ToolDescriptor) (s' : ToolStore)
    → transition_durable id expected tool s ≡ ok (t, s')
    → (t ≡ tool)
      × ((current : ToolDescriptor) × (lookup id s ≡ some current)
          × (current.lifecycle_state ≡ expected))
      × ((j : String) → lookup j s' ≡ (if id == j then some tool else lookup j s))
unfolding transition_durable
transition_durable-stores id expected tool s t s' h =
    transition-stores id expected tool s t s' (ground arith)

-- `ToolRegistry`
unfoldable pub tools_in_memory : ToolRegistry
tools_in_memory = record {
  register = register_tool;
  move = transition;
  list_tools = list_available untrusted;
  available_tools = list_available;
  register_stores = register_tool-stores;
  move_stores = transition-stores;
}

-- `SqlAlchemyToolRegistry`
unfoldable pub tools_in_database : ToolRegistry
tools_in_database = record {
  register = register_durable;
  move = transition_durable;
  list_tools = list_persisted;
  available_tools = list_available_durable;
  register_stores = register_durable-stores;
  move_stores = transition_durable-stores;
}
