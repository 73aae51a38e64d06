-- ===== src/Tools.antt =====
-- domain/tool_registry.py: the descriptors of external tools and their registry.
pub mod Policy
pub mod Permits
pub mod Transitions
pub mod Store
pub mod Lifecycle
pub mod Invocation
pub mod Steps
pub mod Governed
pub mod Executions
mod Tests
mod ServiceTests
use multi_agent_aircraft_dev.Base.{
  ℕ, String, ◌≡◌, ◌↔◌, refl, Bool, true, false, not, ◌&&◌, ◌||◌, Option, none, some, List, [], ◌∷◌,
  map, arith, Eq, ◌==◌, nat_beq, string_eq, unique, contains, select, leb, text_le, if◌then◌else◌,
}
use multi_agent_aircraft_dev.Dict.{Dict, lookup, insert, has_key, values}
use multi_agent_aircraft_dev.Errors.{
  ValueError, duplicate_operations, tool_registered, tool_missing, lifecycle_state_changed,
  tool_id_changed, Result, ok, err, ◌>>=◌, ◌>>◌, raise_if,
}
use multi_agent_aircraft_dev.ChangeControl.{AuthorizationLevel}

pub data ToolTrustLevel : Type 0 where
  untrusted sandbox project_verified engineering_verified operationally_allowed : ToolTrustLevel

-- `levels.index(level)`
abbrev pub trust_rank : ToolTrustLevel → ℕ
trust_rank untrusted = 0
trust_rank sandbox = 1
trust_rank project_verified = 2
trust_rank engineering_verified = 3
trust_rank operationally_allowed = 4

pub data ToolSideEffect : Type 0 where
  no_effect read write physical : ToolSideEffect

abbrev pub side_effect_rank : ToolSideEffect → ℕ
side_effect_rank no_effect = 0
side_effect_rank read = 1
side_effect_rank write = 2
side_effect_rank physical = 3

pub side_effect_beq_iff :
    (a b : ToolSideEffect) → (nat_beq (side_effect_rank a) (side_effect_rank b) ≡ true) ↔ (a ≡ b)
side_effect_beq_iff a b = ground arith

instance abbrev pub side_effect_eq : Eq ToolSideEffect
side_effect_eq = record {
  beq = λ a b. nat_beq (side_effect_rank a) (side_effect_rank b);
  beq_iff = side_effect_beq_iff;
}

pub data ToolLifecycleState : Type 0 where
  pending_review active rejected revoked : ToolLifecycleState

abbrev pub tool_state_rank : ToolLifecycleState → ℕ
tool_state_rank pending_review = 0
tool_state_rank active = 1
tool_state_rank rejected = 2
tool_state_rank revoked = 3

pub tool_state_beq_iff :
    (a b : ToolLifecycleState) → (nat_beq (tool_state_rank a) (tool_state_rank b) ≡ true) ↔ (a ≡ b)
tool_state_beq_iff a b = ground arith

instance abbrev pub tool_state_eq : Eq ToolLifecycleState
tool_state_eq = record {
  beq = λ a b. nat_beq (tool_state_rank a) (tool_state_rank b);
  beq_iff = tool_state_beq_iff;
}

-- The level is a text that its validator accepts only if it names one of the four levels.
pub record ToolPermission : Type 0 where
  pub operation : String
  pub authorization_level : AuthorizationLevel
  pub side_effect : ToolSideEffect

-- `configuration_schema` is its JSON text; `contract_version` is the constant 1.0.
pub record ToolDescriptor : Type 0 where
  pub tool_id : String
  pub name : String
  pub description : String
  pub trust_level : ToolTrustLevel
  pub permissions : List ToolPermission
  pub project_scoped : Bool
  pub enabled : Bool
  pub lifecycle_state : ToolLifecycleState
  pub configuration_schema : String

abbrev pub operation_of : ToolPermission → String
operation_of p = p.operation

-- `validate_unique_operations`
unfoldable pub validate_unique_operations : ToolDescriptor → Result ValueError ToolDescriptor
validate_unique_operations tool = do
  raise_if (not (unique (map operation_of tool.permissions))) duplicate_operations
  ok tool

abbrev pub ToolStore : Type 0
ToolStore = Dict String ToolDescriptor

-- `register`
unfoldable pub register_tool :
    ToolDescriptor → ToolStore → Result ValueError (ToolDescriptor × ToolStore)
register_tool tool store = do
  raise_if (has_key tool.tool_id store) tool_registered
  ok (tool, insert tool.tool_id tool store)

unfoldable pub transition_found :
    Option ToolDescriptor
    → String
    → ToolLifecycleState
    → ToolDescriptor
    → ToolStore
    → Result ValueError (ToolDescriptor × ToolStore)
transition_found none tool_id expected updated store = err tool_missing
transition_found (some current) tool_id expected updated store = do
  raise_if (not (current.lifecycle_state == expected)) lifecycle_state_changed
  raise_if (not (updated.tool_id == tool_id)) tool_id_changed
  ok (updated, insert tool_id updated store)

-- `transition_persisted`
unfoldable pub transition :
    String
    → ToolLifecycleState
    → ToolDescriptor
    → ToolStore
    → Result ValueError (ToolDescriptor × ToolStore)
unfolding transition_found
transition tool_id expected updated store =
    transition_found (lookup tool_id store) tool_id expected updated store

abbrev pub listed : ToolTrustLevel → Bool → ToolDescriptor → Bool
listed minimum_trust enabled_only tool =
    (not enabled_only || tool.enabled)
    && leb (trust_rank minimum_trust) (trust_rank tool.trust_level)

insert_tool : ToolDescriptor → List ToolDescriptor → List ToolDescriptor
insert_tool t [] = t ∷ []
insert_tool t (u ∷ us) = if text_le t.tool_id u.tool_id then t ∷ u ∷ us else u ∷ insert_tool t us

sort_tools : List ToolDescriptor → List ToolDescriptor
unfolding insert_tool
sort_tools [] = []
sort_tools (t ∷ ts) = insert_tool t (sort_tools ts)

-- `list_available`
unfoldable pub list_available : ToolTrustLevel → Bool → ToolStore → List ToolDescriptor
unfolding sort_tools
list_available minimum_trust enabled_only store =
    sort_tools (select (listed minimum_trust enabled_only) (values store))
