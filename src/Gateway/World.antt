-- ===== src/Gateway/World.antt =====
-- The state that the Gateway's operations work on, and the actions over it. Services that a
-- deployment may leave out are options or flags of the configuration.
use multi_agent_aircraft_dev.Base.{
  ℕ, String, Bool, true, false, Option, none, some, List, [], ◌∷◌, ◌++◌, ◌==◌, if◌then◌else◌,
}
use multi_agent_aircraft_dev.Dict.{Dict}
use multi_agent_aircraft_dev.Errors.{
  ValueError, ServiceError, Exception, value_error, service, Result, ok, err,
}
use multi_agent_aircraft_dev.ChangeControl.{AuthorizationLevel, ChangeRequest}
use multi_agent_aircraft_dev.Evidence.{ExternalVersion}
use multi_agent_aircraft_dev.Workspaces.{Workspace}
use multi_agent_aircraft_dev.Workspaces.Registry.{WorkspaceStore}
use multi_agent_aircraft_dev.Baselines.{BaselineStore}
use multi_agent_aircraft_dev.Budget.{BudgetGate}
use multi_agent_aircraft_dev.Audit.{
  ActorType, ai, actor_type_eq, AuditResult, audit_result_eq, success, AuditEvent, Reason,
  MetaValue, record_event, Stamps, later,
}
use multi_agent_aircraft_dev.Models.{EngineeringGraph}
use multi_agent_aircraft_dev.Changes.{ChangeStore}
use multi_agent_aircraft_dev.Profiles.Registry.{ProfileStore}
use multi_agent_aircraft_dev.Validation.{Validator}

pub record Actor : Type 0 where
  pub actor_id : String
  pub actor_type : ActorType
  pub authorization_level : AuthorizationLevel

-- `Actor.is_ai`
abbrev pub is_ai : Actor → Bool
is_ai actor = actor.actor_type == ai

pub record GitSnapshot : Type 0 where
  pub repository : String
  pub commit : String
  pub tag : Option String

-- The Git adapter, as it answers during one operation; an error is what it raises, with its text.
pub record GitAdapter : Type 0 where
  pub get_snapshot : String → String → Result String GitSnapshot
  pub is_ancestor : String → String → String → Result String Bool
  pub create_tag : String → String → String → Result String GitSnapshot

-- The reconciler, as it answers during one operation.
abbrev pub Reconciler : Type 0
Reconciler = Workspace → EngineeringGraph → Result String (List ExternalVersion)

pub record Config : Type 0 where
  pub workspaces_configured : Bool
  pub change_requests_configured : Bool
  pub baselines_configured : Bool
  pub changes_configured : Bool
  pub git : Option GitAdapter
  -- what `get_version` of the adapters gives, one after the other, or what the first of them raises
  pub external_versions : Result String (List ExternalVersion)
  pub budget_gate : Option BudgetGate
  pub review_required : Bool
  pub validator : Validator
  -- SHA-256 of the JSON text of a change set
  pub digest : EngineeringGraph → String

-- The call of an external system that has an effect there, which no rollback takes back.
pub data ExternalCall : Type 0 where
  tag_requested : String → String → String → ExternalCall
  published : Workspace → EngineeringGraph → ExternalCall

abbrev pub ChangeRequestStore : Type 0
ChangeRequestStore = Dict ℕ ChangeRequest

-- What the database session holds.
pub record Store : Type 0 where
  pub workspaces : WorkspaceStore
  pub change_requests : ChangeRequestStore
  pub baselines : BaselineStore
  pub changes : ChangeStore
  pub canonical : EngineeringGraph
  pub profiles : ProfileStore
  pub audit : List AuditEvent

-- Failed and denied events are written in sessions of their own. `stamps` is what the default
-- factories of the events to come will give.
pub record World : Type 0 where
  pub store : Store
  pub separate_audit : List AuditEvent
  pub stamps : Stamps
  pub calls : List ExternalCall

abbrev pub Action : Type 0 → Type 0
Action A = World → Result Exception A × World

module _ {A : Type 0} where
  abbrev pub pure : A → Action A
  pure a w = (ok a, w)

  abbrev pub raise : Exception → Action A
  raise e w = (err e, w)

  abbrev pub gets : (Store → A) → Action A
  gets f w = (ok (f w.store), w)

  -- the value, or an exception
  abbrev pub or_raise : Option A → ServiceError → Action A
  or_raise none e = raise (service e)
  or_raise (some a) e = pure a

  -- a domain function, with its `ValueError`
  abbrev pub lift : Result ValueError A → Action A
  lift (ok a) = pure a
  lift (err e) = raise (value_error e)

  -- an adapter's answer, with what it raises
  abbrev pub ask : Result String A → Action A
  ask (ok a) = pure a
  ask (err e) = raise (Exception.adapter e)

  -- `try: m except ...: handler`
  abbrev pub try_catch : Action A → (Exception → Action A) → Action A
  try_catch m handler w = let (r, w') = m w in elim r [ ok a ↦ (ok a, w') | err e ↦ handler e w' ]

infixl 5 ◌>>=◌ ◌>>◌
abbrev pub ◌>>=◌ : {A B : Type 0} → Action A → (A → Action B) → Action B
◌>>=◌ m f w = let (r, w') = m w in elim r [ ok a ↦ f a w' | err e ↦ (err e, w') ]

abbrev pub ◌>>◌ : {A B : Type 0} → Action A → Action B → Action B
m >> k = m >>= λ _. k

-- `if test: raise GatewayServiceError(...)`
abbrev pub refuse_if : Bool → ServiceError → Action (Unit {0})
refuse_if true e = raise (service e)
refuse_if false e = pure tt

abbrev pub modify : (Store → Store) → Action (Unit {0})
modify f w = (ok tt, record w { store = f w.store })

abbrev pub call_external : ExternalCall → Action (Unit {0})
call_external c w = (ok tt, record w { calls = w.calls ++ c ∷ [] })

-- A call of the workspace registry and of the baseline registry.
abbrev pub on_workspaces :
    {A : Type 0} → (WorkspaceStore → Result ValueError (A × WorkspaceStore)) → Action A
on_workspaces f w = elim (f w.store.workspaces) [
  | ok (a, d) ↦ (ok a, record w { store = record w.store { workspaces = d } })
  | err e ↦ (err (value_error e), w)
]

abbrev pub on_change_requests :
    {A : Type 0} → (ChangeRequestStore → Result ValueError (A × ChangeRequestStore)) → Action A
on_change_requests f w = elim (f w.store.change_requests) [
  | ok (a, d) ↦ (ok a, record w { store = record w.store { change_requests = d } })
  | err e ↦ (err (value_error e), w)
]

abbrev pub on_baselines :
    {A : Type 0} → (BaselineStore → Result ValueError (A × BaselineStore)) → Action A
on_baselines f w = elim (f w.store.baselines) [
  | ok (a, d) ↦ (ok a, record w { store = record w.store { baselines = d } })
  | err e ↦ (err (value_error e), w)
]

-- `SqlAlchemyAuditSink.record`: a success in the session, any other result in a session of its own,
-- committed at once.
unfoldable pub audit_record : AuditEvent → Action (Unit {0})
unfolding record_event
audit_record event w =
    if event.result == success
    then (ok tt, record w { store = record w.store { audit = record_event event w.store.audit } })
    else (ok tt, record w { separate_audit = record_event event w.separate_audit })

-- `GatewayApplicationService._record`
unfoldable pub record_action :
    Actor
    → String
    → String
    → Option ℕ
    → AuditResult
    → Option Reason
    → List (String × MetaValue)
    → Action (Unit {0})
unfolding audit_record
record_action actor action target_type target_id result reason metadata w =
    audit_record
      (record {
        id = (w.stamps 0).id;
        timestamp = (w.stamps 0).timestamp;
        actor_id = actor.actor_id;
        actor_type = actor.actor_type;
        authorization_level = actor.authorization_level;
        action = action;
        target_type = target_type;
        target_id = target_id;
        result = result;
        reason = reason;
        metadata = metadata;
      })
      (record w { stamps = later w.stamps })

unfoldable pub settle :
    {A : Type 0} → Store → Result Exception A × World → Result Exception A × World
settle before (ok a, w) = (ok a, w)
settle before (err e, w) = (err e, record w { store = before })

-- `_transactional_method`: the session is committed if the operation returns and rolled back if it
-- raises; what other sessions and other systems were told stays.
unfoldable pub transactional : {A : Type 0} → Action A → Action A
unfolding settle
transactional operation w = settle w.store (operation w)
