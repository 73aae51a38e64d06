-- ===== src/Audit.antt =====
-- domain/audit.py: audit events and the two append-only sinks. Left out is the correlation
-- identifier, which comes from a default factory and which no code reads.
pub mod Trail
mod Tests
use multi_agent_aircraft_dev.Base.{
  ◌||◌, ltb, if◌then◌else◌, ◌+◌, ℕ, String, ◌≡◌, ◌↔◌, refl, Bool, true, ◌&&◌, Option, none, some,
  List, [], ◌∷◌, ◌++◌, arith, Eq, ◌==◌, nat_eq, nat_beq, string_eq, option_eq, list_eq, select,
  last,
}
use multi_agent_aircraft_dev.Dict.{lookup}
use multi_agent_aircraft_dev.ChangeControl.{AuthorizationLevel}
use multi_agent_aircraft_dev.Evidence.{ExternalVersion}
use multi_agent_aircraft_dev.Errors.{Exception}

pub data ActorType : Type 0 where
  human ai service : ActorType

abbrev pub actor_rank : ActorType → ℕ
actor_rank human = 0
actor_rank ai = 1
actor_rank service = 2

pub actor_beq_iff : (a b : ActorType) → (nat_beq (actor_rank a) (actor_rank b) ≡ true) ↔ (a ≡ b)
actor_beq_iff a b = ground arith

instance abbrev pub actor_type_eq : Eq ActorType
actor_type_eq = record {
  beq = λ a b. nat_beq (actor_rank a) (actor_rank b);
  beq_iff = actor_beq_iff;
}

pub data AuditResult : Type 0 where
  success failure denied : AuditResult

abbrev pub result_rank : AuditResult → ℕ
result_rank success = 0
result_rank failure = 1
result_rank denied = 2

pub result_beq_iff :
    (a b : AuditResult) → (nat_beq (result_rank a) (result_rank b) ≡ true) ↔ (a ≡ b)
result_beq_iff a b = ground arith

instance abbrev pub audit_result_eq : Eq AuditResult
audit_result_eq = record {
  beq = λ a b. nat_beq (result_rank a) (result_rank b);
  beq_iff = result_beq_iff;
}

-- A value under a key of an event's metadata.
pub data MetaValue : Type 0 where
  null : MetaValue
  text : String → MetaValue
  number : ℕ → MetaValue
  flag : Bool → MetaValue
  versions : List ExternalVersion → MetaValue

abbrev pub of_text : Option String → MetaValue
of_text none = null
of_text (some t) = text t

abbrev pub of_id : Option ℕ → MetaValue
of_id none = null
of_id (some n) = number n

-- Why an event has its result: a text that is given, or the message of an exception.
pub data Reason : Type 0 where
  stated : String → Reason
  raised : Exception → Reason
  issues_found : ℕ → Reason

-- What the default factories of an event give: `uuid4()` and `datetime.now(UTC)`, in microseconds.
pub record Stamp : Type 0 where
  pub id : ℕ
  pub timestamp : ℕ

-- The stamps of the events to come. An event takes the first.
abbrev pub Stamps : Type 0
Stamps = ℕ → Stamp

abbrev pub later : Stamps → Stamps
later stamps n = stamps (n + 1)

pub record AuditEvent : Type 0 where
  pub id : ℕ
  pub timestamp : ℕ
  pub actor_id : String
  pub actor_type : ActorType
  pub authorization_level : AuthorizationLevel
  pub action : String
  pub target_type : String
  pub target_id : Option ℕ
  pub result : AuditResult
  pub reason : Option Reason
  pub metadata : List (String × MetaValue)

-- `event.metadata.get(key)`
unfoldable pub metadata_at : String → AuditEvent → MetaValue
unfolding lookup
metadata_at key event = elim (lookup key event.metadata) [ none ↦ null | some v ↦ v ]

-- `InMemoryAuditSink.record`
unfoldable pub record_event : AuditEvent → List AuditEvent → List AuditEvent
record_event event events = events ++ event ∷ []

abbrev pub is_review_of : ℕ → AuditEvent → Bool
is_review_of workspace_id event =
    event.action == "independent_review" && event.target_id == some workspace_id

-- `InMemoryAuditSink.latest_review`
unfoldable pub latest_review : ℕ → List AuditEvent → Option AuditEvent
unfolding select last
latest_review workspace_id events = last (select (is_review_of workspace_id) events)

abbrev pub is_stored_review_of : ℕ → AuditEvent → Bool
is_stored_review_of workspace_id event =
    event.action == "independent_review"
    && event.target_type == "workspace"
    && event.target_id == some workspace_id
    && event.result == success

-- A row comes before another under `ORDER BY timestamp DESC, id DESC`.
abbrev pub goes_before : AuditEvent → AuditEvent → Bool
goes_before a b = ltb b.timestamp a.timestamp || a.timestamp == b.timestamp && ltb b.id a.id

-- The first row in this order (`LIMIT 1`).
unfoldable pub first_row : List AuditEvent → Option AuditEvent
first_row [] = none
first_row (e ∷ es) =
    let rest = first_row es in
    elim rest [ none ↦ some e | some f ↦ if goes_before f e then some f else some e ]

-- `SqlAlchemyAuditSink.latest_review`
unfoldable pub latest_stored_review : ℕ → List AuditEvent → Option AuditEvent
unfolding select first_row
latest_stored_review workspace_id events =
    first_row (select (is_stored_review_of workspace_id) events)
