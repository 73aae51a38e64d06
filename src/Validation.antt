-- ===== src/Validation.antt =====
-- application/validation.py: the issues and the results, and what the services use of the engine, as
-- an interface: it validates a graph against a profile and its inputs, and its result carries the
-- hash of exactly these. Engine fills the interface.
pub mod Elements
pub mod Attributes
pub mod Relations
pub mod Rules
pub mod Engine
mod ElementsSound
mod RelationsSound
mod RulesSound
mod AttributesSound
pub mod Conformance
pub mod Defaults
mod Tests
use multi_agent_aircraft_dev.Base.{ℕ, String, ◌≡◌, Bool, Option, none, some, List, is_empty}
use multi_agent_aircraft_dev.Evidence.{ValidationInputs}
use multi_agent_aircraft_dev.Models.{EngineeringGraph}
use multi_agent_aircraft_dev.Profiles.{StandardProfile}

-- The message of an issue is a text that nothing reads, and is left out.
pub record ValidationIssue : Type 0 where
  pub code : String
  pub element_id : Option ℕ
  pub relation_id : Option ℕ
  pub rule_id : Option String

-- The findings that name an element, a relation, or an element and a rule.
abbrev pub element_issue : String → ℕ → ValidationIssue
element_issue code id = record {
  code = code;
  element_id = some id;
  relation_id = none;
  rule_id = none;
}

abbrev pub relation_issue : String → ℕ → ValidationIssue
relation_issue code id = record {
  code = code;
  element_id = none;
  relation_id = some id;
  rule_id = none;
}

abbrev pub rule_issue : String → ℕ → String → ValidationIssue
rule_issue code id rule = record {
  code = code;
  element_id = some id;
  relation_id = none;
  rule_id = some rule;
}

pub record ValidationResult : Type 0 where
  pub profile_id : String
  pub profile_version : String
  pub graph_hash : String
  pub issues : List ValidationIssue

-- `ValidationResult.valid`
abbrev pub valid : ValidationResult → Bool
valid result = is_empty result.issues

pub record Validator : Type 0 where
  pub validate : EngineeringGraph → StandardProfile → ValidationInputs → ValidationResult
  pub graph_hash : EngineeringGraph → StandardProfile → ValidationInputs → String
  -- the last statement of `validate_graph`
  pub validate_hash :
      (graph : EngineeringGraph) (profile : StandardProfile) (inputs : ValidationInputs)
      → (validate graph profile inputs).graph_hash ≡ graph_hash graph profile inputs
