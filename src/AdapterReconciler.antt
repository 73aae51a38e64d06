-- ===== src/AdapterReconciler.antt =====
-- infrastructure/workspace_reconciler.py: the data of the reconciler that routes a change set to the
-- adapters of the external systems.
mod Planning
mod Calls
mod Order
mod Systems
mod Targets
mod Tests
use multi_agent_aircraft_dev.Base.{
  ℕ, String, Bool, true, false, not, ◌&&◌, ◌||◌, Option, none, some, List, [], ◌∷◌, ◌++◌, map, ◌==◌,
  nat_eq, string_eq, option_eq, length, contains, select, to_set, sort_with, text_le, is_some,
  is_blank, if◌then◌else◌,
}
use multi_agent_aircraft_dev.Dict.{Dict, lookup, insert, has_key, values}
use multi_agent_aircraft_dev.Errors.{Result, ok, err, ◌>>=◌, ◌>>◌, raise_if}
use multi_agent_aircraft_dev.Evidence.{ExternalVersion}
use multi_agent_aircraft_dev.Models.{EngineeringElement, EngineeringRelation, EngineeringGraph}
use multi_agent_aircraft_dev.Baselines.{ExternalSystemVersion, Baseline, BaselineStore}
use multi_agent_aircraft_dev.Workspaces.{Workspace}

-- What the reconciler raises, one constructor for each message; `raised` is an adapter's exception.
pub data ReconcilerError : Type 0 where
  no_canonical unknown_endpoint : ReconcilerError
  no_adapters : List String → ReconcilerError
  no_git_repository duplicate_versions baseline_stale : ReconcilerError
  initial_lacks_versions baseline_lacks_versions : List String → ReconcilerError
  operations_missing : String → List String → ReconcilerError
  wrong_version key_error : ReconcilerError
  -- of the constructor
  names_not_unique blank_name : ReconcilerError
  raised : String → ReconcilerError

-- The dictionaries `relation_sources` and `relation_targets`.
pub record Endpoints : Type 0 where
  pub sources : Dict ℕ EngineeringElement
  pub targets : Dict ℕ EngineeringElement

-- What is known before the first call.
pub record Plan : Type 0 where
  pub used : List String
  pub source_versions : Dict String String
  pub targets : Dict ℕ EngineeringElement

pub data AdapterCall : Type 0 where
  create_workspace : ℕ → String → String → AdapterCall
  apply_element : ℕ → EngineeringElement → AdapterCall
  apply_relation : ℕ → EngineeringRelation → AdapterCall
  get_workspace_version : ℕ → AdapterCall

-- The calls made so far, each with the system that it went to.
abbrev pub Log : Type 0
Log = List (String × AdapterCall)

-- `missing_methods` are those of `_WORKSPACE_METHODS` that the object lacks.
pub record WorkspaceAdapter : Type 0 where
  pub missing_methods : List String
  pub answer : Log → AdapterCall → Result String (Unit {0})
  pub version : Log → ℕ → Result String ExternalVersion

abbrev pub Adapters : Type 0
Adapters = Dict String WorkspaceAdapter

-- The attributes of the reconciler.
pub record Coordinator : Type 0 where
  pub adapters : Adapters
  pub canonical : Option (ℕ → Option EngineeringElement)
  pub baselines : Option BaselineStore
