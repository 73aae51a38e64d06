-- ===== src/AdapterReconciler/Planning.antt =====
-- infrastructure/workspace_reconciler.py, the part before the first external call: which endpoints
-- the staged relations have, which external systems take part, and from which version each starts.
use multi_agent_aircraft_dev.Base.{
  is_blank, ℕ, String, Bool, true, false, not, ◌||◌, Option, none, some, List, [], ◌∷◌, ◌++◌, map,
  ◌==◌, nat_eq, string_eq, option_eq, length, select, to_set, sort_with, text_le, is_some,
}
use multi_agent_aircraft_dev.Dict.{keys, Dict, lookup, insert, has_key, values}
use multi_agent_aircraft_dev.Errors.{Result, ok, err, ◌>>=◌, ◌>>◌, raise_if, each}
use multi_agent_aircraft_dev.Evidence.{ExternalVersion}
use multi_agent_aircraft_dev.Models.{EngineeringElement, EngineeringRelation, EngineeringGraph}
use multi_agent_aircraft_dev.Baselines.{ExternalSystemVersion, Baseline, BaselineStore}
use multi_agent_aircraft_dev.Workspaces.{Workspace}
use multi_agent_aircraft_dev.AdapterReconciler.{
  names_not_unique, blank_name, Adapters, ReconcilerError, no_canonical, unknown_endpoint,
  no_adapters, no_git_repository, duplicate_versions, baseline_stale, initial_lacks_versions,
  baseline_lacks_versions, operations_missing, wrong_version, key_error, raised, Endpoints, Plan,
  WorkspaceAdapter, Coordinator,
}

-- `{element.id: element for element in elements}`
unfoldable pub index_elements :
    Dict ℕ EngineeringElement → List EngineeringElement → Dict ℕ EngineeringElement
index_elements d [] = d
index_elements d (e ∷ es) = index_elements (insert e.id e d) es

-- `{version.system: version.version for version in versions}`
unfoldable pub index_versions : Dict String String → List (String × String) → Dict String String
index_versions d [] = d
index_versions d ((system, version) ∷ vs) = index_versions (insert system version d) vs

-- An endpoint that is not staged is looked up in the canonical repository.
unfoldable pub endpoint :
    (ℕ → Option EngineeringElement) → ℕ → Option EngineeringElement → Option EngineeringElement
endpoint get id (some e) = some e
endpoint get id none = get id

unfoldable pub both_endpoints :
    Option EngineeringElement
    → Option EngineeringElement
    → Result ReconcilerError (EngineeringElement × EngineeringElement)
both_endpoints (some source) (some target) = ok (source, target)
both_endpoints _ _ = err unknown_endpoint

-- The endpoints of one relation.
unfoldable pub resolve :
    Option (ℕ → Option EngineeringElement)
    → Dict ℕ EngineeringElement
    → EngineeringRelation
    → Result ReconcilerError (EngineeringElement × EngineeringElement)
unfolding both_endpoints endpoint
resolve none staged relation = do
  raise_if
      (not (is_some (lookup relation.source_id staged))
        || not (is_some (lookup relation.target_id staged)))
      no_canonical
  both_endpoints (lookup relation.source_id staged) (lookup relation.target_id staged)
resolve (some get) staged relation =
    both_endpoints (endpoint get relation.source_id (lookup relation.source_id staged))
      (endpoint get relation.target_id (lookup relation.target_id staged))

-- The loop over the relations.
unfoldable pub resolve_all :
    Option (ℕ → Option EngineeringElement)
    → Dict ℕ EngineeringElement
    → Endpoints
    → List EngineeringRelation
    → Result ReconcilerError Endpoints
unfolding resolve
resolve_all canonical staged found [] = ok found
resolve_all canonical staged found (relation ∷ relations) = do
  let ends = resolve canonical staged relation
  (source, target) ← ends
  resolve_all canonical staged
      (record {
        sources = insert relation.id source found.sources;
        targets = insert relation.id target found.targets;
      })
      relations

abbrev pub system_of : EngineeringElement → String
system_of e = e.external_system

-- `sorted(systems)`
unfoldable pub used_systems : EngineeringGraph → Endpoints → List String
used_systems changes ends = sort_with text_le (
    to_set (
      map system_of changes.elements
      ++ (map system_of (values ends.sources) ++ map system_of (values ends.targets))))

-- `sorted(set(used) - versions.keys())`
unfoldable pub lacking : List String → Dict String String → List String
lacking used versions = select (λ system. not (has_key system versions)) used

abbrev is_nil {ℓ} : {A : Type ℓ} → List A → Bool
is_nil [] = true
is_nil (_ ∷ _) = false

-- `not workspace.source_git_repository`
abbrev no_text : Option String → Bool
no_text none = true
no_text (some t) = t == ""

abbrev workspace_version : ExternalVersion → String × String
workspace_version v = (v.system, v.version)

abbrev baseline_version : ExternalSystemVersion → String × String
baseline_version v = (v.system, v.version)

-- The versions of a workspace without a baseline.
unfoldable pub initial_versions :
    Workspace → List String → Result ReconcilerError (Dict String String)
unfolding index_versions lacking
initial_versions workspace used = do
  raise_if (no_text workspace.source_git_repository) no_git_repository
  let versions = index_versions [] (map workspace_version workspace.source_external_versions)
  raise_if (not (length versions == length workspace.source_external_versions)) duplicate_versions
  raise_if (not (is_nil (lacking used versions))) (initial_lacks_versions (lacking used versions))
  ok versions

-- The versions of the workspace's baseline.
unfoldable pub baseline_versions :
    Option Baseline → Workspace → List String → Result ReconcilerError (Dict String String)
unfolding index_versions lacking
baseline_versions none workspace used = err baseline_stale
baseline_versions (some baseline) workspace used = do
  raise_if (not (baseline.git_commit == workspace.source_git_commit)) baseline_stale
  let versions = index_versions [] (map baseline_version baseline.external_versions)
  raise_if (not (is_nil (lacking used versions))) (baseline_lacks_versions (lacking used versions))
  ok versions

-- `source_versions`: without a registry of baselines, or without a system that takes part, empty.
unfoldable pub source_versions_of :
    Option BaselineStore
    → Option ℕ
    → Workspace
    → List String
    → Result ReconcilerError (Dict String String)
unfolding initial_versions baseline_versions
source_versions_of baselines none workspace used = initial_versions workspace used
source_versions_of none (some id) workspace used = ok []
source_versions_of (some store) (some id) workspace [] = ok []
source_versions_of (some store) (some id) workspace (s ∷ used) =
    baseline_versions (lookup id store) workspace (s ∷ used)

-- A system's adapter has all operations.
unfoldable pub check_methods : Option WorkspaceAdapter → String → Result ReconcilerError (Unit {0})
check_methods none system = err key_error
check_methods (some adapter) system = elim adapter.missing_methods [
  | [] ↦ ok tt
  | m ∷ ms ↦ err (operations_missing system (m ∷ ms))
]

unfoldable pub refuse_missing : List String → Result ReconcilerError (Unit {0})
refuse_missing [] = ok tt
refuse_missing (s ∷ systems) = err (no_adapters (s ∷ systems))

-- Everything up to the first call.
unfoldable pub make_plan : Coordinator → Workspace → EngineeringGraph → Result ReconcilerError Plan
unfolding index_elements resolve_all used_systems source_versions_of check_methods refuse_missing
make_plan self workspace changes =
    resolve_all self.canonical (index_elements [] changes.elements)
      (record { sources = []; targets = [] }) changes.relations
    >>= λ ends.
        let used = used_systems changes ends in
        refuse_missing (select (λ system. not (has_key system self.adapters)) used)
        >> (source_versions_of self.baselines workspace.source_baseline_id workspace used
            >>= λ versions.
                each (λ system. check_methods (lookup system self.adapters) system) used
                >> ok (record { used = used; source_versions = versions; targets = ends.targets }))

-- What the adapter raised.
abbrev pub answered : {A : Type 0} → Result String A → Result ReconcilerError A
answered (ok a) = ok a
answered (err t) = err (raised t)

-- The version that an adapter reported must be its own system's.
unfoldable pub own_version : String → ExternalVersion → Result ReconcilerError ExternalVersion
own_version system v = do raise_if (not (v.system == system)) wrong_version; ok v

-- The same of what the adapter answered.
unfoldable pub checked :
    String → Result String ExternalVersion → Result ReconcilerError ExternalVersion
unfolding own_version
checked system r = answered r >>= own_version system

-- `{adapter.system_name: adapter for adapter in adapters}`
unfoldable pub index_adapters : Adapters → List (String × WorkspaceAdapter) → Adapters
index_adapters d [] = d
index_adapters d ((system_name, adapter) ∷ adapters) =
    index_adapters (insert system_name adapter d) adapters

-- `AdapterWorkspaceReconciler(adapters, canonical, baselines)`
unfoldable pub make_coordinator :
    List (String × WorkspaceAdapter)
    → Option (ℕ → Option EngineeringElement)
    → Option BaselineStore
    → Result ReconcilerError Coordinator
unfolding index_adapters
make_coordinator adapters canonical baselines = do
  let by_name = index_adapters [] adapters
  raise_if (not (length by_name == length adapters)) names_not_unique
  raise_if (not (is_nil (select is_blank (keys by_name)))) blank_name
  ok (record { adapters = by_name; canonical = canonical; baselines = baselines })
