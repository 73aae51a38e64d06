-- ===== src/AdapterReconciler/Calls.antt =====
-- infrastructure/workspace_reconciler.py, the calls of the adapters. An adapter answers a call by the
-- calls that were made before it; what it does in its external system is not modelled.
use multi_agent_aircraft_dev.Base.{
  ℕ, String, Option, none, some, List, [], ◌∷◌, ◌++◌, nat_eq, string_eq, sort_by,
}
use multi_agent_aircraft_dev.Dict.{lookup}
use multi_agent_aircraft_dev.Errors.{Result, ok, err}
use multi_agent_aircraft_dev.Evidence.{ExternalVersion}
use multi_agent_aircraft_dev.Models.{
  EngineeringElement, EngineeringRelation, EngineeringGraph, element_id, relation_id,
  compute_change_set_hash,
}
use multi_agent_aircraft_dev.Workspaces.{Workspace}
use multi_agent_aircraft_dev.AdapterReconciler.{
  ReconcilerError, key_error, Plan, AdapterCall, create_workspace, apply_element, apply_relation,
  get_workspace_version, Log, WorkspaceAdapter, Adapters, Coordinator,
}
use multi_agent_aircraft_dev.AdapterReconciler.Planning.{answered, checked, make_plan}

abbrev pub Calls : Type 0 → Type 0
Calls A = Log → Result ReconcilerError A × Log

infixl 5 ◌>>=◌ ◌>>◌
abbrev pub ◌>>=◌ : {A B : Type 0} → Calls A → (A → Calls B) → Calls B
◌>>=◌ m f log = let (r, log') = m log in elim r [ ok a ↦ f a log' | err e ↦ (err e, log') ]

abbrev pub ◌>>◌ : {B : Type 0} → Calls Unit → Calls B → Calls B
m >> k = m >>= λ _. k

abbrev pub pure : {A : Type 0} → A → Calls A
pure a log = (ok a, log)

abbrev pub lift : {A : Type 0} → Result ReconcilerError A → Calls A
lift r log = (r, log)

-- `await self._adapters[system].<call>`
unfoldable pub send_to : Option WorkspaceAdapter → String → AdapterCall → Calls Unit
send_to none system call log = (err key_error, log)
send_to (some adapter) system call log =
    (answered (adapter.answer log call), log ++ ((system, call) ∷ []))

unfoldable pub send : Adapters → String → AdapterCall → Calls Unit
unfolding send_to
send adapters system call = send_to (lookup system adapters) system call

-- `for x in xs: act(x)`
unfoldable pub for_each : {A : Type 0} → (A → Calls Unit) → List A → Calls Unit
for_each act [] log = (ok tt, log)
for_each act (x ∷ xs) log = (act x >> for_each act xs) log

-- `version = await ...get_workspace_version(...)` and the test of its system
unfoldable pub read_from : Option WorkspaceAdapter → String → ℕ → Calls ExternalVersion
unfolding checked
read_from none system id log = (err key_error, log)
read_from (some adapter) system id log =
    (checked system (adapter.version log id), log ++ ((system, get_workspace_version id) ∷ []))

unfoldable pub read_version : Adapters → ℕ → String → Calls ExternalVersion
unfolding read_from
read_version adapters id system = read_from (lookup system adapters) system id

-- The last loop, with the versions in the order of the systems.
unfoldable pub read_versions : Adapters → ℕ → List String → Calls (List ExternalVersion)
unfolding read_version
read_versions adapters id [] log = (ok [], log)
read_versions adapters id (system ∷ systems) log =
    (do v ← read_version adapters id system; vs ← read_versions adapters id systems; pure (v ∷ vs))
      log

-- `source_versions.get(system, workspace.source_git_commit)`
abbrev pub start_version : Workspace → Option String → String
start_version workspace none = workspace.source_git_commit
start_version workspace (some version) = version

unfoldable pub create_in : Adapters → Plan → Workspace → String → String → Calls Unit
create_in adapters plan workspace hash system = send adapters system (
    create_workspace workspace.id (start_version workspace (lookup system plan.source_versions))
      hash)

unfoldable pub apply_one : Adapters → Workspace → EngineeringElement → Calls Unit
apply_one adapters workspace element =
    send adapters element.external_system (apply_element workspace.id element)

unfoldable pub send_relation :
    Option EngineeringElement → Adapters → Workspace → EngineeringRelation → Calls Unit
send_relation none adapters workspace relation log = (err key_error, log)
send_relation (some target) adapters workspace relation log =
    send adapters target.external_system (apply_relation workspace.id relation) log

unfoldable pub relate_one : Adapters → Plan → Workspace → EngineeringRelation → Calls Unit
unfolding send_relation
relate_one adapters plan workspace relation =
    send_relation (lookup relation.id plan.targets) adapters workspace relation

-- The calls, in the order of the code.
unfoldable pub carry_out :
    Adapters → Plan → Workspace → EngineeringGraph → String → Calls (List ExternalVersion)
unfolding for_each create_in apply_one relate_one read_versions sort_by
carry_out adapters plan workspace changes hash = do
  for_each (create_in adapters plan workspace hash) plan.used
  for_each (apply_one adapters workspace) (sort_by element_id changes.elements)
  for_each (relate_one adapters plan workspace) (sort_by relation_id changes.relations)
  read_versions adapters workspace.id plan.used

-- `AdapterWorkspaceReconciler.reconcile`
unfoldable pub reconcile :
    (EngineeringGraph → String)
    → Coordinator
    → Workspace
    → EngineeringGraph
    → Calls (List ExternalVersion)
unfolding make_plan carry_out compute_change_set_hash
reconcile digest self workspace changes = do
  plan ← lift (make_plan self workspace changes)
  carry_out self.adapters plan workspace changes (compute_change_set_hash digest changes)
