-- ===== src/AdapterReconciler/Order.antt =====
-- infrastructure/workspace_reconciler.py: which calls a reconciliation makes, and in which order.
use mathlib.Core.List.{append_assoc, append-nil}
use multi_agent_aircraft_dev.Base.{
  ℕ, String, ◌≡◌, refl, sym, subst, ◌∙◌, ap, Option, none, some, Option-cases, List, [], ◌∷◌, ◌++◌,
  map, arith, nat_eq, string_eq, sort_by, inl, inr,
}
use multi_agent_aircraft_dev.Dict.{lookup}
use multi_agent_aircraft_dev.Errors.{Result, ok, err}
use multi_agent_aircraft_dev.Evidence.{ExternalVersion}
use multi_agent_aircraft_dev.Models.{
  EngineeringElement, EngineeringRelation, EngineeringGraph, element_id, relation_id,
}
use multi_agent_aircraft_dev.Workspaces.{Workspace}
use multi_agent_aircraft_dev.AdapterReconciler.{
  ReconcilerError, Plan, AdapterCall, create_workspace, apply_element, apply_relation,
  get_workspace_version, Log, Adapters,
}
use multi_agent_aircraft_dev.AdapterReconciler.Planning.{checked, own_version}
use multi_agent_aircraft_dev.AdapterReconciler.Calls.{
  Calls, ◌>>=◌, ◌>>◌, pure, send_to, send, for_each, read_from, read_version, read_versions,
  start_version, create_in, apply_one, send_relation, relate_one, carry_out,
}

pair_cases :
    {A B : Type 0} (r : Result ReconcilerError A) (mid : Log) (f : A → Calls B) {b : B} {out : Log}
    → ((λ _. (r, mid)) >>= f) mid ≡ (ok b, out)
    → (a : A) × (r ≡ ok a) × (f a mid ≡ (ok b, out))
pair_cases (ok a) mid f h = (a, refl, h)
pair_cases (err e) mid f h = absurd (ground arith)

-- The first action of a block that returned has returned, and so has the rest after it.
pub bind_cases :
    {A B : Type 0} (m : Calls A) (f : A → Calls B) (log : Log) {b : B} {out : Log}
    → (m >>= f) log ≡ (ok b, out)
    → (a : A) × (mid : Log) × (m log ≡ (ok a, mid)) × (f a mid ≡ (ok b, out))
bind_cases m f log h =
    let (r, mid) = m log in let (a, e, k) = pair_cases r mid f h in (a, mid, rw e refl, k)

send-log :
    (adapters : Adapters) (system : String) (call : AdapterCall) (log : Log) {u : Unit {0}}
    {out : Log}
    → send adapters system call log ≡ (ok u, out)
    → out ≡ log ++ ((system, call) ∷ [])
unfolding send send_to
send-log adapters system call log h = elim (Option-cases (lookup system adapters)) [
  | inl missing ↦ absurd (ground arith)
  | inr (adapter, found) ↦ ground arith
]

-- A loop whose body makes one call for each item makes these calls, in the order of the items.
for_each-log :
    {A : Type 0} (act : A → Calls (Unit {0})) (call : A → String × AdapterCall)
    → ((x : A) (log : Log) (u : Unit {0}) (out : Log)
        → act x log ≡ (ok u, out)
        → out ≡ log ++ (call x ∷ []))
    → (xs : List A) (log : Log) {u : Unit {0}} {out : Log} → for_each act xs log ≡ (ok u, out)
    → out ≡ log ++ map call xs
unfolding for_each
for_each-log act call one [] log h = sym (ap (λ p. p.1) h) ∙ sym (append-nil log)
for_each-log act call one (x ∷ xs) log h =
    let (u, mid, first, rest) = bind_cases (act x) (λ _. for_each act xs) log h in
    for_each-log act call one xs mid rest
    ∙ ap (λ l. l ++ map call xs) (one x log u mid first)
    ∙ append_assoc log (call x ∷ []) (map call xs)

-- The calls of the reconciler, one of each kind.
abbrev pub creation : Plan → Workspace → String → String → String × AdapterCall
creation plan workspace hash system = (
  system,
  create_workspace workspace.id (start_version workspace (lookup system plan.source_versions)) hash,
)

abbrev pub application : Workspace → EngineeringElement → String × AdapterCall
application workspace element = (element.external_system, apply_element workspace.id element)

abbrev target_system : Option EngineeringElement → String
target_system none = ""
target_system (some target) = target.external_system

abbrev pub relating : Plan → Workspace → EngineeringRelation → String × AdapterCall
relating plan workspace relation =
    (target_system (lookup relation.id plan.targets), apply_relation workspace.id relation)

abbrev pub reading : Workspace → String → String × AdapterCall
reading workspace system = (system, get_workspace_version workspace.id)

-- All calls for a plan.
abbrev pub calls_of : Plan → Workspace → EngineeringGraph → String → Log
calls_of plan workspace changes hash =
    map (creation plan workspace hash) plan.used
    ++ (map (application workspace) (sort_by element_id changes.elements)
        ++ (map (relating plan workspace) (sort_by relation_id changes.relations)
            ++ map (reading workspace) plan.used))

abbrev pub version_system : ExternalVersion → String
version_system v = v.system

relate_one-log :
    (adapters : Adapters) (plan : Plan) (workspace : Workspace) (relation : EngineeringRelation)
    (log : Log) (u : Unit {0}) (out : Log)
    → relate_one adapters plan workspace relation log ≡ (ok u, out)
    → out ≡ log ++ (relating plan workspace relation ∷ [])
unfolding relate_one send_relation
relate_one-log adapters plan workspace relation log u out h =
    elim (Option-cases (lookup relation.id plan.targets)) [
      | inl missing ↦ absurd (ground arith)
      | inr (target, found) ↦ rw found (
          send-log adapters target.external_system (apply_relation workspace.id relation) log
            (subst (λ t. send_relation t adapters workspace relation log ≡ (ok u, out)) found h))
    ]

-- A version that passes the test is the system's own.
checked-ok :
    (system : String) (r : Result String ExternalVersion) {v : ExternalVersion}
    → checked system r ≡ ok v
    → v.system ≡ system
unfolding checked own_version
checked-ok system (err t) h = absurd (ground arith)
checked-ok system (ok w) h = ground (arith, string_eq.beq_iff w.system system)

read_version-log :
    (adapters : Adapters) (id : ℕ) (system : String) (log : Log) {v : ExternalVersion} {out : Log}
    → read_version adapters id system log ≡ (ok v, out)
    → (v.system ≡ system) × (out ≡ log ++ ((system, get_workspace_version id) ∷ []))
unfolding read_version read_from checked own_version
read_version-log adapters id system log {v} {out} h = elim (Option-cases (lookup system adapters)) [
  | inl missing ↦ absurd (ground arith)
  | inr (adapter, found) ↦
      let k = subst (λ a. read_from a system id log ≡ (ok v, out)) found h in
      (checked-ok system (adapter.version log id) (ap (λ p. p.0) k), sym (ap (λ p. p.1) k))
]

abbrev found_in : Result ReconcilerError (List ExternalVersion) → List ExternalVersion
found_in (ok vs) = vs
found_in (err e) = []

append_four :
    {A : Type 0} (l a b c d : List A) → (((l ++ a) ++ b) ++ c) ++ d ≡ l ++ (a ++ (b ++ (c ++ d)))
append_four l a b c d =
    append_assoc ((l ++ a) ++ b) c d
    ∙ append_assoc (l ++ a) b (c ++ d)
    ∙ append_assoc l a (b ++ (c ++ d))

-- The versions that were read are those of the systems, in their order.
read_versions-log :
    (adapters : Adapters) (workspace : Workspace) (systems : List String) (log : Log)
    {vs : List ExternalVersion} {out : Log}
    → read_versions adapters workspace.id systems log ≡ (ok vs, out)
    → (map version_system vs ≡ systems) × (out ≡ log ++ map (reading workspace) systems)
unfolding read_versions
read_versions-log adapters workspace [] log h = (
  ap (λ r. map version_system (found_in r)) (sym (ap (λ p. p.0) h)),
  sym (ap (λ p. p.1) h) ∙ sym (append-nil log),
)
read_versions-log adapters workspace (system ∷ systems) log h =
    let (v, mid, first, rest) =
      bind_cases (read_version adapters workspace.id system)
        (λ v. read_versions adapters workspace.id systems >>= λ vs. pure (v ∷ vs)) log h in
    let (vs, last, second, end) =
      bind_cases (read_versions adapters workspace.id systems) (λ vs. pure (v ∷ vs)) mid rest in
    let (own, made) = read_version-log adapters workspace.id system log first in
    let (others, further) = read_versions-log adapters workspace systems mid second in
    (
      ap (λ r. map version_system (found_in r)) (sym (ap (λ p. p.0) end))
          ∙ ap (λ s. s ∷ map version_system vs) own
          ∙ ap (λ l. system ∷ l) others,
      sym (ap (λ p. p.1) end)
          ∙ further
          ∙ ap (λ l. l ++ map (reading workspace) systems) made
          ∙ append_assoc log (reading workspace system ∷ []) (map (reading workspace) systems),
    )

-- A run of the calls that returns has made all of them, in their order.
pub carry_out-log :
    (adapters : Adapters) (plan : Plan) (workspace : Workspace) (changes : EngineeringGraph)
    (hash : String) (log : Log) {vs : List ExternalVersion} {out : Log}
    → carry_out adapters plan workspace changes hash log ≡ (ok vs, out)
    → (map version_system vs ≡ plan.used) × (out ≡ log ++ calls_of plan workspace changes hash)
unfolding carry_out create_in apply_one
carry_out-log adapters plan workspace changes hash log {vs} {out} h =
    let read : Calls (List ExternalVersion) = read_versions adapters workspace.id plan.used in
    let relate : Calls (Unit {0}) =
      for_each (relate_one adapters plan workspace) (sort_by relation_id changes.relations) in
    let apply : Calls (Unit {0}) =
      for_each (apply_one adapters workspace) (sort_by element_id changes.elements) in
    let create : Calls (Unit {0}) = for_each (create_in adapters plan workspace hash) plan.used in
    let (_, log_1, made, rest) = bind_cases create (λ _. apply >> (relate >> read)) log h in
    let (_, log_2, applied, rest_2) = bind_cases apply (λ _. relate >> read) log_1 rest in
    let (_, log_3, related, rest_3) = bind_cases relate (λ _. read) log_2 rest_2 in
    let (own, last) = read_versions-log adapters workspace plan.used log_3 rest_3 in
    (
      own,
      last
          ∙ ap (λ l. l ++ map (reading workspace) plan.used)
              (for_each-log (relate_one adapters plan workspace) (relating plan workspace)
                  (relate_one-log adapters plan workspace) (sort_by relation_id changes.relations)
                  log_2 related
                ∙ ap
                    (λ l.
                      l ++ map (relating plan workspace) (sort_by relation_id changes.relations))
                    (for_each-log (apply_one adapters workspace) (application workspace)
                        (λ e l u o.
                          send-log adapters e.external_system (apply_element workspace.id e) l)
                        (sort_by element_id changes.elements) log_1 applied
                      ∙ ap
                          (λ l.
                            l ++ map (application workspace) (sort_by element_id changes.elements))
                          (for_each-log (create_in adapters plan workspace hash)
                            (creation plan workspace hash)
                            (λ s l u o. send-log adapters s ((creation plan workspace hash s).1) l)
                            plan.used log made)))
          ∙ append_four log (map (creation plan workspace hash) plan.used)
              (map (application workspace) (sort_by element_id changes.elements))
              (map (relating plan workspace) (sort_by relation_id changes.relations))
              (map (reading workspace) plan.used),
    )
