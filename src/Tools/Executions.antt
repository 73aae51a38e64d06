-- ===== src/Tools/Executions.antt =====
-- What an invocation of a tool does, in application/tool_invocation.py.
use multi_agent_aircraft_dev.Base.{
  arith, ℕ, String, ◌≡◌, refl, ap, subst, ◌⊎◌, inl, inr, Option, none, some, Option-cases, [], ◌∷◌,
  ◌++◌, string_eq,
}
use multi_agent_aircraft_dev.Dict.{lookup}
use multi_agent_aircraft_dev.Errors.{Result-cases, Result, ok, err, ◌>>◌}
use multi_agent_aircraft_dev.Audit.{AuditEvent, AuditResult, success, failure, denied, record_event}
use multi_agent_aircraft_dev.Gateway.World.{Actor}
use multi_agent_aircraft_dev.Tools.{ToolTrustLevel, ToolDescriptor}
use multi_agent_aircraft_dev.Tools.Policy.{Denied, ToolInvocationRequest, authorize}
use multi_agent_aircraft_dev.Tools.Permits.{IsPermitted, authorize-IsPermitted}
use multi_agent_aircraft_dev.Tools.Lifecycle.{ToolWorld}
use multi_agent_aircraft_dev.Tools.Invocation.{
  Message, Adapter, InvocationError, by_policy, by_adapter, no_adapter, tool_not_registered,
  lift_policy, ToolInvocationResult, record_invocation, executed, resolve, invoke_resolved, invoke,
}

-- One event is added, with this result.
abbrev pub Adds : AuditResult → ToolWorld → ToolWorld → Type 0
Adds result w v =
    (event : AuditEvent) × (v.audit ≡ w.audit ++ event ∷ [])
    × (event.result ≡ result)
    × (v.tools ≡ w.tools)

pair_at :
    Result InvocationError (ToolDescriptor × Adapter)
    → ToolDescriptor × Adapter
    → ToolDescriptor × Adapter
pair_at (ok p) q = p
pair_at (err e) q = q

lift_policy-ok :
    (x : Result Denied (Unit {0})) (p q : ToolDescriptor × Adapter)
    → (lift_policy x >> ok p) ≡ ok q
    → (x ≡ ok tt) × (p ≡ q)
unfolding pair_at
lift_policy-ok (ok u) p q h = (refl, ap (λ x. pair_at x p) h)
lift_policy-ok (err e) p q h = absurd (cc h)

no_adapter-err :
    (x : Result Denied (Unit {0})) (p : ToolDescriptor × Adapter)
    → (lift_policy x >> err no_adapter) ≡ ok p
    → ⊥
no_adapter-err (ok u) p h = cc h
no_adapter-err (err e) p h = cc h

module _ (message : Message) (adapters : String → Option Adapter) (request : ToolInvocationRequest)
    (arguments : String) (actor : Actor) (minimum_trust : ToolTrustLevel) (project_id : Option ℕ)
    (w : ToolWorld) where
  -- The adapter has run, for a tool of the registry and a call that is permitted.
  pub record IsExecution (answer : Result String String) : Type 0 where
    pub tool : ToolDescriptor
    pub run : Adapter
    pub stored : lookup request.tool_id w.tools ≡ some tool
    pub adapter_found : adapters request.tool_id ≡ some run
    pub permitted : IsPermitted tool request actor minimum_trust project_id
    pub answered : run tool request.operation arguments ≡ answer

  -- Why a call is denied before any adapter runs: the tool is not registered, or the policy refuses the
  -- call of the registered tool, or it would allow it but the tool has no adapter.
  pub data IsDenial : InvocationError → Type 0 where
    unregistered : lookup request.tool_id w.tools ≡ none → IsDenial tool_not_registered
    forbidden :
        (tool : ToolDescriptor) (d : Denied)
        → lookup request.tool_id w.tools ≡ some tool
        → authorize tool request actor minimum_trust project_id ≡ err d
        → IsDenial (by_policy d)
    unadapted :
        (tool : ToolDescriptor)
        → lookup request.tool_id w.tools ≡ some tool
        → IsPermitted tool request actor minimum_trust project_id
        → adapters request.tool_id ≡ none
        → IsDenial no_adapter

  resolve-err :
      (e : InvocationError)
      → resolve message adapters request actor minimum_trust project_id
          (lookup request.tool_id w.tools)
          (adapters request.tool_id)
        ≡ err e
      → IsDenial e
  unfolding resolve
  resolve-err e h = elim (Option-cases (lookup request.tool_id w.tools)) [
    | inl missing ↦ subst IsDenial (ground arith) (unregistered missing)
    | inr (tool, stored) ↦
        elim (Result-cases (authorize tool request actor minimum_trust project_id)) [
          | inr (d, refused) ↦ elim (Option-cases (adapters request.tool_id)) [
            | inl absent ↦ subst IsDenial (ground arith) (forbidden tool d stored refused)
            | inr (run, found) ↦ subst IsDenial (ground arith) (forbidden tool d stored refused)
          ]
          | inl (u, passed) ↦ elim (Option-cases (adapters request.tool_id)) [
            | inl absent ↦ subst IsDenial (ground arith) (
                unadapted tool stored
                  (authorize-IsPermitted tool request actor minimum_trust project_id passed) absent)
            | inr (run, found) ↦ absurd (ground arith)
          ]
        ]
  ]

  resolve-found :
      (o : Option ToolDescriptor) (p : Option Adapter) (tool : ToolDescriptor) (run : Adapter)
      → resolve message adapters request actor minimum_trust project_id o p ≡ ok (tool, run)
      → (o ≡ some tool)
        × (p ≡ some run)
        × (authorize tool request actor minimum_trust project_id ≡ ok tt)
  unfolding resolve
  resolve-found none p tool run h = absurd (cc h)
  resolve-found (some t) none tool run h =
      absurd (no_adapter-err (authorize t request actor minimum_trust project_id) (tool, run) h)
  resolve-found (some t) (some r) tool run h =
      let (passed, same) =
        lift_policy-ok (authorize t request actor minimum_trust project_id) (t, r) (tool, run) h in
      (
        ap (λ q. some q.0) same,
        ap (λ q. some q.1) same,
        subst (λ q. authorize q.0 request actor minimum_trust project_id ≡ ok tt) same passed,
      )

  resolve-ok :
      (tool : ToolDescriptor) (run : Adapter)
      → resolve message adapters request actor minimum_trust project_id
          (lookup request.tool_id w.tools)
          (adapters request.tool_id)
        ≡ ok (tool, run)
      → IsExecution (run tool request.operation arguments)
  resolve-ok tool run h =
      let (stored, found, passed) =
        resolve-found (lookup request.tool_id w.tools) (adapters request.tool_id) tool run h in
      record {
        tool = tool;
        run = run;
        stored = stored;
        adapter_found = found;
        permitted = authorize-IsPermitted tool request actor minimum_trust project_id passed;
        answered = refl;
      }

  -- the event and the state of each ending
  Adds-record :
      (result : AuditResult) (reason tool_id operation : String)
      → Adds result w (record_invocation actor result reason tool_id operation w)
  unfolding record_invocation record_event
  Adds-record result reason tool_id operation = (_, refl, refl, refl)

  abbrev pub Outcome : Result InvocationError ToolInvocationResult → ToolWorld → Type 0
  Outcome r v =
      ((result : ToolInvocationResult) × (r ≡ ok result)
        × IsExecution (ok result.output)
        × Adds success w v)
      ⊎ (((e : String) × (r ≡ err (by_adapter e)) × IsExecution (err e) × Adds failure w v)
          ⊎ ((e : InvocationError) × (r ≡ err e) × IsDenial e × Adds denied w v))

  executed-Outcome :
      (tool : ToolDescriptor) (answer : Result String String)
      → IsExecution answer
      → (let end = executed message adapters actor request tool w answer in Outcome end.0 end.1)
  unfolding executed
  executed-Outcome tool (ok output) h =
      inl
        (_, refl, h, Adds-record success "tool execution completed" tool.tool_id request.operation)
  executed-Outcome tool (err e) h =
      inr (inl (e, refl, h, Adds-record failure e request.tool_id request.operation))

  resolved-Outcome :
      (found : Result InvocationError (ToolDescriptor × Adapter))
      → ((tool : ToolDescriptor) (run : Adapter)
          → found ≡ ok (tool, run)
          → IsExecution (run tool request.operation arguments))
      → ((e : InvocationError) → found ≡ err e → IsDenial e)
      → (let end = invoke_resolved message adapters request arguments actor w found in
          Outcome end.0 end.1)
  unfolding invoke_resolved
  resolved-Outcome (err e) h k =
      inr
        (inr (e, refl, k e refl, Adds-record denied (message e) request.tool_id request.operation))
  resolved-Outcome (ok (tool, run)) h k =
      executed-Outcome tool (run tool request.operation arguments) (h tool run refl)

  -- How a call ends: the adapter ran for a stored tool in a call that is permitted, and answered, and a
  -- success is recorded; or so, but it raised, and its exception and a failure are recorded; or the
  -- call is denied, because the tool is not registered, the policy refuses the call, or the tool has no
  -- adapter, and a denial is recorded. In each case the registry is as it was, and exactly one event is
  -- added.
  pub invoke_lem :
      (let end = invoke message adapters request arguments actor minimum_trust project_id w in
        Outcome end.0 end.1)
  unfolding invoke
  invoke_lem =
      resolved-Outcome
        (resolve message adapters request actor minimum_trust project_id
          (lookup request.tool_id w.tools) (adapters request.tool_id))
        resolve-ok resolve-err
