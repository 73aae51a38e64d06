-- ===== src/Tools/Permits.antt =====
-- What an authorized call of a tool has, in application/tool_invocation.py.
use multi_agent_aircraft_dev.Base.{
  ℕ, ◌≡◌, ◌≢◌, ◌≤◌, refl, Bool, true, false, not, Option, none, some, Memᴰ, arith, ◌==◌, ==_iff,
  nat_eq, string_eq, option_eq, ltb, find, find-Memᴰ, Option-cases, inl, inr, subst,
}
use multi_agent_aircraft_dev.Errors.{Result, ok, ◌>>◌, raise_if, then-ok, raise_if-ok}
use multi_agent_aircraft_dev.ChangeControl.{l3_approve, level_eq, level_rank}
use multi_agent_aircraft_dev.Gateway.World.{Actor, is_ai}
use multi_agent_aircraft_dev.Tools.{
  ToolTrustLevel, sandbox, trust_rank, physical, side_effect_eq, active, tool_state_eq,
  ToolPermission, ToolDescriptor,
}
use multi_agent_aircraft_dev.Tools.Policy.{
  Denied, not_active, disabled, trust_insufficient, wrong_project, ToolInvocationRequest,
  require_minimum_trust, is_operation, authorize_permission, other_project, authorize,
}

-- What an authorized call has.
pub record IsPermitted (tool : ToolDescriptor) (request : ToolInvocationRequest) (actor : Actor)
    (minimum_trust : ToolTrustLevel) (project_id : Option ℕ) : Type 0 where
  pub active_tool : tool.lifecycle_state ≡ active
  pub enabled_tool : tool.enabled ≡ true
  pub trusted : trust_rank minimum_trust ≤ trust_rank tool.trust_level
  pub trusted_for_ai : is_ai actor ≡ true → trust_rank sandbox ≤ trust_rank tool.trust_level
  pub project : tool.project_scoped ≡ true → (project_id ≢ none) × (request.project_id ≡ project_id)
  pub same_actor : request.actor_id ≡ actor.actor_id
  pub permission : ToolPermission
  pub declared : Memᴰ permission tool.permissions
  pub operation : permission.operation ≡ request.operation
  pub level : level_rank permission.authorization_level ≤ level_rank actor.authorization_level
  pub no_l3_for_ai : is_ai actor ≡ true → permission.authorization_level ≢ l3_approve
  pub not_physical : permission.side_effect ≢ physical

authorize_permission-ok :
    (p : ToolPermission) (request : ToolInvocationRequest) (actor : Actor)
    → authorize_permission (some p) request actor ≡ ok tt
    → (request.actor_id ≡ actor.actor_id)
      × (level_rank p.authorization_level ≤ level_rank actor.authorization_level)
      × (is_ai actor ≡ true → p.authorization_level ≢ l3_approve)
      × (p.side_effect ≢ physical)
unfolding authorize_permission
authorize_permission-ok p request actor h =
    let same : request.authorization_level ≡ actor.authorization_level =
      ground (arith, ==_iff request.authorization_level actor.authorization_level) in
    let enough : level_rank p.authorization_level ≤ level_rank request.authorization_level =
      ground (arith) in
    (
      ground (arith, ==_iff request.actor_id actor.actor_id),
      subst (λ l. level_rank p.authorization_level ≤ level_rank l) same enough,
      ground (arith, ==_iff p.authorization_level l3_approve),
      ground (arith, ==_iff p.side_effect physical),
    )

no_permission :
    (request : ToolInvocationRequest) (actor : Actor)
    → authorize_permission none request actor ≡ ok tt
    → ⊥
unfolding authorize_permission
no_permission request actor h = ground arith

not-false : (b : Bool) → not b ≡ false → b ≡ true
not-false true h = refl
not-false false h = absurd (ground arith)

module _ (tool : ToolDescriptor) (request : ToolInvocationRequest) (actor : Actor)
    (minimum_trust : ToolTrustLevel) (project_id : Option ℕ) where
  authorize-tests :
      authorize tool request actor minimum_trust project_id ≡ ok tt
      → (require_minimum_trust actor minimum_trust ≡ ok tt)
        × ((tool.lifecycle_state == active) ≡ true)
        × (tool.enabled ≡ true)
        × (ltb (trust_rank tool.trust_level) (trust_rank minimum_trust) ≡ false)
        × (other_project tool request project_id ≡ false)
        × (authorize_permission
              (find (is_operation request.operation) tool.permissions)
              request
              actor
            ≡ ok tt)
  unfolding authorize
  authorize-tests h =
      let last : Result Denied (Unit {0}) =
        authorize_permission (find (is_operation request.operation) tool.permissions) request
          actor in
      let project : Result Denied (Unit {0}) =
        raise_if (other_project tool request project_id) wrong_project in
      let trust : Result Denied (Unit {0}) =
        raise_if (ltb (trust_rank tool.trust_level) (trust_rank minimum_trust))
          trust_insufficient in
      let enabled : Result Denied (Unit {0}) = raise_if (not tool.enabled) disabled in
      let state : Result Denied (Unit {0}) =
        raise_if (not (tool.lifecycle_state == active)) not_active in
      let (a, h1) =
        then-ok (require_minimum_trust actor minimum_trust)
          (state >> (enabled >> (trust >> (project >> last)))) h in
      let (b, h2) = then-ok state (enabled >> (trust >> (project >> last))) h1 in
      let (c, h3) = then-ok enabled (trust >> (project >> last)) h2 in
      let (d, h4) = then-ok trust (project >> last) h3 in
      let (e, f) = then-ok project last h4 in
      (
        a,
        not-false (tool.lifecycle_state == active)
            (raise_if-ok (not (tool.lifecycle_state == active)) not_active b),
        not-false tool.enabled (raise_if-ok (not tool.enabled) disabled c),
        raise_if-ok (ltb (trust_rank tool.trust_level) (trust_rank minimum_trust))
            trust_insufficient d,
        raise_if-ok (other_project tool request project_id) wrong_project e,
        f,
      )

  trusted-for-ai :
      require_minimum_trust actor minimum_trust ≡ ok tt
      → is_ai actor ≡ true
      → trust_rank sandbox ≤ trust_rank minimum_trust
  unfolding require_minimum_trust
  trusted-for-ai h a = ground arith

  in_project :
      other_project tool request project_id ≡ false
      → tool.project_scoped ≡ true
      → (project_id ≢ none) × (request.project_id ≡ project_id)
  unfolding other_project
  in_project h scoped = ground (arith, ==_iff request.project_id project_id)

ltb-false : (a b : ℕ) → ltb a b ≡ false → b ≤ a
ltb-false a b h = ground arith

-- An authorized call is one of an active, enabled tool with at least the trust that is asked for, at
-- least that of the sandbox for an AI, in the tool's project if it is bound to one, by the actor that
-- the request names, for a declared operation that needs no more than the actor's level, is not
-- reserved for L3 if the actor is an AI, and has no physical effect.
pub authorize-IsPermitted :
    (tool : ToolDescriptor) (request : ToolInvocationRequest) (actor : Actor)
    (minimum_trust : ToolTrustLevel) (project_id : Option ℕ)
    → authorize tool request actor minimum_trust project_id ≡ ok tt
    → IsPermitted tool request actor minimum_trust project_id
authorize-IsPermitted tool request actor minimum_trust project_id h =
    let (minimum, on, enabled, trust, project, rest) =
      authorize-tests tool request actor minimum_trust project_id h in
    let trusted : trust_rank minimum_trust ≤ trust_rank tool.trust_level =
      ltb-false (trust_rank tool.trust_level) (trust_rank minimum_trust) trust in
    elim (Option-cases (find (is_operation request.operation) tool.permissions)) [
      | inl missing ↦ absurd (
          no_permission request actor
            (subst (λ o. authorize_permission o request actor ≡ ok tt) missing rest))
      | inr (p, found) ↦
          let (declared, named) =
            find-Memᴰ (is_operation request.operation) tool.permissions found in
          let (same, level, no_l3, not_physical) =
            authorize_permission-ok p request actor
              (subst (λ o. authorize_permission o request actor ≡ ok tt) found rest) in
          record {
            active_tool = (==_iff tool.lifecycle_state active).0 on;
            enabled_tool = enabled;
            trusted = trusted;
            trusted_for_ai = λ a. omega (
              arith,
              trusted,
              trusted-for-ai tool request actor minimum_trust project_id minimum a,
            );
            project = in_project tool request actor minimum_trust project_id project;
            same_actor = same;
            permission = p;
            declared = declared;
            operation = (==_iff p.operation request.operation).0 named;
            level = level;
            no_l3_for_ai = no_l3;
            not_physical = not_physical;
          }
    ]
