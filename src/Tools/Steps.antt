-- ===== src/Tools/Steps.antt =====
-- What the tool services do to the registry, as a step relation, and that every call is a step of it.
use multi_agent_aircraft_dev.Base.{
  ℕ, String, ◌≡◌, ◌≢◌, refl, ◌⊎◌, inl, inr, true, false, ◌||◌, Option, none, some, Option-cases,
  Bool-cases, List, [], ◌∷◌, arith, ◌==◌, ==_iff, string_eq, is_blank, join, if◌then◌else◌, any,
}
use multi_agent_aircraft_dev.Dict.{lookup}
use multi_agent_aircraft_dev.Errors.{Result-cases}
use multi_agent_aircraft_dev.ChangeControl.{l2_modify_workspace, l3_approve, level_eq}
use multi_agent_aircraft_dev.Audit.{human, actor_type_eq, Reason, stated}
use multi_agent_aircraft_dev.Gateway.World.{Actor}
use multi_agent_aircraft_dev.Tools.{
  ToolTrustLevel, ToolLifecycleState, pending_review, rejected, revoked, tool_state_eq,
  ToolDescriptor, ToolStore,
}
use multi_agent_aircraft_dev.Tools.Policy.{ToolInvocationRequest}
use multi_agent_aircraft_dev.Tools.Store.{ToolRegistry}
use multi_agent_aircraft_dev.Tools.Lifecycle.{
  ToolWorld, ToolReviewDecision, is_human, is_l2_or_l3, decided, review_reason, finish,
  record_lifecycle, review_found, review, revocation, revoke_found, revoke,
}
use multi_agent_aircraft_dev.Tools.Invocation.{
  Message, Adapter, declares_l3, as_untrusted, registered, register_user_tool, record_invocation,
  executed, invoke_resolved, resolve, invoke,
}

-- One tool is written, and the others are as they were.
abbrev pub Writes : String → ToolDescriptor → ToolStore → ToolStore → Type 0
Writes id tool s s' = (j : String) → lookup j s' ≡ (if id == j then some tool else lookup j s)

-- The steps that the governance of tools allows.
pub data Governs (by : Actor) (s s' : ToolStore) : Type 0 where
  keeps : s' ≡ s → Governs by s s'
  registers :
      (tool : ToolDescriptor)
      → by.actor_type ≡ human
      → by.authorization_level ≡ l2_modify_workspace
      → any declares_l3 tool.permissions ≡ false
      → (lookup tool.tool_id s ≡ none) ⊎ (lookup tool.tool_id s ≡ some (as_untrusted tool))
      → Writes tool.tool_id (as_untrusted tool) s s'
      → Governs by s s'
  reviews :
      (id : String) (decision : ToolReviewDecision) (current : ToolDescriptor)
      → by.actor_type ≡ human
      → by.authorization_level ≡ l3_approve
      → lookup id s ≡ some current
      → current.lifecycle_state ≡ pending_review
      → Writes id (decided decision current) s s'
      → Governs by s s'
  revokes :
      (id : String) (current : ToolDescriptor)
      → by.actor_type ≡ human
      → (by.authorization_level ≡ l2_modify_workspace) ⊎ (by.authorization_level ≡ l3_approve)
      → lookup id s ≡ some current
      → current.lifecycle_state ≢ rejected
      → current.lifecycle_state ≢ revoked
      → Writes id (revocation current) s s'
      → Governs by s s'

-- A call of one of the services, by an actor.
pub data ToolCall : Type 0 where
  register_call : ToolDescriptor → ToolCall
  review_call : String → ToolReviewDecision → ToolCall
  revoke_call : String → String → ToolCall
  invoke_call : ToolInvocationRequest → String → ToolTrustLevel → Option ℕ → ToolCall

allowed :
    (actor : Actor)
    → is_l2_or_l3 actor ≡ true
    → (actor.authorization_level ≡ l2_modify_workspace) ⊎ (actor.authorization_level ≡ l3_approve)
allowed actor h = ground (
  arith,
  ==_iff actor.authorization_level l2_modify_workspace,
  ==_iff actor.authorization_level l3_approve,
)

module _ (registry : ToolRegistry) (strip : String → String) (message : Message)
    (adapters : String → Option Adapter) where
  unfoldable pub perform : Actor → ToolCall → ToolWorld → ToolWorld
  unfolding register_user_tool review revoke invoke
  perform actor (register_call tool) w = (register_user_tool registry tool actor w).1
  perform actor (review_call id decision) w = (review registry id decision actor w).1
  perform actor (revoke_call id reason) w = (revoke registry strip id actor reason w).1
  perform actor (invoke_call request arguments minimum_trust project_id) w =
      (invoke message adapters request arguments actor minimum_trust project_id w).1

  unfoldable pub perform_all : List (Actor × ToolCall) → ToolWorld → ToolWorld
  unfolding perform
  perform_all [] w = w
  perform_all ((actor, call) ∷ calls) w = perform_all calls (perform actor call w)

  register-Governs :
      (tool : ToolDescriptor) (actor : Actor) (w : ToolWorld)
      → Governs actor w.tools ((register_user_tool registry tool actor w).1).tools
  unfolding register_user_tool registered record_invocation
  register-Governs tool actor w = elim (Bool-cases (is_human actor)) [
    | inr f ↦ keeps (ground arith)
    | inl t ↦ elim (Bool-cases (actor.authorization_level == l2_modify_workspace)) [
      | inr f ↦ keeps (ground arith)
      | inl u ↦ elim (Bool-cases (any declares_l3 tool.permissions)) [
        | inl l ↦ keeps (ground arith)
        | inr l ↦ elim (Result-cases (registry.register (as_untrusted tool) w.tools)) [
          | inr (e, failed) ↦ keeps (ground arith)
          | inl ((made, s'), done) ↦
              let (_, before, at) =
                registry.register_stores (as_untrusted tool) w.tools made s' done in
              registers tool ((==_iff actor.actor_type human).0 t)
                ((==_iff actor.authorization_level l2_modify_workspace).0 u) l before
                (rw (t, u, l, done, register_user_tool, registered) at)
        ]
      ]
    ]
  ]

  -- where the registry's answer to a transition leads
  finish-Writes :
      (actor : Actor) (id : String) (expected : ToolLifecycleState) (tool : ToolDescriptor)
      (reason : Reason) (w : ToolWorld)
      → (((finish actor id reason w (registry.move id expected tool w.tools)).1).tools ≡ w.tools)
        ⊎ Writes id tool w.tools
            ((finish actor id reason w (registry.move id expected tool w.tools)).1).tools
  unfolding finish record_lifecycle
  finish-Writes actor id expected tool reason w =
      elim (Result-cases (registry.move id expected tool w.tools)) [
        | inr (e, failed) ↦ inl (rw (failed, finish) refl)
        | inl ((made, s'), done) ↦
            let (_, _, at) = registry.move_stores id expected tool w.tools made s' done in
            inr (rw (done, finish) at)
      ]

  review-Governs :
      (id : String) (decision : ToolReviewDecision) (actor : Actor) (w : ToolWorld)
      → Governs actor w.tools ((review registry id decision actor w).1).tools
  unfolding review review_found record_lifecycle
  review-Governs id decision actor w = elim (Bool-cases (is_human actor)) [
    | inr f ↦ keeps (ground arith)
    | inl t ↦ elim (Bool-cases (actor.authorization_level == l3_approve)) [
      | inr f ↦ keeps (ground arith)
      | inl u ↦ elim (Option-cases (lookup id w.tools)) [
        | inl missing ↦ keeps (ground arith)
        | inr (current, found) ↦ elim (Bool-cases (current.lifecycle_state == pending_review)) [
          | inr f ↦ keeps (ground arith)
          | inl p ↦
              elim (finish-Writes actor id pending_review (decided decision current)
                (review_reason decision) w) [
                  | inl same ↦ keeps (rw (t, u, found, p, review, review_found) same)
                  | inr at ↦
                      reviews id decision current ((==_iff actor.actor_type human).0 t)
                        ((==_iff actor.authorization_level l3_approve).0 u) found
                        ((==_iff current.lifecycle_state pending_review).0 p)
                        (rw (t, u, found, p, review, review_found) at)
                ]
        ]
      ]
    ]
  ]

  revoke_found-Governs :
      (id : String) (actor : Actor) (stripped : String) (w : ToolWorld)
      → is_human actor ≡ true
      → is_l2_or_l3 actor ≡ true
      → Governs actor w.tools
          ((revoke_found registry id actor stripped w (lookup id w.tools)).1).tools
  unfolding revoke_found record_lifecycle
  revoke_found-Governs id actor stripped w t u = elim (Option-cases (lookup id w.tools)) [
    | inl missing ↦ keeps (ground arith)
    | inr (current, found) ↦
        elim (Bool-cases
          (current.lifecycle_state == rejected || current.lifecycle_state == revoked)) [
            | inl b ↦ keeps (ground arith)
            | inr b ↦
                elim (finish-Writes actor id current.lifecycle_state (revocation current)
                  (stated (join "tool revoked; " stripped)) w) [
                    | inl same ↦ keeps (rw (found, b, revoke_found) same)
                    | inr at ↦
                        revokes id current ((==_iff actor.actor_type human).0 t) (allowed actor u)
                          found (ground (arith, ==_iff current.lifecycle_state rejected))
                          (ground (arith, ==_iff current.lifecycle_state revoked))
                          (rw (found, b, revoke_found) at)
                  ]
          ]
  ]

  revoke-Governs :
      (id : String) (actor : Actor) (reason : String) (w : ToolWorld)
      → Governs actor w.tools ((revoke registry strip id actor reason w).1).tools
  unfolding revoke
  revoke-Governs id actor reason w = elim (Bool-cases (is_human actor)) [
    | inr f ↦ keeps (ground arith)
    | inl t ↦ elim (Bool-cases (is_l2_or_l3 actor)) [
      | inr f ↦ keeps (ground arith)
      | inl u ↦ elim (Bool-cases (is_blank reason)) [
        | inl b ↦ keeps (ground arith)
        | inr b ↦ rw (t, u, b, revoke) (revoke_found-Governs id actor (strip reason) w t u)
      ]
    ]
  ]

  invoke-keeps :
      (request : ToolInvocationRequest) (arguments : String) (actor : Actor)
      (minimum_trust : ToolTrustLevel) (project_id : Option ℕ) (w : ToolWorld)
      → ((invoke message adapters request arguments actor minimum_trust project_id w).1).tools
        ≡ w.tools
  unfolding invoke invoke_resolved executed record_invocation
  invoke-keeps request arguments actor minimum_trust project_id w =
      let found =
        resolve message adapters request actor minimum_trust project_id
          (lookup request.tool_id w.tools) (adapters request.tool_id) in
      elim (Result-cases found) [
        | inr (e, refused) ↦ rw (refused, invoke, invoke_resolved) refl
        | inl ((tool, run), there) ↦ elim (Result-cases (run tool request.operation arguments)) [
          | inl (output, done) ↦ rw (there, invoke, invoke_resolved) (rw (done, executed) refl)
          | inr (e, failed) ↦ rw (there, invoke, invoke_resolved) (rw (failed, executed) refl)
        ]
      ]

  -- Every call of the tool services, whoever makes it and however it ends, does to the registry what a
  -- step of the governance allows to this actor, and no more.
  pub perform-Governs :
      (actor : Actor) (call : ToolCall) (w : ToolWorld)
      → Governs actor w.tools (perform actor call w).tools
  unfolding perform
  perform-Governs actor (register_call tool) w = register-Governs tool actor w
  perform-Governs actor (review_call id decision) w = review-Governs id decision actor w
  perform-Governs actor (revoke_call id reason) w = revoke-Governs id actor reason w
  perform-Governs actor (invoke_call request arguments minimum_trust project_id) w =
      keeps (invoke-keeps request arguments actor minimum_trust project_id w)
