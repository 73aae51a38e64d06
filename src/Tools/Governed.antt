-- ===== src/Tools/Governed.antt =====
-- What the governance of tools keeps: invariants of the registry by induction on the calls.
use multi_agent_aircraft_dev.Base.{
  String, ◌≡◌, ◌≢◌, refl, sym, ap, subst, ◌∙◌, ◌⊎◌, inl, inr, true, false, Option, some, Bool-cases,
  List, [], ◌∷◌, arith, ◌==◌, ==_iff, string_eq, if◌then◌else◌, any,
}
use multi_agent_aircraft_dev.Dict.{lookup}
use multi_agent_aircraft_dev.ChangeControl.{l3_approve}
use multi_agent_aircraft_dev.Audit.{human}
use multi_agent_aircraft_dev.Gateway.World.{Actor}
use multi_agent_aircraft_dev.Tools.{
  untrusted, sandbox, pending_review, active, rejected, revoked, ToolDescriptor, ToolStore,
}
use multi_agent_aircraft_dev.Tools.Store.{ToolRegistry}
use multi_agent_aircraft_dev.Tools.Lifecycle.{ToolWorld, ToolReviewDecision, decided, revocation}
use multi_agent_aircraft_dev.Tools.Invocation.{Message, Adapter, declares_l3, as_untrusted}
use multi_agent_aircraft_dev.Tools.Steps.{
  Writes, Governs, keeps, registers, reviews, revokes, ToolCall, perform, perform_all,
  perform-Governs,
}

-- A tool that is enabled has passed a review, and no review trusts it above SANDBOX or gives it an
-- operation of L3.
pub record IsContained (tool : ToolDescriptor) : Type 0 where
  pub enabled_active : tool.enabled ≡ true → tool.lifecycle_state ≡ active
  pub trust : (tool.trust_level ≡ untrusted) ⊎ (tool.trust_level ≡ sandbox)
  pub active_enabled : tool.lifecycle_state ≡ active → tool.enabled ≡ true
  pub no_l3 : any declares_l3 tool.permissions ≡ false

abbrev pub AllContained : ToolStore → Type 0
AllContained s = (j : String) (tool : ToolDescriptor) → lookup j s ≡ some tool → IsContained tool

-- A property of the tools that is kept, and that the written tool has.
written {ℓ} :
    (P : String → ToolDescriptor → Type ℓ) (id : String) (tool : ToolDescriptor) (s s' : ToolStore)
    → Writes id tool s s'
    → P id tool
    → ((j : String) (t : ToolDescriptor) → lookup j s ≡ some t → P j t)
    → (j : String) (t : ToolDescriptor) → lookup j s' ≡ some t
    → P j t
written P id tool s s' at new old j t h = elim (Bool-cases (id == j)) [
  | inl q ↦
      let here : lookup j s' ≡ some tool = at j ∙ ap (λ b. if b then some tool else lookup j s) q in
      let same : tool ≡ t = ground arith in
      subst (P j) same (subst (λ k. P k tool) ((==_iff id j).0 q) new)
  | inr q ↦ old j t (ground (arith, at j))
]

IsContained-decided :
    (decision : ToolReviewDecision) (current : ToolDescriptor)
    → IsContained current
    → IsContained (decided decision current)
IsContained-decided decision current h = elim (Bool-cases decision.accepted) [
  | inl t ↦ rw t (record {
    enabled_active = λ _. refl;
    trust = inr refl;
    active_enabled = λ _. refl;
    no_l3 = h.no_l3;
  })
  | inr f ↦ rw f (record {
    enabled_active = λ e. absurd (ground arith);
    trust = inl refl;
    active_enabled = λ e. absurd (ground arith);
    no_l3 = h.no_l3;
  })
]

IsContained-untrusted :
    (tool : ToolDescriptor)
    → any declares_l3 tool.permissions ≡ false
    → IsContained (as_untrusted tool)
IsContained-untrusted tool l = record {
  enabled_active = λ e. absurd (ground arith);
  trust = inl refl;
  active_enabled = λ e. absurd (ground arith);
  no_l3 = l;
}

IsContained-revocation : (tool : ToolDescriptor) → IsContained tool → IsContained (revocation tool)
IsContained-revocation tool h = record {
  enabled_active = λ e. absurd (ground arith);
  trust = inl refl;
  active_enabled = λ e. absurd (ground arith);
  no_l3 = h.no_l3;
}

Governs-AllContained :
    (by : Actor) (s s' : ToolStore) → Governs by s s' → AllContained s → AllContained s'
Governs-AllContained by s s' (keeps same) h = subst AllContained (sym same) h
Governs-AllContained by s s' (registers tool _ _ l _ at) h =
    written (λ _. IsContained) tool.tool_id (as_untrusted tool) s s' at
      (IsContained-untrusted tool l) h
Governs-AllContained by s s' (reviews id decision current _ _ found _ at) h =
    written (λ _. IsContained) id (decided decision current) s s' at
      (IsContained-decided decision current (h id current found)) h
Governs-AllContained by s s' (revokes id current _ _ found _ _ at) h =
    written (λ _. IsContained) id (revocation current) s s' at
      (IsContained-revocation current (h id current found)) h

-- A decision against a tool: its state is final.
abbrev pub IsOut : ToolDescriptor → Type 0
IsOut tool = (tool.lifecycle_state ≡ rejected) ⊎ (tool.lifecycle_state ≡ revoked)

-- writing a tool that is not out leaves those that are
unwritten :
    (id j : String) (tool new : ToolDescriptor) (s s' : ToolStore)
    → Writes id new s s'
    → lookup j s ≡ some tool
    → id ≢ j
    → lookup j s' ≡ some tool
unwritten id j tool new s s' at there ne = ground (arith, at j, ==_iff id j)

Governs-out :
    (by : Actor) (s s' : ToolStore) (j : String) (tool : ToolDescriptor)
    → Governs by s s'
    → IsOut tool
    → lookup j s ≡ some tool
    → lookup j s' ≡ some tool
Governs-out by s s' j tool (keeps same) out there = rw same there
Governs-out by s s' j tool (registers new _ _ _ before at) out there =
    unwritten new.tool_id j tool (as_untrusted new) s s' at there (λ q. elim before [
      | inl absent ↦ absurd (cc (absent, q, there))
      | inr same ↦
          let e : some (as_untrusted new) ≡ some tool = sym same ∙ ap (λ k. lookup k s) q ∙ there in
          elim out [ inl r ↦ ground arith | inr r ↦ ground arith ]
    ])
Governs-out by s s' j tool (reviews id decision current _ _ found pending at) out there =
    unwritten id j tool (decided decision current) s s' at there (λ q.
      let e : some current ≡ some tool = sym found ∙ ap (λ k. lookup k s) q ∙ there in
      elim out [ inl r ↦ ground arith | inr r ↦ ground arith ])
Governs-out by s s' j tool (revokes id current _ _ found nr nv at) out there =
    unwritten id j tool (revocation current) s s' at there (λ q.
      let e : some current ≡ some tool = sym found ∙ ap (λ k. lookup k s) q ∙ there in
      let same : current ≡ tool = ground arith in
      elim out [
        | inl r ↦ nr (ap (λ t. t.lifecycle_state) same ∙ r)
        | inr r ↦ nv (ap (λ t. t.lifecycle_state) same ∙ r)
      ])

-- Who can make a tool active.
abbrev pub IsApproval : Actor → String → ToolStore → Type 0
IsApproval by j s =
    (by.actor_type ≡ human)
    × (by.authorization_level ≡ l3_approve)
    × (current : ToolDescriptor) × (lookup j s ≡ some current)
    × (current.lifecycle_state ≡ pending_review)

Governs-activates :
    (by : Actor) (s s' : ToolStore) (j : String) (tool : ToolDescriptor)
    → Governs by s s'
    → lookup j s' ≡ some tool
    → tool.lifecycle_state ≡ active
    → (lookup j s ≡ some tool) ⊎ IsApproval by j s
Governs-activates by s s' j tool (keeps same) there on = inl (rw (sym same) there)
Governs-activates by s s' j tool (registers new _ _ _ _ at) there on =
    elim (Bool-cases (new.tool_id == j)) [
      | inl q ↦ absurd (ground (arith, at j))
      | inr q ↦ inl (ground (arith, at j))
    ]
Governs-activates by s s' j tool (reviews id decision current h l found pending at) there on =
    elim (Bool-cases (id == j)) [
      | inl q ↦
          inr (
            h,
            l,
            current,
            subst (λ k. lookup k s ≡ some current) ((==_iff id j).0 q) found,
            pending,
          )
      | inr q ↦ inl (ground (arith, at j))
    ]
Governs-activates by s s' j tool (revokes id current _ _ _ _ _ at) there on =
    elim (Bool-cases (id == j)) [
      | inl q ↦ absurd (ground (arith, at j))
      | inr q ↦ inl (ground (arith, at j))
    ]

module _ (registry : ToolRegistry) (strip : String → String) (message : Message)
    (adapters : String → Option Adapter) where
  -- Whatever calls of the services are made, by whatever actors: if the registry begins with contained
  -- tools only, it has contained tools only. A tool is enabled exactly while it is active, is trusted
  -- as untrusted or SANDBOX, and declares no operation of L3.
  pub perform_all-AllContained :
      (calls : List (Actor × ToolCall)) (w : ToolWorld)
      → AllContained w.tools
      → AllContained (perform_all registry strip message adapters calls w).tools
  unfolding perform_all
  perform_all-AllContained [] w h = h
  perform_all-AllContained ((actor, call) ∷ calls) w h =
      let next = perform registry strip message adapters actor call w in
      perform_all-AllContained calls next (
        Governs-AllContained actor w.tools next.tools
          (perform-Governs registry strip message adapters actor call w) h)

  -- A tool that was rejected or revoked stays exactly as it is, whatever calls follow.
  pub perform_all-out :
      (calls : List (Actor × ToolCall)) (w : ToolWorld) (j : String) (tool : ToolDescriptor)
      → IsOut tool
      → lookup j w.tools ≡ some tool
      → lookup j (perform_all registry strip message adapters calls w).tools ≡ some tool
  unfolding perform_all
  perform_all-out [] w j tool out there = there
  perform_all-out ((actor, call) ∷ calls) w j tool out there =
      let next = perform registry strip message adapters actor call w in
      perform_all-out calls next j tool out (
        Governs-out actor w.tools next.tools j tool
          (perform-Governs registry strip message adapters actor call w) out there)

  -- A tool that is active after a call was active before, unchanged, or the call was made by a human of
  -- L3 and found the tool pending review.
  pub perform-activates :
      (actor : Actor) (call : ToolCall) (w : ToolWorld) (j : String) (tool : ToolDescriptor)
      → lookup j (perform registry strip message adapters actor call w).tools ≡ some tool
      → tool.lifecycle_state ≡ active
      → (lookup j w.tools ≡ some tool) ⊎ IsApproval actor j w.tools
  perform-activates actor call w j tool =
      Governs-activates actor w.tools (perform registry strip message adapters actor call w).tools j
        tool (perform-Governs registry strip message adapters actor call w)
