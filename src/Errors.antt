-- ===== src/Errors.antt =====
-- The errors that the Gateway raises, one constructor for each message. `ValueError` stands for the
-- subclasses of it (`ChangeGateError`, `WorkspaceGateError`); no handler tells these apart.
use multi_agent_aircraft_dev.Base.{
  ◌≡◌, refl, ◌⊎◌, inl, inr, Bool, true, false, String, List, [], ◌∷◌, arith,
}

pub data ValueError : Type 0 where
  -- domain/change_control.py
  only_l2_modifies no_active_workspace approval_requires_human_l3 : ValueError
  invalid_change_request_transition : ValueError
  baseline_change_without_workspace workspace_from_other_baseline : ValueError
  -- domain/workspaces.py
  field_constraint initial_workspace_needs_draft two_origins : ValueError
  profile_immutable evidence_needs_active graph_hash_length clear_needs_active : ValueError
  reconcile_needs_ready change_set_hash_length clear_reconciliation_needs_active : ValueError
  not_reconciled reconciliation_stale : ValueError
  invalid_workspace_transition : ValueError
  workspace_exists workspace_missing modified_concurrently : ValueError
  origin_immutable evidence_immutable reconciliation_immutable : ValueError
  reconciliation_replaced reconciliation_not_cleared_together : ValueError
  -- domain/baselines.py
  baseline_immutable : ValueError
  -- infrastructure/metadata_repositories.py
  change_request_exists change_request_missing : ValueError
  -- domain/budget.py
  duplicate_budget_lines budget_limit_not_positive over_budget budget_limit_changed : ValueError
  -- domain/tool_registry.py
  duplicate_operations tool_registered tool_missing lifecycle_state_changed : ValueError
  tool_id_changed : ValueError
  -- infrastructure/workspace_changes.py
  relation_endpoint_missing : ValueError
  -- infrastructure/profile_registry.py and application/profile_engine.py
  profile_exists profile_missing : ValueError

-- `GatewayServiceError`, one constructor for each message; `not_configured` stands for the messages
-- that end so.
pub data ServiceError : Type 0 where
  -- application/gateway_service.py
  not_configured invalid_level only_l2_may_modify : ServiceError
  baseline_not_found change_request_not_found baseline_mismatch : ServiceError
  already_linked request_not_open : ServiceError
  initial_request_has_baseline initial_request_in_use duplicate_source_system : ServiceError
  rejection_requires_human_l3 not_ready_for_rejection rejection_needs_reason : ServiceError
  not_reopenable closure_needs_approved_request not_closable : ServiceError
  workspace_not_active direct_approval_disabled not_ready_for_decision : ServiceError
  no_profile_provenance source_baseline_not_found provenance_mismatch : ServiceError
  no_pinned_repository no_reconciliation_versions not_a_descendant : ServiceError
  profile_not_found profile_not_active workspace_not_found request_of_workspace_not_found :
      ServiceError
  -- application/governed_gateway_service.py
  elements_must_be_omitted exact_profile_required prepare_needs_active : ServiceError
  prepare_needs_in_progress bound_to_other_profile budget_plan_required : ServiceError
  no_validation_evidence budget_evidence_invalid review_required validation_stale : ServiceError
  reviewer_capability review_needs_reason review_needs_ready : ServiceError
  review_needs_evidence review_needs_reconciliation review_stale : ServiceError
  reviewer_is_preparer : ServiceError
  -- application/workspace_reconciliation.py
  reconciliation_requires_l2 reconciliation_needs_ready : ServiceError

-- An exception as a service operation ends with it. An adapter raises with a text of its own.
pub data Exception : Type 0 where
  value_error : ValueError → Exception
  service : ServiceError → Exception
  adapter : String → Exception
  -- `GatewayServiceError(str(exc))` for a `ValueError`
  service_of : ValueError → Exception
  -- `GatewayServiceError(f"workspace approval failed: {exc}")`
  approval_failed_value : ValueError → Exception
  approval_failed_adapter : String → Exception
  -- `GatewayServiceError(f"workspace reconciliation failed: {exc}")`
  reconciliation_failed_value : ValueError → Exception
  reconciliation_failed_adapter : String → Exception

-- A value, or the error that was raised instead.
pub data Result {ℓ κ} (E : Type ℓ) (A : Type κ) : Type (ℓ ⊔ κ) where
  ok : A → Result E A
  err : E → Result E A

infixl 5 ◌>>=◌ ◌>>◌
abbrev pub ◌>>=◌ {ℓ κ μ} :
    {E : Type ℓ} {A : Type κ} {B : Type μ} → Result E A → (A → Result E B) → Result E B
ok a >>= f = f a
err e >>= f = err e

abbrev pub ◌>>◌ {ℓ κ} : {E : Type ℓ} {B : Type κ} → Result E (Unit {0}) → Result E B → Result E B
m >> k = m >>= λ _. k

-- `if test: raise error`
abbrev pub raise_if {ℓ} : {E : Type ℓ} → Bool → E → Result E (Unit {0})
raise_if true e = err e
raise_if false e = ok tt

pub Result-cases {ℓ κ} :
    {E : Type ℓ} {A : Type κ} (r : Result E A) → ((a : A) × (r ≡ ok a)) ⊎ ((e : E) × (r ≡ err e))
Result-cases (ok a) = inl (a, refl)
Result-cases (err e) = inr (e, refl)

-- A block that passed has passed its first test and the rest.
pub then-ok {ℓ} :
    {E : Type ℓ} (m k : Result E (Unit {0})) → (m >> k) ≡ ok tt → (m ≡ ok tt) × (k ≡ ok tt)
then-ok (ok u) k h = (refl, h)
then-ok (err e) k h = absurd (ground arith)

pub raise_if-ok {ℓ} : {E : Type ℓ} (b : Bool) (e : E) → raise_if b e ≡ ok tt → b ≡ false
raise_if-ok true e h = absurd (ground arith)
raise_if-ok false e h = refl

-- `for x in xs: check(x)`
unfoldable pub each {ℓ κ} :
    {E : Type ℓ} {A : Type κ} → (A → Result E (Unit {0})) → List A → Result E (Unit {0})
each check [] = ok tt
each check (x ∷ xs) = check x >> each check xs

-- A block that returned has returned at its first statement.
pub bind-ok {ℓ κ μ} :
    {E : Type ℓ} {A : Type κ} {B : Type μ} (m : Result E A) (f : A → Result E B) {b : B}
    → (m >>= f) ≡ ok b
    → (a : A) × (m ≡ ok a) × (f a ≡ ok b)
bind-ok (ok a) f h = (a, refl, h)
bind-ok (err e) f h = absurd (cc h)
