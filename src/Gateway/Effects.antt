-- ===== src/Gateway/Effects.antt =====
-- Rules on what an action leaves as it was.
use multi_agent_aircraft_dev.Base.{
  ℕ, inl, inr, String, ◌≡◌, refl, ◌∙◌, Bool, true, false, Option, none, some, List, ◌==◌,
  Bool-cases, if◌then◌else◌,
}
use multi_agent_aircraft_dev.Errors.{
  ValueError, ServiceError, Exception, Result, ok, err, Result-cases,
}
use multi_agent_aircraft_dev.Baselines.{BaselineStore}
use multi_agent_aircraft_dev.Audit.{AuditResult, Reason, MetaValue, audit_result_eq, success}
use multi_agent_aircraft_dev.Changes.{ChangeStore}
use multi_agent_aircraft_dev.Workspaces.Registry.{WorkspaceStore}
use multi_agent_aircraft_dev.Gateway.World.{
  Actor, Store, World, Action, ChangeRequestStore, pure, raise, gets, or_raise, lift, ask,
  try_catch, ◌>>=◌, refuse_if, modify, on_workspaces, ExternalCall, call_external,
  on_change_requests, record_action,
}

-- `m` leaves the baselines as they were, whether it returns or raises.
pub record KeepsBaselines {A : Type 0} (m : Action A) : Type 0 where
  pub at : (w : World) → (m w).1.store.baselines ≡ w.store.baselines

module _ {A : Type 0} where
  pub KeepsBaselines-pure : (a : A) → KeepsBaselines (pure a)
  KeepsBaselines-pure a = record { at = λ w. refl }

  pub KeepsBaselines-raise : (e : Exception) → KeepsBaselines (raise {A = A} e)
  KeepsBaselines-raise e = record { at = λ w. refl }

  pub KeepsBaselines-gets : (f : Store → A) → KeepsBaselines (gets f)
  KeepsBaselines-gets f = record { at = λ w. refl }

  pub KeepsBaselines-or_raise : (o : Option A) (e : ServiceError) → KeepsBaselines (or_raise o e)
  KeepsBaselines-or_raise none e = record { at = λ w. refl }
  KeepsBaselines-or_raise (some a) e = record { at = λ w. refl }

  pub KeepsBaselines-lift : (r : Result ValueError A) → KeepsBaselines (lift r)
  KeepsBaselines-lift (ok a) = record { at = λ w. refl }
  KeepsBaselines-lift (err e) = record { at = λ w. refl }

  pub KeepsBaselines-ask : (r : Result String A) → KeepsBaselines (ask r)
  KeepsBaselines-ask (ok a) = record { at = λ w. refl }
  KeepsBaselines-ask (err e) = record { at = λ w. refl }

  pub KeepsBaselines-if :
      (b : Bool) (m n : Action A)
      → KeepsBaselines m
      → KeepsBaselines n
      → KeepsBaselines (if b then m else n)
  KeepsBaselines-if true m n k l = k
  KeepsBaselines-if false m n k l = l

  bind_after :
      {B : Type 0} (r : Result Exception A) (f : A → Action B) (v : World) {x : BaselineStore}
      → v.store.baselines ≡ x
      → ((a : A) → KeepsBaselines (f a))
      → (((λ w. (r, w)) >>= f) v).1.store.baselines ≡ x
  bind_after (ok a) f v h l = (l a).at v ∙ h
  bind_after (err e) f v h l = h

  pub KeepsBaselines-bind :
      {B : Type 0} (m : Action A) (f : A → Action B)
      → KeepsBaselines m
      → ((a : A) → KeepsBaselines (f a))
      → KeepsBaselines (m >>= f)
  KeepsBaselines-bind m f k l = record { at = λ w. let (r, v) = m w in bind_after r f v (k.at w) l }

  catch_after :
      (r : Result Exception A) (handler : Exception → Action A) (v : World) {x : BaselineStore}
      → v.store.baselines ≡ x
      → ((e : Exception) → KeepsBaselines (handler e))
      → (try_catch (λ w. (r, w)) handler v).1.store.baselines ≡ x
  catch_after (ok a) handler v h l = h
  catch_after (err e) handler v h l = (l e).at v ∙ h

  pub KeepsBaselines-try_catch :
      (m : Action A) (handler : Exception → Action A)
      → KeepsBaselines m
      → ((e : Exception) → KeepsBaselines (handler e))
      → KeepsBaselines (try_catch m handler)
  KeepsBaselines-try_catch m handler k l = record {
    at = λ w. let (r, v) = m w in catch_after r handler v (k.at w) l;
  }

pub KeepsBaselines-refuse_if : (b : Bool) (e : ServiceError) → KeepsBaselines (refuse_if b e)
KeepsBaselines-refuse_if true e = record { at = λ w. refl }
KeepsBaselines-refuse_if false e = record { at = λ w. refl }

pub KeepsBaselines-changes :
    (f : Store → ChangeStore) → KeepsBaselines (modify (λ s. record s { changes = f s }))
KeepsBaselines-changes f = record { at = λ w. refl }

pub KeepsBaselines-workspaces :
    (f : Store → WorkspaceStore) → KeepsBaselines (modify (λ s. record s { workspaces = f s }))
KeepsBaselines-workspaces f = record { at = λ w. refl }

pub KeepsBaselines-call_external : (call : ExternalCall) → KeepsBaselines (call_external call)
KeepsBaselines-call_external call = record { at = λ w. refl }

pub KeepsBaselines-on_workspaces :
    {A : Type 0} (f : WorkspaceStore → Result ValueError (A × WorkspaceStore))
    → KeepsBaselines (on_workspaces f)
KeepsBaselines-on_workspaces f = record {
  at = λ w. elim (Result-cases (f w.store.workspaces)) [
    | inl ((a, d), h) ↦ rw (h, on_workspaces) refl
    | inr (e, h) ↦ rw (h, on_workspaces) refl
  ];
}

pub KeepsBaselines-on_change_requests :
    {A : Type 0} (f : ChangeRequestStore → Result ValueError (A × ChangeRequestStore))
    → KeepsBaselines (on_change_requests f)
KeepsBaselines-on_change_requests f = record {
  at = λ w. elim (Result-cases (f w.store.change_requests)) [
    | inl ((a, d), h) ↦ rw (h, on_change_requests) refl
    | inr (e, h) ↦ rw (h, on_change_requests) refl
  ];
}

pub KeepsBaselines-record_action :
    (actor : Actor) (action target_type : String) (target_id : Option ℕ) (result : AuditResult)
    (reason : Option Reason) (metadata : List (String × MetaValue))
    → KeepsBaselines (record_action actor action target_type target_id result reason metadata)
unfolding record_action
KeepsBaselines-record_action actor action target_type target_id result reason metadata = record {
  at = λ w. elim (Bool-cases (result == success)) [ inl h ↦ rw h refl | inr h ↦ rw h refl ];
}

pub ruleset keeps_baselines = (
  KeepsBaselines-pure, KeepsBaselines-raise, KeepsBaselines-gets, KeepsBaselines-or_raise,
  KeepsBaselines-lift, KeepsBaselines-ask, KeepsBaselines-if, KeepsBaselines-bind,
  KeepsBaselines-try_catch, KeepsBaselines-refuse_if, KeepsBaselines-changes,
  KeepsBaselines-on_workspaces, KeepsBaselines-on_change_requests, KeepsBaselines-record_action,
)
