-- ===== src/Evidence.antt =====
-- The validation evidence of a workspace (`validation_evidence` of domain/workspaces.py), as
-- `prepare_for_approval` writes it and `approve_workspace` reads it back: a dictionary with fixed
-- keys, each of which may be missing. Also `ExternalVersion` of domain/adapters.py.
use multi_agent_aircraft_dev.Base.{
  ℕ, String, ◌≡◌, ◌↔◌, refl, true, Option, none, List, arith, Eq, nat_eq, nat_beq, string_eq,
  option_eq, list_eq, pair_eq, eq_via,
}
use multi_agent_aircraft_dev.Budget.{BudgetPlan, plan_eq}

pub record ExternalVersion : Type 0 where
  pub system : String
  pub version : String

instance abbrev pub version_eq : Eq ExternalVersion
version_eq =
    eq_via {B = String × String} (λ v. (v.system, v.version))
      (λ t. record { system = t.0; version = t.1 }) (λ v. refl)

-- What Python's `isinstance` tells apart in an attribute's value.
pub data ValueKind : Type 0 where
  string_value integer_value float_value boolean_value other_value : ValueKind

abbrev pub kind_rank : ValueKind → ℕ
kind_rank string_value = 0
kind_rank integer_value = 1
kind_rank float_value = 2
kind_rank boolean_value = 3
kind_rank other_value = 4

pub kind_beq_iff : (a b : ValueKind) → (nat_beq (kind_rank a) (kind_rank b) ≡ true) ↔ (a ≡ b)
kind_beq_iff a b = ground arith

instance abbrev pub kind_eq : Eq ValueKind
kind_eq = record { beq = λ a b. nat_beq (kind_rank a) (kind_rank b); beq_iff = kind_beq_iff }

-- A value of an attribute, as its JSON text and its kind.
pub record AttributeValue : Type 0 where
  pub kind : ValueKind
  pub json : String

instance abbrev pub value_eq : Eq AttributeValue
value_eq =
    eq_via {B = ValueKind × String} (λ v. (v.kind, v.json)) (λ t. record { kind = t.0; json = t.1 })
      (λ v. refl)

-- The four inputs of the validation engine beside the graph and the profile; `None` is empty.
pub record ValidationInputs : Type 0 where
  pub attributes : List (ℕ × List (String × AttributeValue))
  pub artifact_evidence : List (ℕ × String)
  pub lifecycle_states : List (ℕ × String)
  pub lifecycle_transitions : List (ℕ × (String × String))

instance abbrev pub inputs_eq : Eq ValidationInputs
inputs_eq =
    eq_via
      {B = List (ℕ × List (String × AttributeValue))
        × (List (ℕ × String) × (List (ℕ × String) × List (ℕ × (String × String))))}
      (λ v. (v.attributes, (v.artifact_evidence, (v.lifecycle_states, v.lifecycle_transitions))))
      (λ t. record {
        attributes = t.0;
        artifact_evidence = t.1.0;
        lifecycle_states = t.1.1.0;
        lifecycle_transitions = t.1.1.1;
      })
      (λ v. refl)

-- The keys attributes, artifact_evidence, lifecycle_states and lifecycle_transitions are written
-- together; the other keys stand alone.
pub record ValidationEvidence : Type 0 where
  pub inputs : Option ValidationInputs
  pub budget_plan : Option BudgetPlan
  pub budget_limit_kopeks : Option ℕ
  pub prepared_by_actor_id : Option String

instance abbrev pub evidence_eq : Eq ValidationEvidence
evidence_eq =
    eq_via {B = Option ValidationInputs × (Option BudgetPlan × (Option ℕ × Option String))}
      (λ v. (v.inputs, (v.budget_plan, (v.budget_limit_kopeks, v.prepared_by_actor_id))))
      (λ t. record {
        inputs = t.0;
        budget_plan = t.1.0;
        budget_limit_kopeks = t.1.1.0;
        prepared_by_actor_id = t.1.1.1;
      })
      (λ v. refl)

-- `{}`
abbrev pub no_evidence : ValidationEvidence
no_evidence = record {
  inputs = none;
  budget_plan = none;
  budget_limit_kopeks = none;
  prepared_by_actor_id = none;
}
