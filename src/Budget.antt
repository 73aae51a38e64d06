-- ===== src/Budget.antt =====
-- domain/budget.py: the cost gate, in whole kopeks. The amounts that the models admit are not
-- negative, so they are natural numbers; a negative limit is refused as the limit 0 is.
pub mod Limit
mod Tests
use multi_agent_aircraft_dev.Base.{
  ℕ, ◌+◌, ◌*◌, String, refl, Bool, true, not, ◌&&◌, ◌||◌, List, [], ◌∷◌, map, arith, Eq, ◌==◌,
  nat_eq, string_eq, list_eq, pair_eq, eq_via, is_empty, all, unique, leb, if◌then◌else◌,
}
use multi_agent_aircraft_dev.Errors.{
  ValueError, field_constraint, duplicate_budget_lines, budget_limit_not_positive, over_budget,
  Result, ok, err, ◌>>=◌, ◌>>◌, raise_if,
}

pub record BudgetLine : Type 0 where
  pub id : String
  pub description : String
  pub quantity : ℕ
  pub unit_cost_kopeks : ℕ
  pub source_uri : String

unfoldable pub line_total_kopeks : BudgetLine → ℕ
line_total_kopeks line = line.quantity * line.unit_cost_kopeks

-- The constraints of the fields: `min_length=1` of the texts and `gt=0` of the quantity.
unfoldable pub line_fields_ok : BudgetLine → Bool
line_fields_ok line =
    not (line.id == "")
    && not (line.description == "")
    && leb 1 line.quantity
    && not (line.source_uri == "")

instance abbrev pub line_eq : Eq BudgetLine
line_eq =
    eq_via {B = String × (String × (ℕ × (ℕ × String)))}
      (λ l. (l.id, (l.description, (l.quantity, (l.unit_cost_kopeks, l.source_uri)))))
      (λ t. record {
        id = t.0;
        description = t.1.0;
        quantity = t.1.1.0;
        unit_cost_kopeks = t.1.1.1.0;
        source_uri = t.1.1.1.1;
      })
      (λ l. refl)

-- `currency` is the constant RUB.
pub record BudgetPlan : Type 0 where
  pub lines : List BudgetLine
  pub contingency_kopeks : ℕ

instance abbrev pub plan_eq : Eq BudgetPlan
plan_eq =
    eq_via {B = List BudgetLine × ℕ} (λ p. (p.lines, p.contingency_kopeks))
      (λ t. record { lines = t.0; contingency_kopeks = t.1 }) (λ p. refl)

abbrev pub line_id : BudgetLine → String
line_id line = line.id

-- The construction of a plan: the fields' constraints, then `unique_line_ids`.
unfoldable pub make_plan : List BudgetLine → ℕ → Result ValueError BudgetPlan
make_plan lines contingency = do
  raise_if (is_empty lines || not (all line_fields_ok lines)) field_constraint
  raise_if (not (unique (map line_id lines))) duplicate_budget_lines
  ok (record { lines = lines; contingency_kopeks = contingency })

-- `sum(line.total_kopeks for line in self.lines)`
unfoldable pub lines_total : List BudgetLine → ℕ
unfolding line_total_kopeks
lines_total [] = 0
lines_total (line ∷ lines) = line_total_kopeks line + lines_total lines

unfoldable pub total_kopeks : BudgetPlan → ℕ
total_kopeks plan = lines_total plan.lines + plan.contingency_kopeks

pub record BudgetDecision : Type 0 where
  pub limit_kopeks : ℕ
  pub total : ℕ

unfoldable pub accepted : BudgetDecision → Bool
accepted decision = leb decision.total decision.limit_kopeks

pub record BudgetGate : Type 0 where
  pub limit_kopeks : ℕ

unfoldable pub make_gate : ℕ → Result ValueError BudgetGate
make_gate limit = do
  raise_if (leb limit 0) budget_limit_not_positive
  ok (record { limit_kopeks = limit })

unfoldable pub evaluate : BudgetGate → BudgetPlan → BudgetDecision
evaluate gate plan = record { limit_kopeks = gate.limit_kopeks; total = total_kopeks plan }

unfoldable pub require_within_limit : BudgetGate → BudgetPlan → Result ValueError BudgetDecision
unfolding evaluate accepted
require_within_limit gate plan =
    let decision = evaluate gate plan in if accepted decision then ok decision else err over_budget
