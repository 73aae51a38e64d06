-- ===== src/Budget/Limit.antt =====
-- What the budget gate lets through.
use multi_agent_aircraft_dev.Base.{
  ℕ, ◌+◌, ◌*◌, refl, ap, subst, ◌≤◌, ◌<◌, ◌≡◌, ◌≢◌, map, all, string_eq, true, IsDistinct,
  unique-IsDistinct, ◌⊎◌, inl, inr, true, List, [], ◌∷◌, arith, All,
}
use multi_agent_aircraft_dev.Errors.{ok, err, over_budget}
use multi_agent_aircraft_dev.Budget.{
  BudgetLine, line_total_kopeks, BudgetPlan, lines_total, total_kopeks, BudgetGate, BudgetDecision,
  make_plan, line_id, line_fields_ok, evaluate, require_within_limit,
}

abbrev pub sum : List ℕ → ℕ
sum [] = 0
sum (n ∷ ns) = n + sum ns

lines-le :
    (n : ℕ) (lines : List BudgetLine)
    → lines_total lines ≤ n
    → All (λ l. line_total_kopeks l ≤ n) lines
unfolding lines_total
lines-le n [] h = tt
lines-le n (l ∷ lines) h = (omega arith, lines-le n lines (omega arith))

-- the two answers of the gate
pub require_within_limit-cases :
    (gate : BudgetGate) (plan : BudgetPlan)
    → ((total_kopeks plan ≤ gate.limit_kopeks)
        × (require_within_limit gate plan ≡ ok (evaluate gate plan)))
      ⊎ ((gate.limit_kopeks < total_kopeks plan)
          × (require_within_limit gate plan ≡ err over_budget))
unfolding require_within_limit
require_within_limit-cases gate plan = ground arith

-- What a plan costs: each line's quantity at its unit cost, and the contingency.
abbrev pub cost_of : BudgetPlan → ℕ
cost_of plan = sum (map (λ l. l.quantity * l.unit_cost_kopeks) plan.lines) + plan.contingency_kopeks

lines_total-sum :
    (lines : List BudgetLine)
    → lines_total lines ≡ sum (map (λ l. l.quantity * l.unit_cost_kopeks) lines)
unfolding lines_total line_total_kopeks
lines_total-sum [] = refl
lines_total-sum (l ∷ lines) = ap (λ n. l.quantity * l.unit_cost_kopeks + n) (lines_total-sum lines)

total_kopeks-cost_of : (plan : BudgetPlan) → total_kopeks plan ≡ cost_of plan
unfolding total_kopeks
total_kopeks-cost_of plan = ap (λ n. n + plan.contingency_kopeks) (lines_total-sum plan.lines)

-- The gate passes a plan exactly when what it costs (each line's quantity at its unit cost, and the
-- contingency) is within the limit, and then returns the decision with the limit and the cost; any
-- other plan is refused as over budget.
pub require_within_limit_lem :
    (gate : BudgetGate) (plan : BudgetPlan)
    → ((cost_of plan ≤ gate.limit_kopeks)
        × (require_within_limit gate plan
            ≡ ok (record { limit_kopeks = gate.limit_kopeks; total = cost_of plan })))
      ⊎ ((gate.limit_kopeks < cost_of plan) × (require_within_limit gate plan ≡ err over_budget))
unfolding evaluate
require_within_limit_lem gate plan =
    subst
      (λ n.
        ((n ≤ gate.limit_kopeks)
          × (require_within_limit gate plan
              ≡ ok (record { limit_kopeks = gate.limit_kopeks; total = n })))
        ⊎ ((gate.limit_kopeks < n) × (require_within_limit gate plan ≡ err over_budget)))
      (total_kopeks-cost_of plan) (require_within_limit-cases gate plan)

-- In a plan that passes, no line and no contingency costs more than the limit by itself.
pub parts-le-limit :
    (gate : BudgetGate) (plan : BudgetPlan) {decision : BudgetDecision}
    → require_within_limit gate plan ≡ ok decision
    → All (λ l. line_total_kopeks l ≤ gate.limit_kopeks) plan.lines
      × (plan.contingency_kopeks ≤ gate.limit_kopeks)
unfolding total_kopeks
parts-le-limit gate plan h = elim (require_within_limit-cases gate plan) [
  | inl (fits, _) ↦ (lines-le gate.limit_kopeks plan.lines (omega arith), omega arith)
  | inr (_, refused) ↦ cc
]

quantities-pos :
    (lines : List BudgetLine) → all line_fields_ok lines ≡ true → All (λ l. 0 < l.quantity) lines
unfolding all line_fields_ok
quantities-pos [] h = tt
quantities-pos (l ∷ lines) h = (ground arith, quantities-pos lines (ground arith))

-- A plan that could be built has lines, each with a positive quantity, and no identifier twice.
pub make_plan-ok :
    (lines : List BudgetLine) (contingency : ℕ) {plan : BudgetPlan}
    → make_plan lines contingency ≡ ok plan
    → (plan.lines ≡ lines)
      × (lines ≢ [])
      × All (λ l. 0 < l.quantity) lines
      × IsDistinct (map line_id lines)
unfolding make_plan
make_plan-ok lines contingency h = (
  ground arith,
  ground arith,
  quantities-pos lines (ground arith),
  unique-IsDistinct (map line_id lines) (ground arith),
)
