-- ===== src/Budget/Tests.antt =====
-- The budget gate at a plan of two lines.
use multi_agent_aircraft_dev.Base.{
  ◌≤◌, ◌<◌, ◌≡◌, ◌≢◌, ◌⊎◌, refl, map, All, IsDistinct, List, [], ◌∷◌, all, unique, contains,
}
use multi_agent_aircraft_dev.Errors.{ok, err, over_budget}
use multi_agent_aircraft_dev.Budget.{
  BudgetLine, BudgetPlan, BudgetGate, line_id, line_total_kopeks, total_kopeks, lines_total,
  make_plan, line_fields_ok, evaluate, require_within_limit,
}
use multi_agent_aircraft_dev.Budget.Limit.{
  cost_of, require_within_limit_lem, parts-le-limit, make_plan-ok,
}

abbrev lines_0 : List BudgetLine
lines_0 =
    record {
      id = "pump";
      description = "a pump";
      quantity = 2;
      unit_cost_kopeks = 30;
      source_uri = "offer 1";
    }
    ∷ record {
      id = "tank";
      description = "a tank";
      quantity = 1;
      unit_cost_kopeks = 25;
      source_uri = "offer 2";
    }
    ∷ []

abbrev plan_0 : BudgetPlan
plan_0 = record { lines = lines_0; contingency_kopeks = 10 }

abbrev gate_0 : BudgetGate
gate_0 = record { limit_kopeks = 100 }

total_0 : total_kopeks plan_0 ≡ 95
unfolding total_kopeks lines_total
total_0 = refl

require_within_limit_lem_example :
    ((cost_of plan_0 ≤ 100)
      × (require_within_limit gate_0 plan_0
          ≡ ok (record { limit_kopeks = 100; total = cost_of plan_0 })))
    ⊎ ((100 < cost_of plan_0) × (require_within_limit gate_0 plan_0 ≡ err over_budget))
require_within_limit_lem_example = require_within_limit_lem gate_0 plan_0

within_0 : require_within_limit gate_0 plan_0 ≡ ok (evaluate gate_0 plan_0)
unfolding require_within_limit total_kopeks lines_total
within_0 = refl

parts-le-limit_example : All (λ l. line_total_kopeks l ≤ 100) lines_0 × (10 ≤ 100)
parts-le-limit_example = parts-le-limit gate_0 plan_0 within_0

made_0 : make_plan lines_0 10 ≡ ok plan_0
unfolding make_plan all line_fields_ok unique contains
made_0 = refl

make_plan-ok_example :
    (plan_0.lines ≡ lines_0)
    × (lines_0 ≢ [])
    × All (λ l. 0 < l.quantity) lines_0
    × IsDistinct (map line_id lines_0)
make_plan-ok_example = make_plan-ok lines_0 10 made_0
