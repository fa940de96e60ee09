-- ===== src/TakeProfit/Tests.antt =====
-- Runs of the planner.
use triak_trade.Base.{◌≡◌, refl, List, [], ◌∷◌, ok, arith}
use triak_trade.Base.Int.{ℤ, pos}
use triak_trade.Decimal.Default.{python, tenth}
use triak_trade.Decimal.Ops.{run}
use triak_trade.Decimal.Round.{limit}
use triak_trade.TakeProfit.Feasible.{IsFeasible, returned-IsFeasible, planner_returns}
use triak_trade.TakeProfit.{
  TakeProfitCandidate, TakeProfitCapacityPlan, plan_maximum_take_profit_orders, floor_step_units,
  ceiling_step_units, allocate, allocate_all, total_units, minimum_units, maximum_target_count,
  make_plan, check_plan, allocated_contract_quantity,
}

abbrev candidate : ℤ → TakeProfitCandidate
candidate q = record { target_index = 0; price = pos 0; preferred_contract_quantity = q }

-- Three targets of a position of 0.55 with a minimum of 0.2: two orders, of 0.2 and of 0.3.
two_targets :
    plan_maximum_take_profit_orders python
      (candidate (pos 0) ∷ candidate (pos 0) ∷ candidate tenth ∷ [])
      (pos 5_500_000_000)
      (pos 2_000_000_000)
      tenth
    ≡ ok (record {
      original_target_count = 3;
      total_contract_quantity = pos 5_000_000_000;
      minimum_contract_quantity = pos 2_000_000_000;
      contract_step_size = tenth;
      orders =
          record { target_index = 0; price = pos 0; contract_quantity = pos 2_000_000_000 }
          ∷ record { target_index = 0; price = pos 0; contract_quantity = pos 3_000_000_000 }
          ∷ [];
    })
unfolding run plan_maximum_take_profit_orders floor_step_units ceiling_step_units allocate
    allocate_all total_units minimum_units maximum_target_count make_plan check_plan
    allocated_contract_quantity
two_targets = refl

-- The inputs of the run.
abbrev three_candidates : List TakeProfitCandidate
three_candidates = candidate (pos 0) ∷ candidate (pos 0) ∷ candidate tenth ∷ []

abbrev three_plan : TakeProfitCapacityPlan
three_plan = record {
  original_target_count = 3;
  total_contract_quantity = pos 5_000_000_000;
  minimum_contract_quantity = pos 2_000_000_000;
  contract_step_size = tenth;
  orders =
      record { target_index = 0; price = pos 0; contract_quantity = pos 2_000_000_000 }
      ∷ record { target_index = 0; price = pos 0; contract_quantity = pos 3_000_000_000 }
      ∷ [];
}

returned-IsFeasible_example :
    IsFeasible python three_candidates (pos 5_500_000_000) (pos 2_000_000_000) tenth three_plan
returned-IsFeasible_example =
    returned-IsFeasible python three_candidates (pos 5_500_000_000) (pos 2_000_000_000) tenth
      three_plan two_targets

planner_returns_example :
    (p : TakeProfitCapacityPlan) × (plan_maximum_take_profit_orders python three_candidates
        (pos 5_500_000_000)
        (pos 2_000_000_000)
        tenth
      ≡ ok p)
unfolding run floor_step_units total_units limit
planner_returns_example =
    planner_returns python three_candidates (pos 5_500_000_000) (pos 2_000_000_000) tenth 1 9
      (omega arith) (omega arith) refl (omega arith)
