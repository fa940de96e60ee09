-- ===== src/TakeProfit.antt =====
-- The take-profit capacity planner (src/triak_trade/live_trading/take_profit_planner.py). Quantities
-- are turned into whole exchange steps, the steps are shared out among the targets, and the shares
-- are turned back into quantities. Python's `int` counts of steps are never negative here: where the
-- source subtracts below zero the result is below the minimum in either arithmetic, and it raises.
pub mod Shares
pub mod Exact
pub mod Plan
pub mod Feasible
mod Tests
use triak_trade.Base.{
  ℕ, zero, suc, ◌+◌, ◌-◌, ◌*◌, ◌/◌, ◌≤◌, min, max, ◌≡◌, Bool, true, false, not, if◌then◌else◌, ltb,
  leb, ◌==◌, List, [], ◌∷◌, ◌++◌, map, length, take, Result, ok, err, ◌>>=◌, ◌>>◌, raise_if,
}
use triak_trade.Base.Int.{ℤ, pos, leb_ℤ, ltb_ℤ, eqb_ℤ}
use triak_trade.Decimal.{Context, of_ℕ, mul, div, sum, integer_down, integer_up, zero_d}

pub record TakeProfitCandidate : Type 0 where
  pub target_index : ℕ
  pub price : ℤ
  pub preferred_contract_quantity : ℤ

pub record PlannedTakeProfitOrder : Type 0 where
  pub target_index : ℕ
  pub price : ℤ
  pub contract_quantity : ℤ

pub record TakeProfitCapacityPlan : Type 0 where
  pub original_target_count : ℕ
  pub total_contract_quantity : ℤ
  pub minimum_contract_quantity : ℤ
  pub contract_step_size : ℤ
  pub orders : List PlannedTakeProfitOrder

pub data PlanError : Type 0 where
  step_not_positive minimum_negative below_minimum unallocated incomplete : PlanError

unfoldable pub target_count : TakeProfitCapacityPlan → ℕ
target_count plan = length plan.orders

unfoldable pub allocated_contract_quantity : Context → TakeProfitCapacityPlan → ℤ
allocated_contract_quantity c plan = sum c (map (λ o. o.contract_quantity) plan.orders)

unfoldable pub floor_step_units : Context → ℤ → ℤ → ℕ
floor_step_units c quantity step =
    if leb_ℤ quantity zero_d then 0 else integer_down c (div c quantity step)

unfoldable pub ceiling_step_units : Context → ℤ → ℤ → ℕ
ceiling_step_units c quantity step =
    if leb_ℤ quantity zero_d then 0 else integer_up c (div c quantity step)

-- The units of one order, with `count` orders still to place, this one included.
unfoldable pub allocate : ℕ → ℕ → ℕ → ℕ → ℕ
allocate minimum remaining count preferred =
    if count == 1
    then remaining
    else min (remaining - (count - 1) * minimum) (max minimum preferred)

-- The loop over the selected candidates: the orders and the units left over.
unfoldable pub allocate_all :
    Context
    → ℤ
    → ℕ
    → ℕ
    → ℕ
    → ℕ
    → List TakeProfitCandidate
    → Result PlanError (List PlannedTakeProfitOrder × ℕ)
allocate_all c step minimum maximum position remaining [] = ok ([], remaining)
allocate_all c step minimum maximum position remaining (candidate ∷ candidates) =
    let preferred = floor_step_units c candidate.preferred_contract_quantity step in
    let units = allocate minimum remaining (maximum - position) preferred in
    let rest = allocate_all c step minimum maximum (position + 1) (remaining - units) candidates in
    if ltb units minimum
    then err below_minimum
    else rest >>= λ r. ok (order candidate units ∷ r.0, r.1)
  where
    order : TakeProfitCandidate → ℕ → PlannedTakeProfitOrder
    order candidate units = record {
      target_index = candidate.target_index;
      price = candidate.price;
      contract_quantity = mul c (of_ℕ c units) step;
    }

unfoldable pub total_units : Context → ℤ → ℤ → ℕ
total_units c total step = floor_step_units c total step

unfoldable pub minimum_units : Context → ℤ → ℤ → ℕ
minimum_units c minimum step = max 1 (ceiling_step_units c minimum step)

unfoldable pub maximum_target_count : Context → List TakeProfitCandidate → ℤ → ℤ → ℤ → ℕ
maximum_target_count c candidates total minimum step =
    min (length candidates) (total_units c total step / minimum_units c minimum step)

unfoldable pub make_plan :
    Context
    → List TakeProfitCandidate
    → ℤ
    → ℤ
    → ℤ
    → List PlannedTakeProfitOrder
    → TakeProfitCapacityPlan
make_plan c candidates total minimum step orders = record {
  original_target_count = length candidates;
  total_contract_quantity = mul c (of_ℕ c (total_units c total step)) step;
  minimum_contract_quantity = mul c (of_ℕ c (minimum_units c minimum step)) step;
  contract_step_size = step;
  orders = orders;
}

-- The two assertions at the end.
unfoldable pub check_plan :
    Context → TakeProfitCapacityPlan → ℕ → Result PlanError TakeProfitCapacityPlan
check_plan c plan remaining = do
  raise_if (not (remaining == 0)) unallocated
  raise_if (not (eqb_ℤ (allocated_contract_quantity c plan) plan.total_contract_quantity))
      incomplete
  ok plan

unfoldable pub plan_maximum_take_profit_orders :
    Context → List TakeProfitCandidate → ℤ → ℤ → ℤ → Result PlanError TakeProfitCapacityPlan
plan_maximum_take_profit_orders c candidates total minimum step =
    let count = maximum_target_count c candidates total minimum step in
    let plan = make_plan c candidates total minimum step in
    raise_if (leb_ℤ step zero_d) step_not_positive
    >> raise_if (ltb_ℤ minimum zero_d) minimum_negative
    >> (if count == 0
        then ok (plan [])
        else allocate_all c step (minimum_units c minimum step) count 0 (total_units c total step)
            (take count candidates)
          >>= λ r. check_plan c (plan r.0) r.1)
