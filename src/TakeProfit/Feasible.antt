-- ===== src/TakeProfit/Feasible.antt =====
-- What a returned plan promises, and that a plan is returned.
use triak_trade.Base.{
  ℕ, ◌*◌, ◌^◌, ◌≤◌, ◌<◌, ◌≡◌, sym, ◌∙◌, ap, ◌⊎◌, inl, inr, true, if◌then◌else◌, ◌==◌, Bool-cases,
  List, [], map, length, take, length-take, All, ok, arith,
}
use triak_trade.Base.Int.{ℤ, pos, leb_ℤ, ltb_ℤ, ◌≤ℤ◌, eq_of_parts}
use triak_trade.Decimal.{Context, of_ℕ, mul, sum, zero_d, mul_units}
use triak_trade.Decimal.Round.{limit}
use triak_trade.TakeProfit.{
  TakeProfitCandidate, TakeProfitCapacityPlan, target_count, allocated_contract_quantity,
  total_units, minimum_units, make_plan, check_plan, plan_maximum_take_profit_orders,
}
use triak_trade.TakeProfit.Exact.{
  quantities, length-shares, orders_for-targets, orders_for-minimum, sum-exact,
}
use triak_trade.TakeProfit.Shares.{
  shares, total, preferred_units, length-preferred_units, orders_for, shares_selected,
}
use triak_trade.TakeProfit.Plan.{
  count, planned_orders, expected_plan, maximum_target_count_lem, no_orders, plan_lem,
}

from_check :
    (c : Context) (n : ℕ) (q : TakeProfitCapacityPlan) {p : TakeProfitCapacityPlan}
    → (if n == 0 then ok q else check_plan c q 0) ≡ ok p
    → (p ≡ q) × ((n ≡ 0) ⊎ (allocated_contract_quantity c q ≡ q.total_contract_quantity))
unfolding check_plan
from_check c n q e =
    ground (arith, eq_of_parts (allocated_contract_quantity c q) q.total_contract_quantity)

check_plan_ok :
    (c : Context) (q : TakeProfitCapacityPlan)
    → allocated_contract_quantity c q ≡ q.total_contract_quantity
    → check_plan c q 0 ≡ ok q
unfolding check_plan
check_plan_ok c q e = ground arith

module _ (c : Context) (candidates : List TakeProfitCandidate)
    (total_quantity minimum step : ℤ) where
  abbrev limit_count : ℕ
  limit_count = count c candidates total_quantity minimum step

  abbrev selected : List TakeProfitCandidate
  selected = take limit_count candidates

  abbrev selected_shares : List ℕ
  selected_shares =
      shares (minimum_units c minimum step) (total_units c total_quantity step)
        (preferred_units c step selected)

  -- What the callers of the planner rely on.
  pub record IsFeasible (p : TakeProfitCapacityPlan) : Type 0 where
    pub counted : target_count p ≡ limit_count
    pub targets : map (λ o. o.target_index) p.orders ≡ map (λ k. k.target_index) selected
    pub prices : map (λ o. o.price) p.orders ≡ map (λ k. k.price) selected
    pub minimums : All (λ o. p.minimum_contract_quantity ≤ℤ o.contract_quantity) p.orders
    pub complete : (p.orders ≡ []) ⊎ (allocated_contract_quantity c p ≡ p.total_contract_quantity)

  length-selected : length selected ≡ limit_count
  length-selected =
      let (few, _) =
        (maximum_target_count_lem c candidates total_quantity minimum step limit_count).0
          (omega arith) in
      omega (arith, length-take limit_count candidates)

  length-selected_shares : length selected_shares ≡ length selected
  length-selected_shares =
      length-shares (minimum_units c minimum step) (total_units c total_quantity step)
        (preferred_units c step selected)
      ∙ length-preferred_units c step selected

  selected_shares_lem :
      0 < limit_count
      → (total selected_shares ≡ total_units c total_quantity step)
        × All (λ u. minimum_units c minimum step ≤ u) selected_shares
  selected_shares_lem p =
      let (_, fits) =
        (maximum_target_count_lem c candidates total_quantity minimum step limit_count).0
          (omega arith) in
      shares_selected c step (minimum_units c minimum step) (total_units c total_quantity step)
        selected (rw length-selected p) (rw length-selected fits)

  shares_minimums : All (λ u. minimum_units c minimum step ≤ u) selected_shares
  unfolding shares preferred_units
  shares_minimums = elim (Bool-cases (limit_count == 0)) [
    | inl z ↦
        let nobody : selected ≡ [] = ap (λ n. take n candidates) (zero_of_test limit_count z) in
        rw nobody tt
    | inr p ↦ (selected_shares_lem (ground arith)).1
  ]
    where
      zero_of_test : (n : ℕ) → (n == 0) ≡ true → n ≡ 0
      zero_of_test n h = ground arith

  returned_inputs :
      {p : TakeProfitCapacityPlan}
      → plan_maximum_take_profit_orders c candidates total_quantity minimum step ≡ ok p
      → (pos 1 ≤ℤ step) × (pos 0 ≤ℤ minimum)
  unfolding plan_maximum_take_profit_orders
  returned_inputs e = elim (Bool-cases (leb_ℤ step zero_d)) [
    | inl bad ↦ cc (rw bad at e)
    | inr good ↦ elim (Bool-cases (ltb_ℤ minimum zero_d)) [
      | inl bad ↦ cc (rw (good, bad) at e)
      | inr fine ↦ (ground arith, ground arith)
    ]
  ]

  returned_plan :
      {p : TakeProfitCapacityPlan}
      → plan_maximum_take_profit_orders c candidates total_quantity minimum step ≡ ok p
      → let q = expected_plan c candidates total_quantity minimum step in
        (p ≡ q)
        × ((limit_count ≡ 0) ⊎ (allocated_contract_quantity c q ≡ q.total_contract_quantity))
  returned_plan e =
      let (s, m) = returned_inputs e in
      from_check c limit_count (expected_plan c candidates total_quantity minimum step)
        (sym (plan_lem c candidates total_quantity minimum step s m) ∙ e)

  -- A plan that is returned gives the first targets, as many as the units allow, each its price and
  -- at least the minimum quantity, and the quantities of a plan with orders add up to its total.
  pub returned-IsFeasible :
      (p : TakeProfitCapacityPlan)
      → plan_maximum_take_profit_orders c candidates total_quantity minimum step ≡ ok p
      → IsFeasible p
  unfolding target_count make_plan planned_orders
  returned-IsFeasible p e =
      let (s, _) = returned_inputs e in
      let (same, complete) = returned_plan e in
      let (l, t, pr) = orders_for-targets c step selected selected_shares length-selected_shares in
      let low =
        orders_for-minimum c step (minimum_units c minimum step) selected selected_shares
          (omega arith) shares_minimums in
      rw same (record {
        counted = l ∙ length-selected;
        targets = t;
        prices = pr;
        minimums = low;
        complete = elim complete [
          | inl z ↦ inl (no_orders c candidates total_quantity minimum step z)
          | inr q ↦ inr q
        ];
      })

  exact_total :
      (z j : ℕ)
      → 0 < limit_count
      → step ≡ pos (z * 10 ^ j)
      → total_units c total_quantity step * z < limit c
      → let q = expected_plan c candidates total_quantity minimum step in
        allocated_contract_quantity c q ≡ q.total_contract_quantity
  unfolding allocated_contract_quantity make_plan planned_orders
  exact_total z j p e h =
      let (all, _) = selected_shares_lem p in
      ap (λ (s : ℤ). sum c (quantities (orders_for c s selected selected_shares))) e
      ∙ sum-exact c z j selected selected_shares length-selected_shares (rw all h)
      ∙ ap (λ (n : ℕ). pos (n * z * 10 ^ j)) all
      ∙ sym (
          ap (mul c (of_ℕ c (total_units c total_quantity step))) e
          ∙ mul_units c (total_units c total_quantity step) z j h)

  -- Where the step is positive with `z` as its digits, the minimum is not negative and the whole
  -- position has few enough digits to be represented, the planner returns a plan: none of its
  -- assertions fails.
  pub planner_returns :
      (z j : ℕ)
      → pos 1 ≤ℤ step
      → pos 0 ≤ℤ minimum
      → step ≡ pos (z * 10 ^ j)
      → total_units c total_quantity step * z < limit c
      → (p : TakeProfitCapacityPlan) × (plan_maximum_take_profit_orders c candidates total_quantity
            minimum step
          ≡ ok p)
  planner_returns z j s m e h = elim (Bool-cases (limit_count == 0)) [
    | inl none_fit ↦ (
      expected_plan c candidates total_quantity minimum step,
      plan_lem c candidates total_quantity minimum step s m ∙ rw none_fit,
    )
    | inr some_fit ↦ (
      expected_plan c candidates total_quantity minimum step,
      plan_lem c candidates total_quantity minimum step s m
          ∙ rw some_fit (
              check_plan_ok c (expected_plan c candidates total_quantity minimum step)
                (exact_total z j (ground arith) e h)),
    )
  ]
