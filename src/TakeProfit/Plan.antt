-- ===== src/TakeProfit/Plan.antt =====
-- What a returned plan promises, and when a plan is returned.
use triak_trade.Base.{
  ℕ, suc, ◌-◌, ◌*◌, ◌/◌, ◌≤◌, ◌<◌, ◌≡◌, refl, ◌↔◌, inl, inr, false, if◌then◌else◌, ◌==◌, Bool-cases,
  List, [], ◌∷◌, length, take, length-take, ok, arith,
}
use native.Mathlib.Nat.{le-div_iff_mul-le}
use triak_trade.Base.Int.{ℤ, pos, leb_ℤ, ltb_ℤ, ◌≤ℤ◌}
use triak_trade.Decimal.{Context, zero_d}
use triak_trade.TakeProfit.{
  TakeProfitCandidate, PlannedTakeProfitOrder, TakeProfitCapacityPlan, allocate_all, total_units,
  minimum_units, maximum_target_count, make_plan, check_plan, plan_maximum_take_profit_orders,
}
use triak_trade.TakeProfit.Shares.{shares, preferred_units, orders_for, allocate_all_lem}

minimum_units_pos : (c : Context) (minimum step : ℤ) → 0 < minimum_units c minimum step
unfolding minimum_units
minimum_units_pos c minimum step = omega arith

take-suc {ℓ} :
    {A : Type ℓ} (n : ℕ) (xs : List A)
    → suc n ≤ length xs
    → (k : A) × (ks : List A) × (take (suc n) xs ≡ k ∷ ks) × (length ks ≡ n)
take-suc n [] h = absurd (omega arith)
take-suc n (x ∷ xs) h = (x, take n xs, refl, omega (arith, length-take n xs))

module _ (c : Context) (candidates : List TakeProfitCandidate)
    (total_quantity minimum step : ℤ) where
  abbrev pub count : ℕ
  count = maximum_target_count c candidates total_quantity minimum step

  -- The orders of the selected targets, each with its share of the units.
  unfoldable pub planned_orders : List PlannedTakeProfitOrder
  planned_orders =
      let selected = take count candidates in
      orders_for c step selected (
        shares (minimum_units c minimum step) (total_units c total_quantity step)
          (preferred_units c step selected))

  abbrev pub expected_plan : TakeProfitCapacityPlan
  expected_plan = make_plan c candidates total_quantity minimum step planned_orders

  -- The number of targets is the largest for which there are candidates and the minimum of each.
  pub maximum_target_count_lem :
      (n : ℕ)
      → (n ≤ count) ↔ (
          (n ≤ length candidates)
          × (n * minimum_units c minimum step ≤ total_units c total_quantity step))
  unfolding maximum_target_count
  maximum_target_count_lem n =
      let share : ℕ = total_units c total_quantity step / minimum_units c minimum step in
      let by_share : (n ≤ share)
          ↔ (n * minimum_units c minimum step ≤ total_units c total_quantity step) =
        le-div_iff_mul-le (minimum_units_pos c minimum step) in
      (
        λ h. (omega arith, by_share.0 (omega arith)),
        λ h. let within = by_share.1 h.1 in omega arith,
      )

  planned_loop :
      (n : ℕ)
      → count ≡ suc n
      → allocate_all c step
          (minimum_units c minimum step)
          count
          0
          (total_units c total_quantity step)
          (take count candidates)
        ≡ ok (planned_orders, 0)
  unfolding planned_orders
  planned_loop n e =
      let (few, fits) = (maximum_target_count_lem (suc n)).0 (omega arith) in
      let (k, ks, selected, size) = take-suc n candidates few in
      let selected' : take count candidates ≡ k ∷ ks = rw e selected in
      rw selected' (
        allocate_all_lem c step (minimum_units c minimum step) count 0
          (total_units c total_quantity step) k ks (omega arith) (rw size fits))

  pub no_orders : count ≡ 0 → planned_orders ≡ []
  unfolding planned_orders orders_for
  no_orders e = rw e

  -- With a positive step and a minimum that is not negative, the planner returns the plan of shares,
  -- or else the sum of its orders is not the total in decimal arithmetic. The other assertions hold.
  pub plan_lem :
      pos 1 ≤ℤ step
      → pos 0 ≤ℤ minimum
      → plan_maximum_take_profit_orders c candidates total_quantity minimum step
        ≡ (if count == 0 then ok expected_plan else check_plan c expected_plan 0)
  unfolding plan_maximum_take_profit_orders
  plan_lem hs hm =
      let s : leb_ℤ step zero_d ≡ false = ground arith in
      let m : ltb_ℤ minimum zero_d ≡ false = ground arith in
      elim (Bool-cases (count == 0)) [
        | inl none_fit ↦ rw (s, m, none_fit, no_orders (ground arith))
        | inr some_fit ↦
            let e : count ≡ suc (count - 1) = ground arith in
            rw (s, m, some_fit, planned_loop (count - 1) e)
      ]
