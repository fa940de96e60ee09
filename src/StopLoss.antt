-- ===== src/StopLoss.antt =====
-- The stop-loss calculations (src/triak_trade/risk/stop_loss.py): what a position loses at its stop,
-- the largest quantity for a risk budget, and the stop moved towards the entry until the loss is in
-- the budget. `err` is Python's exception on a division by zero.
pub mod Laws
pub mod Clamp
pub mod Within
mod Tests
use triak_trade.Base.{
  ℕ, zero, suc, Bool, true, false, not, ◌||◌, if◌then◌else◌, Result, ok, err, ◌>>=◌,
}
use triak_trade.Base.Int.{ℤ, pos, neg, leb_ℤ, eqb_ℤ, min_ℤ, max_ℤ}
use triak_trade.Decimal.{Context, of_ℕ, add, sub, mul, div, percent, zero_d, next_plus, next_minus}
use triak_trade.Domain.{TradeSide, long, short, is_direction}

pub data DivisionError : Type 0 where
  division_by_zero : DivisionError

pub record StopLossRiskResult : Type 0 where
  pub stop_loss : ℤ
  pub risk_amount : ℤ
  pub risk_budget : ℤ
  pub was_capped : Bool

-- What a unit of the position gains at the stop, before fees.
unfoldable pub price_gain : Context → TradeSide → ℤ → ℤ → ℤ
price_gain c long entry_price stop_loss = sub c stop_loss entry_price
price_gain c _ entry_price stop_loss = sub c entry_price stop_loss

-- `_net_loss_at_stop`
unfoldable pub net_loss_at_stop : Context → TradeSide → ℤ → ℤ → ℤ → ℤ → ℤ
net_loss_at_stop c side entry_price stop_loss quantity fee_rate =
    let gross_pnl = mul c (price_gain c side entry_price stop_loss) quantity in
    let fees = mul c (mul c (add c entry_price stop_loss) quantity) fee_rate in
    max_ℤ (neg (sub c gross_pnl fees)) zero_d

-- `max(fee_rate_pct, Decimal("0")) / Decimal("100")`
unfoldable pub fee_rate_of : Context → ℤ → ℤ
fee_rate_of c fee_rate_pct = percent c (max_ℤ fee_rate_pct zero_d)

unfoldable pub max_quantity_for_stop_risk_budget : Context → TradeSide → ℤ → ℤ → ℤ → ℤ → ℤ → ℤ
max_quantity_for_stop_risk_budget c side entry_price stop_loss balance fee_rate_pct max_loss_pct =
    let risk_budget = percent c (mul c balance (max_ℤ max_loss_pct zero_d)) in
    let risk_per_unit =
      net_loss_at_stop c side entry_price stop_loss (of_ℕ c 1) (fee_rate_of c fee_rate_pct) in
    if leb_ℤ entry_price zero_d
      || (leb_ℤ stop_loss zero_d || (leb_ℤ balance zero_d || not (is_direction side)))
    then zero_d
    else if leb_ℤ risk_budget zero_d
    then zero_d
    else if leb_ℤ risk_per_unit zero_d
    then zero_d
    else div c risk_budget risk_per_unit

-- One representable number towards the entry.
unfoldable pub move_stop : Context → TradeSide → ℤ → ℤ
move_stop c long stop = next_plus c stop
move_stop c _ stop = next_minus c stop

-- A division that raises on zero.
unfoldable pub div_checked : Context → ℤ → ℤ → Result DivisionError ℤ
div_checked c a b = if eqb_ℤ b zero_d then err division_by_zero else ok (div c a b)

-- `capped_stop` before the loop, for the fee rate and the budget of one unit.
unfoldable pub capped_stop : Context → TradeSide → ℤ → ℤ → ℤ → ℤ → Result DivisionError ℤ
capped_stop c long entry_price stop_loss fee_rate unit_budget =
    let lowest = sub c (mul c entry_price (add c (of_ℕ c 1) fee_rate)) unit_budget in
    div_checked c lowest (sub c (of_ℕ c 1) fee_rate) >>= λ minimum_safe_stop.
    ok (max_ℤ stop_loss (max_ℤ minimum_safe_stop zero_d))
capped_stop c _ entry_price stop_loss fee_rate unit_budget =
    let highest = add c (mul c entry_price (sub c (of_ℕ c 1) fee_rate)) unit_budget in
    div_checked c highest (add c (of_ℕ c 1) fee_rate) >>= λ maximum_safe_stop.
    ok (min_ℤ stop_loss maximum_safe_stop)

-- The loop over `range(4)`; `loss` is the loss at a stop.
unfoldable pub move_within : Context → TradeSide → (ℤ → ℤ) → ℤ → ℕ → ℤ → ℤ
move_within c side loss risk_budget zero stop = stop
move_within c side loss risk_budget (suc n) stop =
    let moved = move_within c side loss risk_budget n (move_stop c side stop) in
    if leb_ℤ (loss stop) risk_budget then stop else moved

module _ (c : Context) (side : TradeSide) (entry_price stop_loss quantity balance : ℤ)
    (fee_rate_pct max_loss_pct : ℤ) where
  unfoldable pub clamp_budget : ℤ
  clamp_budget = percent c (mul c (max_ℤ balance zero_d) (max_ℤ max_loss_pct zero_d))

  -- The condition under which the stop is left as it is.
  unfoldable pub unusable : Bool
  unusable =
      leb_ℤ entry_price zero_d
      || (leb_ℤ stop_loss zero_d
          || (leb_ℤ quantity zero_d || (leb_ℤ balance zero_d || not (is_direction side))))

  -- The loss at a stop of this position.
  unfoldable pub loss_at : ℤ → ℤ
  loss_at stop = net_loss_at_stop c side entry_price stop quantity (fee_rate_of c fee_rate_pct)

  unfoldable pub moved_result : ℤ → StopLossRiskResult
  moved_result capped =
      let stop = move_within c side loss_at clamp_budget 4 capped in
      record {
        stop_loss = stop;
        risk_amount = loss_at stop;
        risk_budget = clamp_budget;
        was_capped = not (eqb_ℤ stop stop_loss);
      }

  unfoldable pub clamp_stop_loss_to_risk_budget : Result DivisionError StopLossRiskResult
  clamp_stop_loss_to_risk_budget =
      let kept : StopLossRiskResult = record {
        stop_loss = stop_loss;
        risk_amount = zero_d;
        risk_budget = clamp_budget;
        was_capped = false;
      } in
      if unusable
      then ok kept
      else (capped_stop c side entry_price stop_loss (fee_rate_of c fee_rate_pct)
            (div c clamp_budget quantity)
          >>= λ capped. ok (moved_result capped))
