-- ===== src/Simulator/Sizing.antt =====
-- The simulator's helpers on entries, sizes and targets.
use triak_trade.Base.{Bool, not, ◌&&◌, ◌||◌, if◌then◌else◌, Option, none, some, List, [], ◌∷◌}
use triak_trade.Base.Int.{ℤ, leb_ℤ, min_ℤ, max_ℤ}
use triak_trade.Decimal.{Context, of_ℕ, sub, mul, div, quantize_down, zero_d}
use triak_trade.Domain.{TradeSide, is_long, is_short}
use triak_trade.StopLoss.{max_quantity_for_stop_risk_budget}
use triak_trade.LiveTrading.Positions.Targets.{max_distance_of, is_too_far, collect, sort_targets}

unfoldable pub is_initial_stop_loss_valid : TradeSide → ℤ → ℤ → Bool
is_initial_stop_loss_valid side entry_price stop_loss =
    not (leb_ℤ stop_loss zero_d)
    && (if is_short side then leb_ℤ entry_price stop_loss else leb_ℤ stop_loss entry_price)

unfoldable pub risk_amount_for_stop : Context → TradeSide → ℤ → Option ℤ → ℤ → ℤ
risk_amount_for_stop c side entry_price none quantity = zero_d
risk_amount_for_stop c side entry_price (some stop) quantity =
    let distance =
      if is_short side
      then max_ℤ (sub c stop entry_price) zero_d
      else max_ℤ (sub c entry_price stop) zero_d in
    if leb_ℤ quantity zero_d then zero_d else mul c distance quantity

unfoldable pub simulated_allocation_pct : Context → ℤ → ℤ → ℤ → ℤ → ℤ
simulated_allocation_pct c allocation_factor_pct leverage min_allocation_pct max_allocation_pct =
    let raw_pct = div c allocation_factor_pct (max_ℤ leverage (of_ℕ c 1)) in
    let floor_pct = max_ℤ min_allocation_pct zero_d in
    let ceiling_pct = max_ℤ max_allocation_pct floor_pct in
    min_ℤ (max_ℤ raw_pct floor_pct) ceiling_pct

-- The note of a cap, if there is one.
pub data QuantityNote : Type 0 where
  no_safe_quantity : QuantityNote
  quantity_capped : ℤ → ℤ → ℤ → QuantityNote

unfoldable pub cap_explicit_stop_quantity :
    Context → TradeSide → ℤ → ℤ → ℤ → ℤ → ℤ → ℤ → ℤ × List QuantityNote
cap_explicit_stop_quantity c side entry_price stop_loss quantity balance fee_rate_pct max_loss_pct =
    let maximum = quantize_down c (
      max_quantity_for_stop_risk_budget c side entry_price stop_loss balance fee_rate_pct
        max_loss_pct) in
    if leb_ℤ maximum zero_d
    then (zero_d, QuantityNote.no_safe_quantity ∷ [])
    else if leb_ℤ quantity maximum
    then (quantity, [])
    else (maximum, QuantityNote.quantity_capped quantity maximum stop_loss ∷ [])

-- The tests of the loop of `_sanitize_take_profits`: a side that is neither long nor short refuses no side
-- of the entry.
unfoldable pub is_simulated_target : Context → TradeSide → ℤ → Option ℤ → ℤ → Bool
is_simulated_target c side entry_price max_distance tp = not (
    leb_ℤ tp zero_d
    || ((is_long side && leb_ℤ tp entry_price)
        || ((is_short side && leb_ℤ entry_price tp) || is_too_far c entry_price max_distance tp)))

unfoldable pub simulated_take_profits : Context → List ℤ → TradeSide → ℤ → Option ℤ → List ℤ
simulated_take_profits c take_profits side entry_price stop_loss =
    let max_distance = max_distance_of c entry_price stop_loss in
    sort_targets (not (is_short side))
      (collect (is_simulated_target c side entry_price max_distance) [] take_profits)
