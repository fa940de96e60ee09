-- ===== src/LiveTrading/Positions/Money.antt =====
-- Profit, loss and fees (position_manager.py), and the cap of a synthetic stop's risk.
use triak_trade.Base.{◌||◌, if◌then◌else◌, List, [], ◌∷◌, ◌++◌}
use triak_trade.Base.Int.{ℤ, leb_ℤ, ltb_ℤ, eqb_ℤ, min_ℤ, max_ℤ, abs_ℤ}
use triak_trade.Base.Text.{Str}
use triak_trade.Decimal.{Context, of_ℕ, add, sub, mul, div, percent, zero_d}
use triak_trade.Domain.{TradeSide, is_short}
use triak_trade.LiveTrading.Positions.Targets.{Note, is_long_text}

-- What the price move gained, before fees.
unfoldable pub raw_pnl : Context → Str → ℤ → ℤ → ℤ → ℤ
raw_pnl c side entry_price price quantity =
    if is_long_text side
    then mul c (sub c price entry_price) quantity
    else mul c (sub c entry_price price) quantity

unfoldable pub calculate_unrealized_pnl : Context → Str → ℤ → ℤ → ℤ → ℤ → ℤ
calculate_unrealized_pnl c side entry_price mark_price quantity fee_rate_pct =
    let exit_fee = mul c (mul c mark_price quantity) (percent c fee_rate_pct) in
    sub c (raw_pnl c side entry_price mark_price quantity) exit_fee

unfoldable pub calc_fees : Context → ℤ → ℤ → ℤ → ℤ → ℤ
calc_fees c entry_price exit_price quantity fee_rate_pct =
    let rate = percent c fee_rate_pct in
    add c (mul c (mul c entry_price quantity) rate) (mul c (mul c exit_price quantity) rate)

unfoldable pub calculate_realized_pnl : Context → Str → ℤ → ℤ → ℤ → ℤ → ℤ
calculate_realized_pnl c side entry_price exit_price quantity fee_rate_pct =
    sub c (raw_pnl c side entry_price exit_price quantity)
      (calc_fees c entry_price exit_price quantity fee_rate_pct)

-- The values of `_cap_synthetic_stop_loss_risk` that the quantity does not change.
pub record RiskCap : Type 0 where
  pub side : TradeSide
  pub entry_price : ℤ
  pub stop_loss : ℤ
  pub risk_budget : ℤ
  pub fee_rate : ℤ
  pub max_loss_pct_of_balance : ℤ

-- `Decimal("2") * entry_price * quantity * fee_rate` for a positive rate, and zero.
unfoldable pub round_trip_fee : Context → RiskCap → ℤ → ℤ
round_trip_fee c k quantity =
    if ltb_ℤ zero_d k.fee_rate
    then mul c (mul c (mul c (of_ℕ c 2) k.entry_price) quantity) k.fee_rate
    else zero_d

unfoldable pub capped_at : Context → RiskCap → ℤ → ℤ
capped_at c k distance =
    if is_short k.side
    then add c k.entry_price distance
    else max_ℤ (sub c k.entry_price distance) zero_d

-- The end of the function: the stop for a quantity whose fees leave something, or not.
unfoldable pub cap_stop : Context → RiskCap → ℤ → List Note → ℤ × ℤ × List Note
cap_stop c k quantity notes =
    let available = sub c k.risk_budget (round_trip_fee c k quantity) in
    let one_fee =
      if is_short k.side then add c (of_ℕ c 1) k.fee_rate else sub c (of_ℕ c 1) k.fee_rate in
    let denominator = mul c quantity one_fee in
    let max_stop_distance = div c available denominator in
    let capped_stop = capped_at c k max_stop_distance in
    let capped_note = λ (stop : ℤ).
      notes ++ Note.synthetic_stop_risk_capped k.stop_loss stop k.max_loss_pct_of_balance ∷ [] in
    if leb_ℤ available zero_d
    then (
      k.entry_price,
      quantity,
      (if eqb_ℤ k.stop_loss k.entry_price then notes else capped_note k.entry_price),
    )
    else if leb_ℤ denominator zero_d
    then (k.stop_loss, quantity, notes)
    else if leb_ℤ (abs_ℤ (sub c k.entry_price k.stop_loss)) max_stop_distance
    then (k.stop_loss, quantity, notes)
    else (capped_stop, quantity, capped_note capped_stop)

-- The fees of the whole quantity use up the budget, so the quantity is capped first.
unfoldable pub cap_quantity : Context → RiskCap → ℤ → ℤ × ℤ × List Note
cap_quantity c k quantity =
    let denominator = mul c (mul c (of_ℕ c 2) k.entry_price) k.fee_rate in
    let capped_qty = div c k.risk_budget denominator in
    if leb_ℤ k.fee_rate zero_d
    then (k.stop_loss, quantity, [])
    else if leb_ℤ denominator zero_d
    then (k.stop_loss, quantity, [])
    else if leb_ℤ capped_qty zero_d
    then (k.stop_loss, zero_d, Note.synthetic_stop_risk_budget_exhausted_by_fees ∷ [])
    else cap_stop c k (min_ℤ quantity capped_qty)
        (Note.synthetic_stop_qty_capped quantity capped_qty ∷ [])

-- The stop, the quantity and the notes.
unfoldable pub cap_synthetic_stop_loss_risk :
    Context → TradeSide → ℤ → ℤ → ℤ → ℤ → ℤ → ℤ → ℤ × ℤ × List Note
cap_synthetic_stop_loss_risk c side entry_price stop_loss quantity balance fee_rate_pct
      max_loss_pct =
    let risk_budget = percent c (mul c balance (max_ℤ max_loss_pct zero_d)) in
    let k : RiskCap = record {
      side = side;
      entry_price = entry_price;
      stop_loss = stop_loss;
      risk_budget = risk_budget;
      fee_rate = percent c (max_ℤ fee_rate_pct zero_d);
      max_loss_pct_of_balance = max_loss_pct;
    } in
    if leb_ℤ quantity zero_d || (leb_ℤ entry_price zero_d || leb_ℤ balance zero_d)
    then (stop_loss, quantity, [])
    else if leb_ℤ risk_budget zero_d
    then (stop_loss, quantity, [])
    else if leb_ℤ risk_budget (round_trip_fee c k quantity)
    then cap_quantity c k quantity
    else cap_stop c k quantity []
