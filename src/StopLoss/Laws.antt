-- ===== src/StopLoss/Laws.antt =====
-- The loss at a stop, and the quantity for a risk budget.
use triak_trade.Base.{◌≡◌, ◌⊎◌, true, arith}
use triak_trade.Base.Int.{ℤ, pos, ◌≤ℤ◌, max_ℤ, neg_parts}
use triak_trade.Decimal.{
  Context, of_ℕ, add, sub, mul, div, percent, zero_d, mul_mono, sub_mono, mul_zero, div_nonneg,
}
use triak_trade.Domain.{TradeSide, long, short, buy, sell, unknown_side, is_direction}
use triak_trade.StopLoss.{
  price_gain, net_loss_at_stop, fee_rate_of, max_quantity_for_stop_risk_budget,
}

-- `loose` is further from the entry than `tight`, on the losing side.
abbrev pub IsTighter : TradeSide → ℤ → ℤ → Type 0
IsTighter long loose tight = loose ≤ℤ tight
IsTighter _ loose tight = tight ≤ℤ loose

price_gain_mono :
    (c : Context) (side : TradeSide) (entry_price loose tight : ℤ)
    → IsTighter side loose tight
    → price_gain c side entry_price loose ≤ℤ price_gain c side entry_price tight
unfolding price_gain
price_gain_mono c long e loose tight h = sub_mono c loose tight e e h (omega arith)
price_gain_mono c short e loose tight h = sub_mono c e e loose tight (omega arith) h
price_gain_mono c buy e loose tight h = sub_mono c e e loose tight (omega arith) h
price_gain_mono c sell e loose tight h = sub_mono c e e loose tight (omega arith) h
price_gain_mono c unknown_side e loose tight h = sub_mono c e e loose tight (omega arith) h

-- Without a fee, a stop nearer to the entry never loses more.
net_loss_at_stop_mono :
    (c : Context) (side : TradeSide) (entry_price loose tight quantity : ℤ)
    → pos 0 ≤ℤ quantity
    → IsTighter side loose tight
    → net_loss_at_stop c side entry_price tight quantity zero_d
      ≤ℤ net_loss_at_stop c side entry_price loose quantity zero_d
unfolding net_loss_at_stop
net_loss_at_stop_mono c side e loose tight q hq h =
    let gain =
      mul_mono c (price_gain c side e loose) (price_gain c side e tight) q
        (price_gain_mono c side e loose tight h) hq in
    let net =
      sub_mono c (mul c (price_gain c side e loose) q) (mul c (price_gain c side e tight) q) zero_d
        zero_d gain (omega arith) in
    rw (mul_zero c (mul c (add c e tight) q), mul_zero c (mul c (add c e loose) q))
      (ground (
        arith,
        net,
        neg_parts (sub c (mul c (price_gain c side e loose) q) zero_d),
        neg_parts (sub c (mul c (price_gain c side e tight) q) zero_d),
      ))

-- A positive quantity is only given when entry, stop and balance are positive, the side is a direction
-- and a unit of the position loses something at the stop; it is the risk budget over that loss.
pub max_quantity_lem :
    (c : Context) (side : TradeSide) (entry_price stop_loss balance fee_rate_pct max_loss_pct : ℤ)
    → let quantity =
        max_quantity_for_stop_risk_budget c side entry_price stop_loss balance fee_rate_pct
          max_loss_pct in
      let budget = percent c (mul c balance (max_ℤ max_loss_pct zero_d)) in
      let unit_loss =
        net_loss_at_stop c side entry_price stop_loss (of_ℕ c 1) (fee_rate_of c fee_rate_pct) in
      (pos 0 ≤ℤ quantity)
      × ((quantity ≡ zero_d)
          ⊎ ((pos 1 ≤ℤ entry_price)
              × (pos 1 ≤ℤ stop_loss)
              × (pos 1 ≤ℤ balance)
              × (is_direction side ≡ true)
              × (pos 1 ≤ℤ budget)
              × (pos 1 ≤ℤ unit_loss)
              × (quantity ≡ div c budget unit_loss)))
unfolding max_quantity_for_stop_risk_budget
max_quantity_lem c side e s b f m =
    let budget = percent c (mul c b (max_ℤ m zero_d)) in
    let unit_loss = net_loss_at_stop c side e s (of_ℕ c 1) (fee_rate_of c f) in
    ground (arith, div_nonneg c budget unit_loss)
