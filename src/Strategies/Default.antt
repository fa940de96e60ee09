-- ===== src/Strategies/Default.antt =====
-- `DefaultRiskManagedStrategy` (default_risk.py).
use triak_trade.Base.{
  ℕ, zero, suc, ◌*◌, leb, ◌==◌, Bool, ◌&&◌, ◌||◌, if◌then◌else◌, none, some, List, [], ◌∷◌, ◌++◌,
  any,
}
use triak_trade.Base.Int.{ℤ, pos, leb_ℤ, ltb_ℤ, eqb_ℤ, min_ℤ, max_ℤ}
use triak_trade.Base.Text.{Str}
use triak_trade.Decimal.{Context, of_ℕ, add, sub, mul, div, percent, zero_d, place}
use triak_trade.Domain.{TradeSide, is_short}
use triak_trade.Strategies.{TargetHitAction, TradeStrategy}

-- The parameters of the strategy.
pub record RiskParameters : Type 0 where
  pub name : Str
  pub synthetic_stop_max_loss_pct_of_balance : ℤ
  pub risk_free_on_first_tp : Bool
  pub synthetic_tp_profit_pct_steps : List ℤ
  pub tp_close_fractions : List ℤ

-- `Decimal("2") * entry_price * quantity * fee_rate` for a positive rate, and zero.
unfoldable pub base_fee_loss : Context → ℤ → ℤ → ℤ → ℤ
base_fee_loss c entry_price quantity fee_rate =
    if ltb_ℤ zero_d fee_rate
    then mul c (mul c (mul c (of_ℕ c 2) entry_price) quantity) fee_rate
    else zero_d

unfoldable pub distance_denominator : Context → TradeSide → ℤ → ℤ → ℤ
distance_denominator c side quantity fee_rate =
    if is_short side
    then mul c quantity (add c (of_ℕ c 1) fee_rate)
    else mul c quantity (sub c (of_ℕ c 1) fee_rate)

-- The stop at a distance from the entry.
unfoldable pub stop_at : Context → TradeSide → ℤ → ℤ → ℤ
stop_at c side entry_price distance =
    if is_short side then add c entry_price distance else max_ℤ (sub c entry_price distance) zero_d

unfoldable pub synthetic_stop_of : Context → RiskParameters → TradeSide → ℤ → ℤ → ℤ → ℤ → ℤ
synthetic_stop_of c p side entry_price balance quantity fee_rate_pct =
    let max_loss_pct = max_ℤ p.synthetic_stop_max_loss_pct_of_balance zero_d in
    let risk_budget = percent c (mul c balance max_loss_pct) in
    let fee_rate = percent c (max_ℤ fee_rate_pct zero_d) in
    let fee_loss = base_fee_loss c entry_price quantity fee_rate in
    let denominator = distance_denominator c side quantity fee_rate in
    let max_stop_distance = div c (sub c risk_budget fee_loss) denominator in
    if leb_ℤ quantity zero_d || (leb_ℤ entry_price zero_d || leb_ℤ balance zero_d)
    then entry_price
    else if leb_ℤ risk_budget zero_d
    then entry_price
    else if leb_ℤ risk_budget fee_loss
    then entry_price
    else if leb_ℤ denominator zero_d
    then entry_price
    else stop_at c side entry_price max_stop_distance

-- The steps 2, 4, 6, 8 and 10 stand in for an empty list.
unfoldable pub profit_steps : Context → List ℤ → List ℤ
profit_steps c [] = of_ℕ c 2 ∷ of_ℕ c 4 ∷ of_ℕ c 6 ∷ of_ℕ c 8 ∷ of_ℕ c 10 ∷ []
profit_steps c (s ∷ steps) = s ∷ steps

unfoldable pub target_at : Context → TradeSide → ℤ → ℤ → ℤ → ℤ → ℤ
target_at c side entry_price notional quantity step =
    let price_move = div c (percent c (mul c notional step)) quantity in
    if is_short side then sub c entry_price price_move else add c entry_price price_move

-- The loop over the steps, with the targets that were found.
unfoldable pub ladder_from : Context → TradeSide → ℤ → ℤ → ℤ → List ℤ → List ℤ → List ℤ
ladder_from c side entry_price notional quantity targets [] = targets
ladder_from c side entry_price notional quantity targets (step ∷ steps) =
    let target = target_at c side entry_price notional quantity step in
    let known = leb_ℤ step zero_d || any (λ t. eqb_ℤ t target) targets in
    ladder_from c side entry_price notional quantity
      (if known then targets else targets ++ target ∷ []) steps

unfoldable pub synthetic_take_profits_of : Context → RiskParameters → TradeSide → ℤ → ℤ → List ℤ
synthetic_take_profits_of c p side entry_price notional =
    let quantity = div c notional entry_price in
    let ladder =
      ladder_from c side entry_price notional quantity []
        (profit_steps c p.synthetic_tp_profit_pct_steps) in
    if leb_ℤ entry_price zero_d || leb_ℤ notional zero_d
    then []
    else if leb_ℤ quantity zero_d
    then []
    else ladder

-- `fractions[min(i, len(fractions) - 1)]` of a list that begins with `f`.
unfoldable pub fraction_at : ℤ → List ℤ → ℕ → ℤ
fraction_at f fs zero = f
fraction_at f [] (suc i) = f
fraction_at f (g ∷ fs) (suc i) = fraction_at g fs i

-- The fraction for a target that is not the last.
unfoldable pub close_fraction_of : Context → List ℤ → ℕ → ℕ → ℤ
close_fraction_of c [] hit remaining = div c (of_ℕ c 1) (of_ℕ c remaining)
close_fraction_of c (f ∷ fs) hit remaining =
    min_ℤ (max_ℤ (fraction_at f fs hit) (pos (place c 2))) (pos (99 * place c 2))

unfoldable pub target_hit_action_of : Context → RiskParameters → ℕ → ℕ → TargetHitAction
target_hit_action_of c p hit remaining =
    let fraction =
      if leb remaining 1
      then of_ℕ c 1
      else close_fraction_of c p.tp_close_fractions hit remaining in
    record {
      close_fraction = fraction;
      move_sl_to_entry = p.risk_free_on_first_tp && hit == 0;
      new_stop_loss = none;
    }

unfoldable pub default_risk_managed : Context → RiskParameters → TradeStrategy
default_risk_managed c p = record {
  name = p.name;
  get_synthetic_stop = λ side entry balance quantity fee.
      some (synthetic_stop_of c p side entry balance quantity fee);
  get_synthetic_take_profits =
      λ side entry stop notional. some (synthetic_take_profits_of c p side entry notional);
  get_target_hit_action =
      λ hit remaining entry targets. some (target_hit_action_of c p hit remaining);
}
