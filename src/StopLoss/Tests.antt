-- ===== src/StopLoss/Tests.antt =====
-- Runs of the stop-loss calculations.
use triak_trade.Base.{◌≡◌, refl, true, ok}
use triak_trade.Base.Int.{ℤ, pos}
use triak_trade.Decimal.Ops.{run}
use triak_trade.Decimal.Default.{python, one}
use triak_trade.Domain.{long, is_direction}
use triak_trade.StopLoss.{
  StopLossRiskResult, net_loss_at_stop, fee_rate_of, price_gain, clamp_stop_loss_to_risk_budget,
  clamp_budget, unusable, capped_stop, div_checked, move_within, loss_at, moved_result,
}
use triak_trade.StopLoss.Clamp.{IsClamped, clamp-IsClamped}

abbrev entry : ℤ
entry = pos 1_000_000_000_000

abbrev stop : ℤ
stop = pos 800_000_000_000

abbrev balance : ℤ
balance = pos 10_000_000_000_000

-- One unit at 100 with a balance of 1000 may lose one percent, 10, so its stop goes from 80 to 90.
abbrev clamped : StopLossRiskResult
clamped = record {
  stop_loss = pos 900_000_000_000;
  risk_amount = pos 100_000_000_000;
  risk_budget = pos 100_000_000_000;
  was_capped = true;
}

clamped_run :
    clamp_stop_loss_to_risk_budget python long entry stop one balance (pos 0) one ≡ ok clamped
unfolding run clamp_stop_loss_to_risk_budget clamp_budget unusable is_direction capped_stop
    div_checked fee_rate_of loss_at net_loss_at_stop price_gain move_within moved_result
clamped_run = refl

clamp-IsClamped_example : IsClamped python long entry stop one balance (pos 0) one clamped
clamp-IsClamped_example = clamp-IsClamped python long entry stop one balance (pos 0) one clamped_run
