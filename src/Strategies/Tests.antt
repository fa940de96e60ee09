-- ===== src/Strategies/Tests.antt =====
-- Runs of the strategies.
use triak_trade.Base.{◌<◌, ◌⊎◌, ◌≡◌, refl, true, some, [], ◌∷◌, List, arith}
use triak_trade.Base.Int.{ℤ, pos}
use triak_trade.Base.Text.{codes}
use triak_trade.Decimal.{IsRepresented, of_ℕ}
use triak_trade.Decimal.Round.{limit}
use triak_trade.Decimal.Ops.{run}
use triak_trade.Decimal.Default.{python, one}
use triak_trade.Domain.{long, is_short}
use triak_trade.Strategies.Default.{
  RiskParameters, base_fee_loss, distance_denominator, stop_at, synthetic_stop_of, profit_steps,
  target_at, ladder_from, synthetic_take_profits_of, fraction_at, close_fraction_of,
  target_hit_action_of,
}
use triak_trade.Strategies.Trailing.{trailing_gap, trailing_action}
use triak_trade.Strategies.Stops.{IsProtective, synthetic_stop_of-IsProtective}
use triak_trade.Strategies.Ladder.{IsLadder, synthetic_take_profits_of-IsLadder}
use triak_trade.Strategies.Hits.{
  IsFraction, target_hit_action_of-IsFraction, IsTrailed, trailing_action-IsTrailed,
}

-- One percent of the balance at the stop, steps of two and four percent, and a first fraction of a half.
abbrev parameters : RiskParameters
parameters = record {
  name = codes "default_risk_managed";
  synthetic_stop_max_loss_pct_of_balance = one;
  risk_free_on_first_tp = true;
  synthetic_tp_profit_pct_steps = pos 20_000_000_000 ∷ pos 40_000_000_000 ∷ [];
  tp_close_fractions = pos 5_000_000_000 ∷ [];
}

abbrev entry : ℤ
entry = pos 1_000_000_000_000

abbrev balance : ℤ
balance = pos 10_000_000_000_000

entry-IsRepresented : IsRepresented python entry
unfolding limit
entry-IsRepresented = record { digits = 100; exponent = 10; short = omega arith; value = refl }

-- One unit at 100 may lose 10, so its stop is 90.
stop_run : synthetic_stop_of python parameters long entry balance one (pos 0) ≡ pos 900_000_000_000
unfolding run synthetic_stop_of base_fee_loss distance_denominator stop_at is_short
stop_run = refl

synthetic_stop_of-IsProtective_example :
    IsProtective long entry (synthetic_stop_of python parameters long entry balance one (pos 0))
synthetic_stop_of-IsProtective_example =
    synthetic_stop_of-IsProtective python parameters long entry balance one (pos 0)
      entry-IsRepresented (omega arith)

ladder_run :
    synthetic_take_profits_of python parameters long entry entry
    ≡ pos 1_020_000_000_000 ∷ pos 1_040_000_000_000 ∷ []
unfolding run synthetic_take_profits_of profit_steps ladder_from target_at is_short
ladder_run = refl

synthetic_take_profits_of-IsLadder_example :
    IsLadder long entry (synthetic_take_profits_of python parameters long entry entry)
synthetic_take_profits_of-IsLadder_example =
    synthetic_take_profits_of-IsLadder python parameters long entry entry entry-IsRepresented

half_run : (target_hit_action_of python parameters 0 3).close_fraction ≡ pos 5_000_000_000
unfolding run target_hit_action_of close_fraction_of fraction_at
half_run = refl

target_hit_action_of-IsFraction_example :
    IsFraction python (target_hit_action_of python parameters 0 3).close_fraction
    × ((1 < 3) ⊎ ((target_hit_action_of python parameters 0 3).close_fraction ≡ of_ℕ python 1))
target_hit_action_of-IsFraction_example = target_hit_action_of-IsFraction python parameters 0 3

abbrev targets : List ℤ
targets = pos 1_020_000_000_000 ∷ pos 1_040_000_000_000 ∷ pos 1_060_000_000_000 ∷ []

first_trail :
    (trailing_action python parameters 1 2 targets).new_stop_loss ≡ some (pos 1_020_000_000_000)
unfolding trailing_action trailing_gap
first_trail = refl

second_trail :
    (trailing_action python parameters 2 1 targets).new_stop_loss ≡ some (pos 1_040_000_000_000)
unfolding trailing_action trailing_gap
second_trail = refl

trailing_action-IsTrailed_example :
    IsTrailed targets 1 (pos 1_020_000_000_000) (pos 1_040_000_000_000)
trailing_action-IsTrailed_example =
    trailing_action-IsTrailed python parameters 1 2 2 1 targets (pos 1_020_000_000_000)
      (pos 1_040_000_000_000) (omega arith) first_trail second_trail
