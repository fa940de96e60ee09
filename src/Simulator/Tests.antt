-- ===== src/Simulator/Tests.antt =====
-- Runs of the simulator: a long position of one unit at 100 with its stop at 90 and targets at 110 and 120.
use triak_trade.Base.{◌≡◌, refl, true, false, none, some, [], ◌∷◌, List, ok, arith}
use triak_trade.Base.Int.{ℤ, pos}
use triak_trade.Base.Text.{codes}
use triak_trade.Decimal.Ops.{run}
use triak_trade.Decimal.Default.{python, one}
use triak_trade.Domain.{
  SignalAction, EntryType, ParsedSignal, long, is_long, is_short, is_direction,
}
use triak_trade.Domain.Records.{Candle}
use triak_trade.Strategies.{TradeStrategy}
use triak_trade.Strategies.Default.{default_risk_managed}
use triak_trade.LiveTrading.Positions.Targets.{side_text, sanitize_take_profits}
use triak_trade.Simulator.Position.{OpenPosition, PositionNote}
use triak_trade.Simulator.Sizing.{simulated_take_profits}
use triak_trade.Simulator.Candles.{BacktestFillPolicy, Outcome, is_nonempty, process_candles}
use triak_trade.Simulator.Entries.{
  find_entry_execution, is_market, bounded_entry, at_price, first_candle, touches, IsExecution,
  find_entry_execution-IsExecution,
}
use triak_trade.Simulator.Same.{simulated_take_profits-sanitize_take_profits}
use triak_trade.StopLoss.{
  clamp_stop_loss_to_risk_budget, unusable, clamp_budget, capped_stop, div_checked, moved_result,
  loss_at, fee_rate_of, net_loss_at_stop, price_gain, move_within,
}
use triak_trade.Simulator.Updates.{
  handles_stop, is_update_tp, handles_take_profit, handles_leverage, add_note, note_stop, set_stop,
  answer_stop, clamp_position, update_stop, move_or_update_stop, update_targets, limited,
  set_leverage, update_position_leverage, apply_live_style_position_update,
}
use triak_trade.Simulator.Updated.{IsUpdated, frame, apply_live_style_position_update-IsUpdated}
use triak_trade.Simulator.Resolved.{IsResolved, process_candles-IsResolved}

abbrev entry : ℤ
entry = pos 1_000_000_000_000

abbrev stop : ℤ
stop = pos 900_000_000_000

abbrev targets : List ℤ
targets = pos 1_100_000_000_000 ∷ pos 1_200_000_000_000 ∷ []

abbrev position : OpenPosition
position = record {
  signal_id = codes "g";
  symbol = codes "BTCUSDT";
  side = long;
  entry_price = entry;
  stop_loss = stop;
  take_profits = targets;
  original_quantity = one;
  remaining_quantity = one;
  entry_time = 10;
  realized_pnl = pos 0;
  realized_fees = pos 0;
  exit_price = none;
  exit_time = none;
  notes = [];
  targets_hit = 0;
  manual_partial_exit = false;
  balance_at_entry = pos 10_000_000_000_000;
  declared_leverage = none;
  effective_leverage = one;
  fee_rate_pct = pos 0;
  realized_exit_notional = pos 0;
}

abbrev candle_at : ℤ → ℤ → Candle
candle_at low high = record {
  open_time = 11;
  close_time = 12;
  open_price = entry;
  high = high;
  low = low;
  close_price = entry;
  volume = pos 0;
}

-- The first candle reaches the first target, the second falls to the entry.
abbrev candles : List Candle
candles =
    candle_at (pos 950_000_000_000) (pos 1_150_000_000_000)
    ∷ candle_at (pos 950_000_000_000) (pos 1_050_000_000_000)
    ∷ []

abbrev strategy : TradeStrategy
strategy = default_risk_managed python (record {
  name = codes "default_risk_managed";
  synthetic_stop_max_loss_pct_of_balance = one;
  risk_free_on_first_tp = true;
  synthetic_tp_profit_pct_steps = [];
  tp_close_fractions = pos 5_000_000_000 ∷ [];
})

process_candles-IsResolved_example :
    (o : Outcome) × (process_candles python BacktestFillPolicy.conservative
        (some strategy)
        candles
        position
      ≡ some o)
    × IsResolved o
unfolding default_risk_managed
process_candles-IsResolved_example =
    process_candles-IsResolved python BacktestFillPolicy.conservative (some strategy) candles
      position (λ hit remaining e ts. refl) (omega arith)

simulated_take_profits-sanitize_take_profits_example :
    simulated_take_profits python targets long entry (some stop)
    ≡ sanitize_take_profits python targets (side_text long) entry (some stop)
unfolding is_long is_short
simulated_take_profits-sanitize_take_profits_example =
    simulated_take_profits-sanitize_take_profits python targets long entry (some stop) refl

-- A limit at 95 is filled by the first candle after the signal.
entry_run :
    find_entry_execution python EntryType.limit (some (pos 950_000_000_000)) none 11 candles
    ≡ some (pos 950_000_000_000, 11)
unfolding find_entry_execution is_market bounded_entry at_price first_candle touches
entry_run = refl

find_entry_execution-IsExecution_example :
    IsExecution python EntryType.limit
      (some (pos 950_000_000_000))
      none
      11
      candles
      (pos 950_000_000_000)
      11
find_entry_execution-IsExecution_example =
    find_entry_execution-IsExecution python EntryType.limit (some (pos 950_000_000_000)) none 11
      candles entry_run

-- A message that moves the stop to 95 and asks for the leverage 5, with at most 3.
abbrev tighter : ℤ
tighter = pos 950_000_000_000

abbrev update : ParsedSignal
update = record {
  action = SignalAction.update_entry;
  symbol = none;
  side = long;
  entry_type = EntryType.market;
  entry_low = none;
  entry_high = none;
  stop_loss = some tighter;
  take_profits = [];
  leverage = some 5;
  confidence = one;
}

abbrev updated : OpenPosition
updated = record position {
  stop_loss = tighter;
  notes =
      PositionNote.stop_updated tighter
      ∷ PositionNote.leverage_clamped (pos 50_000_000_000) (pos 30_000_000_000)
      ∷ [];
  declared_leverage = some (pos 50_000_000_000);
  effective_leverage = pos 30_000_000_000;
}

update_run :
    apply_live_style_position_update python false update
      (some (pos 30_000_000_000))
      (some one)
      position
    ≡ ok updated
unfolding run handles_stop is_update_tp handles_take_profit handles_leverage add_note note_stop
    set_stop answer_stop clamp_position update_stop move_or_update_stop update_targets limited
    set_leverage update_position_leverage apply_live_style_position_update
    clamp_stop_loss_to_risk_budget unusable clamp_budget capped_stop div_checked moved_result
    loss_at fee_rate_of net_loss_at_stop price_gain move_within is_direction is_nonempty
update_run = refl

update_usable : unusable python long entry tighter one (pos 10_000_000_000_000) (pos 0) one ≡ false
unfolding unusable is_direction
update_usable = refl

apply_live_style_position_update-IsUpdated_example :
    IsUpdated python one tighter position (frame updated)
apply_live_style_position_update-IsUpdated_example =
    apply_live_style_position_update-IsUpdated python one tighter position update_usable update
      (some (pos 30_000_000_000)) refl update_run
