-- ===== src/LiveTrading/Positions/Sizing.antt =====
-- `compute_position_sizing` and `create_trade` (position_manager.py). Of the session, sizing reads the
-- risk per trade. The strategy may be missing. `err` is an exception.
use triak_trade.Base.{
  ℕ, ◌-◌, min, max, ltb, ◌==◌, Bool, true, false, not, if◌then◌else◌, Option, none, some, List, [],
  ◌∷◌, ◌++◌, length, take, map, Result, ok, err, ◌>>=◌, ◌>>◌, raise_if,
}
use triak_trade.Base.Int.{ℤ, leb_ℤ, ltb_ℤ}
use triak_trade.Base.Text.{Str, codes}
use triak_trade.Decimal.{Context, of_ℕ, mul, div, percent, quantize, quantize_down, zero_d}
use triak_trade.Domain.{TradeSide, is_long, EntryType, ParsedSignal}
use triak_trade.StopLoss.{
  StopLossRiskResult, DivisionError, clamp_stop_loss_to_risk_budget,
  max_quantity_for_stop_risk_budget,
}
use triak_trade.Strategies.{TradeStrategy}
use triak_trade.LiveTrading.Models.{LiveTrade, MessageAttribution, model_post_init, waiting_entry}
use triak_trade.LiveTrading.Positions.Targets.{
  Note, side_text, is_empty, sanitize_take_profits, enforce_minimum_first_take_profit,
  resolve_entry_price, synthetic_stop, allocation_pct_for_signal,
}
use triak_trade.LiveTrading.Positions.Money.{cap_synthetic_stop_loss_risk}

-- The settings that the manager reads, without their prefix LIVE_TRADING_.
pub record Settings : Type 0 where
  pub default_signal_leverage : ℕ
  pub max_effective_leverage : ℕ
  pub min_allocation_pct : ℤ
  pub max_allocation_pct : ℤ
  pub fee_rate_pct : ℤ
  pub default_stop_pct : ℤ
  pub synthetic_stop_max_loss_pct : ℤ
  pub max_stop_loss_pct_of_balance : ℤ
  pub min_first_take_profit_pct : ℤ

-- The exceptions of the module, and those that it lets through.
pub data PositionError : Type 0 where
  no_balance no_entry_price no_quantity no_safe_quantity stop_not_preserved : PositionError
  capped_to_zero no_targets no_entry_fill unsafe_rewrite no_targets_after_fill : PositionError
  strategy_failed zero_division : PositionError

pub record PositionSizingResult : Type 0 where
  pub quantity : ℤ
  pub allocation_pct : ℤ
  pub margin : ℤ
  pub leverage : ℕ
  pub entry_price : ℤ
  pub balance_at_entry : ℤ
  pub stop_loss : ℤ
  pub take_profits : List ℤ
  pub is_synthetic_stop : Bool
  pub notes : List Note

unfoldable pub checked : {A : Type 0} → Result DivisionError A → Result PositionError A
checked (ok a) = ok a
checked (err _) = err PositionError.zero_division

unfoldable pub from_strategy : {A : Type 0} → Option A → Result PositionError A
from_strategy none = err PositionError.strategy_failed
from_strategy (some a) = ok a

unfoldable pub note_if : Bool → Note → List Note
note_if true note = note ∷ []
note_if false note = []

-- `signal.leverage or default`
unfoldable pub leverage_raw_of : ℕ → Option ℕ → ℕ
leverage_raw_of fallback none = fallback
leverage_raw_of fallback (some n) = if n == 0 then fallback else n

-- The quantity for a share of the balance, before the stop is looked at.
unfoldable pub planned_quantity : Context → ℤ → ℤ → ℕ → ℤ → ℤ
planned_quantity c balance share leverage entry_price =
    quantize c (div c (mul c (percent c (mul c balance share)) (of_ℕ c leverage)) entry_price)

-- The stop, the quantity and the notes that the stop brought.
pub record StopStage : Type 0 where
  pub stop_loss : ℤ
  pub quantity : ℤ
  pub is_synthetic : Bool
  pub notes : List Note

module _ (c : Context) (settings : Settings) where
  -- `_clamp_stop_loss`
  unfoldable pub clamp_stop_loss :
      TradeSide → ℤ → ℤ → ℤ → ℤ → Result DivisionError StopLossRiskResult
  clamp_stop_loss side entry_price stop_loss quantity balance =
      clamp_stop_loss_to_risk_budget c side entry_price stop_loss quantity balance
        settings.fee_rate_pct settings.max_stop_loss_pct_of_balance

  -- The quantity is cut until the requested stop loses no more than the budget.
  unfoldable pub requested_stop_stage : TradeSide → ℤ → ℤ → ℤ → ℤ → Result PositionError StopStage
  requested_stop_stage side entry_price balance quantity stop_loss =
      let safe = quantize_down c (
        max_quantity_for_stop_risk_budget c side entry_price stop_loss balance settings.fee_rate_pct
          settings.max_stop_loss_pct_of_balance) in
      let sized = if ltb_ℤ safe quantity then safe else quantity in
      raise_if (leb_ℤ safe zero_d) PositionError.no_safe_quantity
      >> (checked (clamp_stop_loss side entry_price stop_loss sized balance) >>= λ risk.
          raise_if risk.was_capped PositionError.stop_not_preserved
          >> ok (record {
            stop_loss = stop_loss;
            quantity = sized;
            is_synthetic = false;
            notes =
                note_if (ltb_ℤ safe quantity) (Note.quantity_risk_capped quantity sized stop_loss);
          }))

  -- The stop of the strategy, or of the settings when there is no strategy.
  unfoldable pub generated_stop :
      TradeSide → ℤ → ℤ → ℤ → Option TradeStrategy → Result PositionError (ℤ × ℤ × List Note)
  generated_stop side entry_price balance quantity (some strategy) =
      from_strategy
        (strategy.get_synthetic_stop side entry_price balance quantity settings.fee_rate_pct)
      >>= λ stop. ok (stop, quantity, Note.synthetic_stop_strategy strategy.name ∷ [])
  generated_stop side entry_price balance quantity none =
      let (stop, sized, notes) =
        cap_synthetic_stop_loss_risk c side entry_price
          (synthetic_stop c side entry_price settings.default_stop_pct) quantity balance
          settings.fee_rate_pct settings.synthetic_stop_max_loss_pct in
      ok (stop, sized, Note.synthetic_stop_pct settings.default_stop_pct ∷ notes)

  unfoldable pub synthetic_stop_stage :
      TradeSide → ℤ → ℤ → ℤ → Option TradeStrategy → Result PositionError StopStage
  synthetic_stop_stage side entry_price balance quantity strategy =
      generated_stop side entry_price balance quantity strategy >>= λ g.
      checked (clamp_stop_loss side entry_price g.0 g.1 balance) >>= λ risk. ok (record {
        stop_loss = risk.stop_loss;
        quantity = g.1;
        is_synthetic = true;
        notes =
            g.2
            ++ note_if risk.was_capped (
                Note.synthetic_stop_loss_risk_capped settings.max_stop_loss_pct_of_balance
                  risk.risk_budget risk.risk_amount);
      })

  unfoldable pub stop_stage :
      TradeSide → ℤ → ℤ → ℤ → Option TradeStrategy → Option ℤ → Result PositionError StopStage
  stop_stage side entry_price balance quantity strategy (some stop) =
      requested_stop_stage side entry_price balance quantity stop
  stop_stage side entry_price balance quantity strategy none =
      synthetic_stop_stage side entry_price balance quantity strategy

  -- The targets of the strategy, for a signal without a usable one.
  unfoldable pub generated_targets :
      TradeSide → ℤ → ℤ → ℤ → Option TradeStrategy → Result PositionError (List ℤ × List Note)
  generated_targets side entry_price stop_loss quantity none = err PositionError.no_targets
  generated_targets side entry_price stop_loss quantity (some strategy) =
      from_strategy (
        strategy.get_synthetic_take_profits side entry_price stop_loss (mul c entry_price quantity))
      >>= λ offered.
          let found =
            sanitize_take_profits c offered (side_text side) entry_price (some stop_loss) in
          let (targets, floor_notes) =
            enforce_minimum_first_take_profit c found (is_long side) entry_price
              settings.min_first_take_profit_pct in
          raise_if (is_empty found) PositionError.no_targets
          >> raise_if (is_empty targets) PositionError.no_targets
          >> ok (targets, Note.synthetic_take_profits_strategy targets ∷ floor_notes)

  unfoldable pub targets_stage :
      ParsedSignal → ℤ → ℤ → ℤ → Option TradeStrategy → Result PositionError (List ℤ × List Note)
  targets_stage signal entry_price stop_loss quantity strategy =
      let asked = signal.take_profits in
      let targets =
        sanitize_take_profits c asked (side_text signal.side) entry_price (some stop_loss) in
      let filtered =
        note_if (ltb (length targets) (length asked))
          (Note.tp_direction_filtered (length asked - length targets)) in
      let generated = generated_targets signal.side entry_price stop_loss quantity strategy in
      if is_empty targets
      then (generated >>= λ g. ok (g.0, filtered ++ g.1))
      else ok (targets, filtered)

  -- The sizing from the entry price and the leverage on.
  unfoldable pub size_at :
      ℤ
      → ParsedSignal
      → ℤ
      → Option TradeStrategy
      → ℤ
      → ℕ
      → List Note
      → Result PositionError PositionSizingResult
  size_at risk_per_trade_pct signal balance strategy entry_price leverage notes =
      let share =
        allocation_pct_for_signal c risk_per_trade_pct (of_ℕ c leverage) settings.min_allocation_pct
          settings.max_allocation_pct in
      let quantity = planned_quantity c balance share leverage entry_price in
      raise_if (leb_ℤ quantity zero_d) PositionError.no_quantity
      >> (stop_stage signal.side entry_price balance quantity strategy signal.stop_loss >>= λ s.
          raise_if (leb_ℤ s.quantity zero_d) PositionError.capped_to_zero
          >> (targets_stage signal entry_price s.stop_loss s.quantity strategy >>= λ t.
              raise_if (leverage == 0) PositionError.zero_division
              >> ok (record {
                quantity = s.quantity;
                allocation_pct = share;
                margin = quantize c (div c (mul c entry_price s.quantity) (of_ℕ c leverage));
                leverage = leverage;
                entry_price = entry_price;
                balance_at_entry = balance;
                stop_loss = s.stop_loss;
                take_profits = t.0;
                is_synthetic_stop = s.is_synthetic;
                notes = notes ++ Note.allocation_pct share ∷ (s.notes ++ t.1);
              })))

  unfoldable pub compute_position_sizing :
      ℤ → ParsedSignal → ℤ → Option TradeStrategy → Result PositionError PositionSizingResult
  compute_position_sizing risk_per_trade_pct signal current_balance strategy =
      let leverage_raw = leverage_raw_of settings.default_signal_leverage signal.leverage in
      let leverage = min (max leverage_raw 1) settings.max_effective_leverage in
      let notes =
        note_if (not (leverage_raw == leverage)) (Note.leverage_clamped leverage_raw leverage) in
      raise_if (leb_ℤ current_balance zero_d) PositionError.no_balance
      >> elim (resolve_entry_price c signal) [
        | none ↦ err PositionError.no_entry_price
        | some entry_price ↦
            raise_if (leb_ℤ entry_price zero_d) PositionError.no_entry_price
            >> size_at risk_per_trade_pct signal current_balance strategy entry_price leverage notes
      ]

unfoldable pub entry_type_text : EntryType → Str
entry_type_text EntryType.market = codes "market"
entry_type_text EntryType.limit = codes "limit"
entry_type_text EntryType.range = codes "range"
entry_type_text EntryType.trigger = codes "trigger"
entry_type_text EntryType.unknown_entry = codes "unknown"

-- The arguments of `create_trade` that are neither the signal nor the sizing, with the generated id, the
-- identity of the new message object and the clock's readings.
pub record Trigger : Type 0 where
  pub trade_id : Str
  pub object_id : ℕ
  pub opened_at : ℕ
  pub updated_at : ℕ
  pub session_id : Str
  pub signal_id : Str
  pub message_id : ℕ
  pub message_preview : Str
  pub message_date : ℕ
  pub channel_id : Str
  pub channel_input : Str
  pub channel_label : Str

unfoldable pub symbol_or_empty : Option Str → Str
symbol_or_empty none = []
symbol_or_empty (some symbol) = symbol

unfoldable pub create_trade :
    (Note → Str) → Trigger → ParsedSignal → PositionSizingResult → LiveTrade
create_trade text trigger signal sizing =
    let attribution : MessageAttribution = record {
      object_id = trigger.object_id;
      message_id = trigger.message_id;
      channel_id = trigger.channel_id;
      channel_label = trigger.channel_label;
      message_preview = take 200 trigger.message_preview;
      message_date = trigger.message_date;
      action = codes "opened";
      notes = map text sizing.notes;
    } in
    model_post_init (record {
      trade_id = trigger.trade_id;
      session_id = trigger.session_id;
      signal_id = trigger.signal_id;
      channel_id = trigger.channel_id;
      channel_input = trigger.channel_input;
      channel_label = trigger.channel_label;
      symbol = symbol_or_empty signal.symbol;
      side = side_text signal.side;
      leverage = sizing.leverage;
      entry_price = sizing.entry_price;
      entry_type = entry_type_text signal.entry_type;
      requested_entry_low = signal.entry_low;
      requested_entry_high = signal.entry_high;
      requested_stop_loss = signal.stop_loss;
      requested_take_profits = signal.take_profits;
      quantity = sizing.quantity;
      stop_loss = some sizing.stop_loss;
      take_profits = sizing.take_profits;
      status = waiting_entry;
      entry_order_id = none;
      entry_order_plan = [];
      entry_filled_quantity = zero_d;
      sl_order_id = none;
      tp_order_ids = [];
      tp_order_plan = [];
      processed_exchange_fill_ids = [];
      message_history = attribution ∷ [];
      realized_pnl = zero_d;
      fees = zero_d;
      exit_price = none;
      close_reason = none;
      targets_hit = 0;
      remaining_quantity = sizing.quantity;
      balance_at_entry = sizing.balance_at_entry;
      opened_at = trigger.opened_at;
      closed_at = none;
      updated_at = trigger.updated_at;
      mark_price = none;
      unrealized_pnl = zero_d;
      margin = sizing.margin;
    })
