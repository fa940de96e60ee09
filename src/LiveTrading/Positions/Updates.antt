-- ===== src/LiveTrading/Positions/Updates.antt =====
-- What a message changes on a trade: its stop, its targets and its leverage (position_manager.py). The
-- message is returned as it is afterwards, too.
use triak_trade.Base.{
  ℕ, min, ◌==◌, Bool, true, false, if◌then◌else◌, Option, none, some, List, ◌∷◌, [], ◌++◌, take,
  Result, ok, err,
}
use triak_trade.Base.Int.{ℤ}
use triak_trade.Base.Text.{Str, codes}
use triak_trade.Decimal.{Context}
use triak_trade.StopLoss.{StopLossRiskResult, DivisionError}
use triak_trade.LiveTrading.Models.{LiveTrade, MessageAttribution, add_attribution}
use triak_trade.LiveTrading.Positions.Targets.{Note, side_of, is_empty, sanitize_take_profits}
use triak_trade.LiveTrading.Positions.Money.{calculate_unrealized_pnl}
use triak_trade.LiveTrading.Positions.Sizing.{Settings, clamp_stop_loss}

-- The trade and the message after a call, and what it returned or raised.
pub record Outcome (A : Type 0) : Type 0 where
  pub trade : LiveTrade
  pub message : MessageAttribution
  pub value : A

-- `message.notes.append(note)`
unfoldable pub append_note : Str → MessageAttribution → MessageAttribution
append_note note message = record message { notes = message.notes ++ note ∷ [] }

-- The end of an update: the message has its note and is recorded on the trade.
unfoldable pub record_message :
    {A : Type 0} → ℕ → Str → MessageAttribution → LiveTrade → A → Outcome A
record_message now note message trade value =
    let noted = append_note note message in
    record { trade = add_attribution now noted trade; message = noted; value = value }

module _ (c : Context) (settings : Settings) where
  unfoldable pub clamp_trade_stop_loss : LiveTrade → ℤ → Result DivisionError StopLossRiskResult
  clamp_trade_stop_loss trade stop_loss =
      clamp_stop_loss c settings (side_of trade.side) trade.entry_price stop_loss
        trade.remaining_quantity trade.balance_at_entry

module _ (c : Context) (settings : Settings) (text : Note → Str) (now : ℕ) where
  abbrev RiskOutcome : Type 0
  RiskOutcome = Outcome (Result DivisionError (Option StopLossRiskResult))

  -- `move_to_entry`: the risk is computed for the stop that was set.
  unfoldable pub move_stop_to_entry : LiveTrade → MessageAttribution → RiskOutcome
  move_stop_to_entry trade message =
      let moved = record trade { stop_loss = some trade.entry_price } in
      let risk : Result DivisionError (Option StopLossRiskResult) =
        elim (clamp_trade_stop_loss c settings moved trade.entry_price) [
          | ok r ↦ ok (some r)
          | err e ↦ err e
        ] in
      record_message now (text (Note.stop_moved_to_entry trade.entry_price)) message moved risk

  unfoldable pub set_new_stop : LiveTrade → ℤ → MessageAttribution → RiskOutcome
  set_new_stop trade new_sl message = elim (clamp_trade_stop_loss c settings trade new_sl) [
    | err e ↦ record { trade = trade; message = message; value = err e }
    | ok risk ↦
        if risk.was_capped
        then record_message now
            (text (Note.stop_update_rejected new_sl risk.stop_loss risk.risk_budget))
            (record message { action = codes "ignored" }) trade (ok (some risk))
        else record_message now (text (Note.stop_updated new_sl)) message
            (record trade { stop_loss = some new_sl }) (ok (some risk))
  ]

  unfoldable pub update_stop_loss : LiveTrade → Option ℤ → MessageAttribution → Bool → RiskOutcome
  update_stop_loss trade new_sl message true = move_stop_to_entry trade message
  update_stop_loss trade (some stop) message false = set_new_stop trade stop message
  update_stop_loss trade none message false = record {
    trade = trade;
    message = message;
    value = ok none;
  }

  unfoldable pub update_take_profits : LiveTrade → List ℤ → MessageAttribution → Outcome Bool
  update_take_profits trade new_tps message =
      let sanitized =
        sanitize_take_profits c new_tps trade.side trade.entry_price trade.stop_loss in
      if is_empty sanitized
      then record_message now (text Note.take_profits_ignored) message trade false
      else record_message now (text (Note.take_profits_updated sanitized)) message
          (record trade { take_profits = take trade.targets_hit trade.take_profits ++ sanitized })
          true

  -- A leverage of zero stands for every leverage that is not positive.
  unfoldable pub update_leverage : LiveTrade → Option ℕ → MessageAttribution → Outcome Bool
  update_leverage trade none message = record { trade = trade; message = message; value = false }
  update_leverage trade (some new_leverage) message =
      let clamped = min new_leverage settings.max_effective_leverage in
      let note =
        if clamped == new_leverage
        then Note.leverage_updated clamped
        else Note.leverage_clamped new_leverage clamped in
      if new_leverage == 0
      then record { trade = trade; message = message; value = false }
      else record_message now (text note) (record message { action = codes "set_leverage" })
          (record trade { leverage = clamped }) true

unfoldable pub apply_mark_price : Context → LiveTrade → ℤ → ℤ → LiveTrade
apply_mark_price c trade mark_price fee_rate_pct = record trade {
  mark_price = some mark_price;
  unrealized_pnl =
      calculate_unrealized_pnl c trade.side trade.entry_price mark_price trade.remaining_quantity
        fee_rate_pct;
}
