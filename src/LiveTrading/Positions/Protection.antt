-- ===== src/LiveTrading/Positions/Protection.antt =====
-- The protection that the manager makes for a trade without one, and again after an entry has filled at
-- another price (position_manager.py).
use triak_trade.Base.{
  ◌-◌, ltb, Bool, not, ◌&&◌, ◌||◌, if◌then◌else◌, Option, none, some, List, [], ◌∷◌, ◌++◌, length,
  map, is_some, Result, ok, err, ◌>>=◌, ◌>>◌, raise_if,
}
use triak_trade.Base.Int.{ℤ, leb_ℤ, ltb_ℤ}
use triak_trade.Decimal.{Context, mul, zero_d}
use triak_trade.StopLoss.{DivisionError}
use triak_trade.Strategies.{TradeStrategy}
use triak_trade.LiveTrading.Models.{LiveTrade}
use triak_trade.LiveTrading.Positions.Targets.{
  Note, is_long_text, side_of, is_empty, sanitize_take_profits, enforce_minimum_first_take_profit,
}
use triak_trade.LiveTrading.Positions.Sizing.{
  Settings, PositionError, checked, from_strategy, note_if, clamp_stop_loss,
}

-- Above zero and on the losing side of the entry.
unfoldable pub is_stop_side : LiveTrade → ℤ → Bool
is_stop_side trade stop =
    let long = is_long_text trade.side in
    ltb_ℤ zero_d stop
    && (if long then ltb_ℤ stop trade.entry_price else ltb_ℤ trade.entry_price stop)

unfoldable pub or_stop : Option ℤ → Option ℤ → Option ℤ
or_stop none stop = stop
or_stop (some requested) stop = some requested

module _ (c : Context) (settings : Settings) where
  -- The targets for an offer of the strategy, which is empty when the strategy raised.
  unfoldable pub floored_targets : LiveTrade → Option ℤ → Option (List ℤ) → List ℤ
  floored_targets trade stop none = []
  floored_targets trade stop (some offered) =
      (enforce_minimum_first_take_profit c
        (sanitize_take_profits c offered trade.side trade.entry_price stop)
        (is_long_text trade.side) trade.entry_price settings.min_first_take_profit_pct).0

  unfoldable pub default_targets_at : LiveTrade → TradeStrategy → Option ℤ → List ℤ
  default_targets_at trade strategy none = []
  default_targets_at trade strategy (some stop) =
      let offered =
        strategy.get_synthetic_take_profits (side_of trade.side) trade.entry_price stop
          (mul c trade.entry_price trade.remaining_quantity) in
      if leb_ℤ trade.entry_price zero_d then [] else floored_targets trade (some stop) offered

  unfoldable pub build_default_take_profits : LiveTrade → TradeStrategy → List ℤ
  build_default_take_profits trade strategy = default_targets_at trade strategy trade.stop_loss

  -- `clamp_trade_stop_loss` for a stop on the right side.
  unfoldable pub capped_default_stop : LiveTrade → Option ℤ → Result DivisionError (Option ℤ)
  capped_default_stop trade none = ok none
  capped_default_stop trade (some generated) =
      let risk =
        clamp_stop_loss c settings (side_of trade.side) trade.entry_price generated
          trade.remaining_quantity trade.balance_at_entry in
      if not (is_stop_side trade generated) then ok none else risk >>= λ r. ok (some r.stop_loss)

  unfoldable pub build_default_stop_loss :
      LiveTrade → TradeStrategy → Result DivisionError (Option ℤ)
  build_default_stop_loss trade strategy =
      let generated =
        strategy.get_synthetic_stop (side_of trade.side) trade.entry_price trade.balance_at_entry
          trade.remaining_quantity settings.fee_rate_pct in
      if leb_ℤ trade.entry_price zero_d
        || (leb_ℤ trade.remaining_quantity zero_d || leb_ℤ trade.balance_at_entry zero_d)
      then ok none
      else capped_default_stop trade generated

  -- The requested stop, or else that of the strategy.
  unfoldable pub synthetic_fill_stop :
      LiveTrade → TradeStrategy → Result PositionError (ℤ × List Note)
  synthetic_fill_stop trade strategy =
      from_strategy (
        strategy.get_synthetic_stop (side_of trade.side) trade.entry_price trade.balance_at_entry
          trade.remaining_quantity settings.fee_rate_pct)
      >>= λ stop. ok (stop, Note.entry_fill_synthetic_stop strategy.name stop ∷ [])

  unfoldable pub fill_stop :
      LiveTrade → TradeStrategy → Option ℤ → Result PositionError (ℤ × List Note)
  fill_stop trade strategy none = synthetic_fill_stop trade strategy
  fill_stop trade strategy (some requested) =
      let generated = synthetic_fill_stop trade strategy in
      if is_stop_side trade requested then ok (requested, []) else generated

  -- The trade with its stop, and the notes.
  unfoldable pub rebase_stop :
      LiveTrade → TradeStrategy → Result PositionError (LiveTrade × List Note)
  rebase_stop trade strategy =
      let requested = is_some trade.requested_stop_loss in
      fill_stop trade strategy (or_stop trade.requested_stop_loss trade.stop_loss) >>= λ s.
      checked (
        clamp_stop_loss c settings (side_of trade.side) trade.entry_price s.0
          trade.remaining_quantity trade.balance_at_entry)
      >>= λ risk.
          raise_if (requested && risk.was_capped) PositionError.unsafe_rewrite
          >> ok (
            record trade { stop_loss = some (if requested then s.0 else risk.stop_loss) },
            s.1
                ++ note_if (not requested && risk.was_capped)
                    (Note.entry_fill_stop_capped s.0 risk.stop_loss risk.risk_budget),
          )

  -- The targets for the trade with its new stop, and the notes.
  unfoldable pub rebase_targets : LiveTrade → TradeStrategy → List ℤ × List Note
  rebase_targets trade strategy =
      let explicit = not (is_empty trade.requested_take_profits) in
      let asked = if explicit then trade.requested_take_profits else trade.take_profits in
      let found = sanitize_take_profits c asked trade.side trade.entry_price trade.stop_loss in
      let filtered =
        note_if (ltb (length found) (length asked))
          (Note.entry_fill_tp_direction_filtered (length asked - length found)) in
      let made = build_default_take_profits trade strategy in
      let targets = if is_empty found then made else found in
      let made_notes =
        note_if (is_empty found && not (is_empty made))
          (Note.entry_fill_default_take_profits made) in
      let (floored, floor_notes) =
        enforce_minimum_first_take_profit c targets (is_long_text trade.side) trade.entry_price
          settings.min_first_take_profit_pct in
      if explicit
      then (targets, filtered ++ made_notes)
      else (floored, filtered ++ made_notes ++ map Note.entry_fill floor_notes)

  -- The stop stays written when no target is left.
  unfoldable pub rebase_trade_protection_after_entry_fill :
      LiveTrade → TradeStrategy → LiveTrade × Result PositionError (List Note)
  rebase_trade_protection_after_entry_fill trade strategy =
      if leb_ℤ trade.entry_price zero_d || leb_ℤ trade.remaining_quantity zero_d
      then (trade, err PositionError.no_entry_fill)
      else elim (rebase_stop trade strategy) [
        | err e ↦ (trade, err e)
        | ok (stopped, stop_notes) ↦
            let (targets, target_notes) = rebase_targets stopped strategy in
            if is_empty targets then (stopped, err PositionError.no_targets_after_fill) else (
              record stopped { take_profits = targets; targets_hit = 0 },
              ok (stop_notes ++ target_notes),
            )
      ]
