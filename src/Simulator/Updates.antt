-- ===== src/Simulator/Updates.antt =====
-- `_apply_live_style_position_update`: what a later message does to an open position. A division by zero ends
-- the simulation.
use triak_trade.Base.{
  ℕ, ◌==◌, Bool, true, false, not, ◌&&◌, if◌then◌else◌, Option, none, some, List, [], ◌∷◌, ◌++◌,
  take, Result, ok, ◌>>=◌,
}
use triak_trade.Base.Int.{ℤ, eqb_ℤ, min_ℤ, max_ℤ}
use triak_trade.Decimal.{Context, of_ℕ}
use triak_trade.Domain.{SignalAction, ParsedSignal}
use triak_trade.StopLoss.{DivisionError, StopLossRiskResult, clamp_stop_loss_to_risk_budget}
use triak_trade.Simulator.Position.{OpenPosition, PositionNote}
use triak_trade.Simulator.Sizing.{simulated_take_profits}
use triak_trade.Simulator.Candles.{is_nonempty}

unfoldable pub handles_stop : SignalAction → Bool
handles_stop SignalAction.update_sl = true
handles_stop SignalAction.update_tp = true
handles_stop SignalAction.update_entry = true
handles_stop _ = false

unfoldable pub is_update_tp : SignalAction → Bool
is_update_tp SignalAction.update_tp = true
is_update_tp _ = false

unfoldable pub handles_take_profit : SignalAction → Bool
handles_take_profit SignalAction.update_tp = true
handles_take_profit SignalAction.update_entry = true
handles_take_profit _ = false

unfoldable pub handles_leverage : SignalAction → Bool
handles_leverage SignalAction.update_leverage = true
handles_leverage SignalAction.update_entry = true
handles_leverage _ = false

unfoldable pub add_note : PositionNote → OpenPosition → OpenPosition
add_note note p = record p { notes = p.notes ++ note ∷ [] }

-- The note of an update, where the stop is the requested one.
unfoldable pub note_stop : ℤ → OpenPosition → OpenPosition
note_stop stop p = if eqb_ℤ p.stop_loss stop then add_note (PositionNote.stop_updated stop) p else p

-- `position.stop_loss = parsed.stop_loss`, noted.
unfoldable pub set_stop : ℤ → OpenPosition → OpenPosition
set_stop stop p = note_stop stop (record p { stop_loss = stop })

-- The position after its stop was looked at, and whether the method returns there.
unfoldable pub answer_stop :
    SignalAction → ℤ → OpenPosition → StopLossRiskResult → OpenPosition × Bool
answer_stop action stop p risk =
    let rejected = add_note (PositionNote.stop_rejected stop risk.stop_loss risk.risk_budget) p in
    if risk.was_capped
    then if is_update_tp action then (rejected, true) else (note_stop stop rejected, false)
    else (set_stop stop p, false)

unfoldable pub clamp_position :
    Context → OpenPosition → ℤ → ℤ → Result DivisionError StopLossRiskResult
clamp_position c p stop max_loss_pct =
    clamp_stop_loss_to_risk_budget c p.side p.entry_price stop p.remaining_quantity
      p.balance_at_entry p.fee_rate_pct max_loss_pct

unfoldable pub update_stop :
    Context
    → SignalAction
    → Option ℤ
    → Option ℤ
    → OpenPosition
    → Result DivisionError (OpenPosition × Bool)
update_stop c action max_loss_pct none p = ok (p, false)
update_stop c action none (some stop) p =
    if handles_stop action then ok (set_stop stop p, false) else ok (p, false)
update_stop c action (some max_loss_pct) (some stop) p =
    let answered =
      clamp_position c p stop max_loss_pct >>= λ risk. ok (answer_stop action stop p risk) in
    if handles_stop action then answered else ok (p, false)

unfoldable pub move_or_update_stop :
    Context
    → Bool
    → SignalAction
    → Option ℤ
    → Option ℤ
    → OpenPosition
    → Result DivisionError (OpenPosition × Bool)
move_or_update_stop c true action max_loss_pct stop p =
    ok (add_note PositionNote.stop_to_entry (record p { stop_loss = p.entry_price }), false)
move_or_update_stop c false action max_loss_pct stop p = update_stop c action max_loss_pct stop p

unfoldable pub update_targets : Context → SignalAction → List ℤ → OpenPosition → OpenPosition
update_targets c action asked p =
    let valid = simulated_take_profits c asked p.side p.entry_price (some p.stop_loss) in
    if handles_take_profit action && is_nonempty asked
    then if is_nonempty valid
      then add_note (PositionNote.targets_updated valid)
          (record p { take_profits = take p.targets_hit p.take_profits ++ valid })
      else add_note PositionNote.targets_ignored p
    else p

unfoldable pub limited : ℤ → Option ℤ → ℤ
limited requested none = requested
limited requested (some most) = min_ℤ requested most

unfoldable pub set_leverage : Context → Option ℤ → ℤ → OpenPosition → OpenPosition
set_leverage c most requested p =
    let effective = limited requested most in
    add_note
      (if eqb_ℤ effective requested
        then PositionNote.leverage_updated effective
        else PositionNote.leverage_clamped requested effective)
      (record p {
        declared_leverage = some requested;
        effective_leverage = max_ℤ effective (of_ℕ c 1);
      })

unfoldable pub update_position_leverage :
    Context → SignalAction → Option ℤ → Option ℕ → OpenPosition → OpenPosition
update_position_leverage c action most none p = p
update_position_leverage c action most (some n) p =
    if handles_leverage action && not (n == 0) then set_leverage c most (of_ℕ c n) p else p

unfoldable pub apply_live_style_position_update :
    Context
    → Bool
    → ParsedSignal
    → Option ℤ
    → Option ℤ
    → OpenPosition
    → Result DivisionError OpenPosition
apply_live_style_position_update c move_stop_to_entry parsed most max_loss_pct p =
    move_or_update_stop c move_stop_to_entry parsed.action max_loss_pct parsed.stop_loss p >>= λ s.
    if s.1
    then ok (s.0)
    else ok (
        update_position_leverage c parsed.action most parsed.leverage
          (update_targets c parsed.action parsed.take_profits (s.0)))
