-- ===== src/Simulator/Candles.antt =====
-- What a candle does to a position.
use triak_trade.Base.{
  ℕ, suc, leb, ltb, Bool, true, false, not, ◌&&◌, if◌then◌else◌, Option, none, some, List, [], ◌∷◌,
  ◌++◌, length, keep,
}
use triak_trade.Base.Int.{ℤ, leb_ℤ, ltb_ℤ, eqb_ℤ}
use triak_trade.Decimal.{Context, of_ℕ, div, zero_d}
use triak_trade.Domain.Records.{Candle}
use triak_trade.Strategies.{TradeStrategy}
use triak_trade.Simulator.Position.{
  ExitStatus, ExitReason, PositionNote, OpenPosition, hit_sl, hit_tp, pending_take_profits,
  close_fraction_of_position, tp_status, sl_status,
}

pub data BacktestFillPolicy : Type 0 where
  conservative optimistic : BacktestFillPolicy

unfoldable pub is_conservative : BacktestFillPolicy → Bool
is_conservative BacktestFillPolicy.conservative = true
is_conservative BacktestFillPolicy.optimistic = false

unfoldable pub write_stop : ℤ → PositionNote → OpenPosition → OpenPosition
write_stop stop note p = record p { stop_loss = stop; notes = p.notes ++ note ∷ [] }

unfoldable pub move_to_entry : Bool → OpenPosition → OpenPosition
move_to_entry moves p =
    if moves && not (eqb_ℤ p.stop_loss p.entry_price)
    then write_stop p.entry_price PositionNote.stop_moved_to_entry p
    else p

-- The stop that the strategy's action asks for.
unfoldable pub move_stop_by : Option ℤ → Bool → OpenPosition → OpenPosition
move_stop_by none to_entry p = move_to_entry to_entry p
move_stop_by (some stop) to_entry p =
    let otherwise = move_to_entry to_entry p in
    if eqb_ℤ p.stop_loss stop
    then otherwise
    else write_stop stop (PositionNote.stop_moved_to_target stop) p

-- The position with its stop moved, and the fraction to close.
unfoldable pub target_action :
    Context → Option TradeStrategy → OpenPosition → Option (OpenPosition × ℤ)
target_action c none p =
    let remaining = length (pending_take_profits p) in
    some (p, (if leb remaining 1 then of_ℕ c 1 else div c (of_ℕ c 1) (of_ℕ c remaining)))
target_action c (some strategy) p =
    elim (strategy.get_target_hit_action p.targets_hit (length (pending_take_profits p))
      p.entry_price p.take_profits) [
        | none ↦ none
        | some action ↦
            some
              (move_stop_by action.new_stop_loss action.move_sl_to_entry p, action.close_fraction)
      ]

-- The body of the loop over the targets.
unfoldable pub hit_target :
    Context → Option TradeStrategy → ℕ → ℤ → OpenPosition → Option OpenPosition
hit_target c strategy exit_time tp p = elim (target_action c strategy p) [
  | none ↦ none
  | some (moved, fraction) ↦
      let closed =
        close_fraction_of_position c moved exit_time tp fraction (ExitReason.take_profit_hit tp) in
      some (record closed { targets_hit = suc closed.targets_hit })
]

unfoldable pub apply_take_profit_hits :
    Context → Option TradeStrategy → ℕ → List ℤ → OpenPosition → Option OpenPosition
apply_take_profit_hits c strategy exit_time [] p = some p
apply_take_profit_hits c strategy exit_time (tp ∷ tps) p =
    if leb_ℤ p.remaining_quantity zero_d
    then some p
    else elim (hit_target c strategy exit_time tp p) [
      | none ↦ none
      | some q ↦ apply_take_profit_hits c strategy exit_time tps q
    ]

-- All of the rest is closed at the stop.
unfoldable pub close_at_stop : Context → ℕ → ExitReason → OpenPosition → OpenPosition
close_at_stop c exit_time reason p =
    close_fraction_of_position c p exit_time p.stop_loss (of_ℕ c 1) reason

-- The position after a candle, and its status if the candle ended it.
abbrev pub Outcome : Type 0
Outcome = OpenPosition × Option ExitStatus

-- After the targets of a candle that hit the stop as well.
unfoldable pub stop_after_targets : Context → ℕ → OpenPosition → Outcome
stop_after_targets c exit_time p =
    let stopped = close_at_stop c exit_time ExitReason.stop_after_partial_same_candle p in
    if ltb_ℤ zero_d p.remaining_quantity
    then (stopped, some (sl_status stopped true))
    else (p, some (tp_status p true))

-- The end of the method, for a position after its targets.
unfoldable pub after_targets : Context → ℕ → Bool → Bool → OpenPosition → Outcome
after_targets c exit_time targets stop p =
    let stopped = close_at_stop c exit_time ExitReason.stop_hit p in
    if targets && leb_ℤ p.remaining_quantity zero_d
    then (p, some (tp_status p false))
    else if stop && ltb_ℤ zero_d p.remaining_quantity
    then (stopped, some (sl_status stopped false))
    else (p, none)

unfoldable pub is_nonempty : List ℤ → Bool
is_nonempty [] = false
is_nonempty (_ ∷ _) = true

unfoldable pub apply_candle_to_position :
    Context → BacktestFillPolicy → Option TradeStrategy → OpenPosition → Candle → Option Outcome
apply_candle_to_position c policy strategy p k =
    let stop = hit_sl p k in
    let hits = keep (hit_tp p k) (pending_take_profits p) in
    let targets = is_nonempty hits in
    let stopped = close_at_stop c k.close_time ExitReason.stop_hit_same_candle p in
    if stop && targets && is_conservative policy
    then some (stopped, some (sl_status stopped true))
    else elim (apply_take_profit_hits c strategy k.close_time hits p) [
      | none ↦ none
      | some q ↦ some (
          if stop && targets
          then stop_after_targets c k.close_time q
          else after_targets c k.close_time targets stop q)
    ]

-- The loop of `_process_candles_until` for one position and the candles of its symbol: those that open before
-- the entry are passed over, and the first that gives a status ends it.
unfoldable pub process_candles :
    Context
    → BacktestFillPolicy
    → Option TradeStrategy
    → List Candle
    → OpenPosition
    → Option Outcome
process_candles c policy strategy [] p = some (p, none)
process_candles c policy strategy (k ∷ ks) p =
    let passed = process_candles c policy strategy ks p in
    if ltb k.open_time p.entry_time
    then passed
    else elim (apply_candle_to_position c policy strategy p k) [
      | none ↦ none
      | some (q, some status) ↦ some (q, some status)
      | some (q, none) ↦ process_candles c policy strategy ks q
    ]
