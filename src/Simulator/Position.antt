-- ===== src/Simulator/Position.antt =====
-- An open position, and the closing of a part of it.
use triak_trade.Base.{ℕ, ltb, Bool, ◌||◌, if◌then◌else◌, Option, some, List, [], ◌∷◌, ◌++◌, drop}
use triak_trade.Base.Int.{ℤ, neg, leb_ℤ, ltb_ℤ, min_ℤ, max_ℤ}
use triak_trade.Base.Text.{Str}
use triak_trade.Decimal.{Context, of_ℕ, add, sub, mul, div, percent, zero_d}
use triak_trade.Domain.{TradeSide, is_short}
use triak_trade.Domain.Records.{Candle}

-- The statuses of a position that is closed by a candle.
pub data ExitStatus : Type 0 where
  partial_close_then_tp partial_tp_complete tp_hit_same_candle tp_hit : ExitStatus
  partial_close_then_sl partial_tp_then_sl sl_hit_same_candle sl_hit : ExitStatus

-- Why a part was closed, as its note says.
pub data ExitReason : Type 0 where
  stop_hit stop_hit_same_candle stop_after_partial_same_candle : ExitReason
  take_profit_hit : ℤ → ExitReason

-- The notes, with the values that their texts show.
pub data PositionNote : Type 0 where
  stop_moved_to_target : ℤ → PositionNote
  stop_moved_to_entry : PositionNote
  part_closed : ExitReason → ℤ → ℤ → ℤ → PositionNote
  stop_to_entry targets_ignored : PositionNote
  stop_updated : ℤ → PositionNote
  stop_rejected : ℤ → ℤ → ℤ → PositionNote
  targets_updated : List ℤ → PositionNote
  leverage_clamped : ℤ → ℤ → PositionNote
  leverage_updated : ℤ → PositionNote

-- The fields of `_OpenPosition` but those that are only copied to the trade.
pub record OpenPosition : Type 0 where
  pub signal_id : Str
  pub symbol : Str
  pub side : TradeSide
  pub entry_price : ℤ
  pub stop_loss : ℤ
  pub take_profits : List ℤ
  pub original_quantity : ℤ
  pub remaining_quantity : ℤ
  pub entry_time : ℕ
  pub realized_pnl : ℤ
  pub realized_fees : ℤ
  pub exit_price : Option ℤ
  pub exit_time : Option ℕ
  pub notes : List PositionNote
  pub targets_hit : ℕ
  pub manual_partial_exit : Bool
  pub balance_at_entry : ℤ
  pub declared_leverage : Option ℤ
  pub effective_leverage : ℤ
  pub fee_rate_pct : ℤ
  pub realized_exit_notional : ℤ

unfoldable pub hit_sl : OpenPosition → Candle → Bool
hit_sl p k = if is_short p.side then leb_ℤ p.stop_loss k.high else leb_ℤ k.low p.stop_loss

unfoldable pub hit_tp : OpenPosition → Candle → ℤ → Bool
hit_tp p k tp = if is_short p.side then leb_ℤ k.low tp else leb_ℤ tp k.high

unfoldable pub pending_take_profits : OpenPosition → List ℤ
pending_take_profits p = drop p.targets_hit p.take_profits

-- `direction` is minus one or one.
unfoldable pub calculate_pnl : Context → OpenPosition → ℤ → ℤ → ℤ
calculate_pnl c p exit_price quantity =
    let gain = mul c (sub c exit_price p.entry_price) quantity in
    if is_short p.side then mul c gain (neg (of_ℕ c 1)) else mul c gain (of_ℕ c 1)

unfoldable pub exit_fee_of : Context → OpenPosition → ℤ → ℤ → ℤ
exit_fee_of c p exit_price quantity =
    if ltb_ℤ zero_d p.fee_rate_pct
    then percent c (mul c (mul c exit_price quantity) p.fee_rate_pct)
    else zero_d

-- The quantity for a fraction, which is all of the rest for one.
unfoldable pub part_of : Context → OpenPosition → ℤ → ℤ
part_of c p fraction =
    let quantity = mul c p.remaining_quantity fraction in
    if leb_ℤ (of_ℕ c 1) fraction || ltb_ℤ p.remaining_quantity quantity
    then p.remaining_quantity
    else quantity

-- `position.remaining_quantity -= quantity`, and zero for a negative rest.
unfoldable pub rest_after : Context → ℤ → ℤ → ℤ
rest_after c remaining quantity =
    let rest = sub c remaining quantity in if ltb_ℤ rest zero_d then zero_d else rest

unfoldable pub close_part_of : Context → OpenPosition → ℕ → ℤ → ℤ → ExitReason → OpenPosition
close_part_of c p exit_time exit_price quantity reason =
    let pnl = calculate_pnl c p exit_price quantity in
    record p {
      realized_pnl = add c p.realized_pnl pnl;
      realized_fees = add c p.realized_fees (exit_fee_of c p exit_price quantity);
      realized_exit_notional = add c p.realized_exit_notional (mul c exit_price quantity);
      remaining_quantity = rest_after c p.remaining_quantity quantity;
      exit_time = some exit_time;
      exit_price = some exit_price;
      notes = p.notes ++ PositionNote.part_closed reason quantity exit_price pnl ∷ [];
    }

unfoldable pub close_fraction_of_position :
    Context → OpenPosition → ℕ → ℤ → ℤ → ExitReason → OpenPosition
close_fraction_of_position c p exit_time exit_price fraction reason =
    let effective = min_ℤ (max_ℤ fraction zero_d) (of_ℕ c 1) in
    if leb_ℤ effective zero_d || leb_ℤ p.remaining_quantity zero_d
    then p
    else close_part_of c p exit_time exit_price (part_of c p effective) reason

unfoldable pub tp_status : OpenPosition → Bool → ExitStatus
tp_status p same_candle =
    if p.manual_partial_exit
    then ExitStatus.partial_close_then_tp
    else if ltb 1 p.targets_hit
    then ExitStatus.partial_tp_complete
    else if same_candle
    then ExitStatus.tp_hit_same_candle
    else ExitStatus.tp_hit

unfoldable pub sl_status : OpenPosition → Bool → ExitStatus
sl_status p same_candle =
    if p.manual_partial_exit
    then ExitStatus.partial_close_then_sl
    else if ltb 0 p.targets_hit
    then ExitStatus.partial_tp_then_sl
    else if same_candle
    then ExitStatus.sl_hit_same_candle
    else ExitStatus.sl_hit

-- The values that `_finalize_position` computes for the trade.
pub record FinalTrade : Type 0 where
  pub exit_price : Option ℤ
  pub quantity : ℤ
  pub pnl : ℤ
  pub pnl_pct : ℤ
  pub fees : ℤ
  pub status : ExitStatus

unfoldable pub finalize_position : Context → OpenPosition → ExitStatus → FinalTrade
finalize_position c p status =
    let exposure = mul c p.entry_price p.original_quantity in
    let fees = max_ℤ p.realized_fees zero_d in
    let net_pnl = sub c p.realized_pnl fees in
    let closed_quantity = max_ℤ (sub c p.original_quantity p.remaining_quantity) zero_d in
    let balance_basis = if ltb_ℤ zero_d p.balance_at_entry then p.balance_at_entry else exposure in
    record {
      exit_price =
          if ltb_ℤ zero_d closed_quantity
          then some (div c p.realized_exit_notional closed_quantity)
          else p.exit_price;
      quantity = max_ℤ p.original_quantity zero_d;
      pnl = net_pnl;
      pnl_pct =
          if ltb_ℤ zero_d balance_basis
          then mul c (div c net_pnl balance_basis) (of_ℕ c 100)
          else zero_d;
      fees = fees;
      status = status;
    }
