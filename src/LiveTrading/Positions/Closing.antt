-- ===== src/LiveTrading/Positions/Closing.antt =====
-- When a trade's stop or target is reached, and how it is closed (position_manager.py).
use triak_trade.Base.{
  ℕ, suc, ◌+◌, Bool, false, not, ◌||◌, if◌then◌else◌, Option, none, some, List, [], ◌∷◌, ◌++◌, drop,
}
use triak_trade.Base.Int.{ℤ, leb_ℤ, ltb_ℤ, max_ℤ}
use triak_trade.Base.Text.{Str}
use triak_trade.Decimal.{Context, add, sub, mul, quantize, zero_d}
use triak_trade.LiveTrading.Models.{
  LiveTrade, MessageAttribution, add_attribution, is_open, partial_close, closed,
}
use triak_trade.LiveTrading.Positions.Targets.{Note, is_long_text}
use triak_trade.LiveTrading.Positions.Money.{calculate_realized_pnl, calc_fees}
use triak_trade.LiveTrading.Positions.Updates.{append_note}

-- `tp<n>_hit` and `sl_hit`
pub data TradeEvent : Type 0 where
  tp_hit : ℕ → TradeEvent
  sl_hit : TradeEvent

unfoldable pub target_reached : Bool → ℤ → ℤ → Bool
target_reached long mark_price tp = if long then leb_ℤ tp mark_price else leb_ℤ mark_price tp

unfoldable pub stop_reached : Bool → ℤ → Option ℤ → Bool
stop_reached long mark_price none = false
stop_reached long mark_price (some stop) =
    if long then leb_ℤ mark_price stop else leb_ℤ stop mark_price

-- The index of the first target that is reached, counted from `idx`.
unfoldable pub first_reached : Bool → ℤ → ℕ → List ℤ → Option ℕ
first_reached long mark_price idx [] = none
first_reached long mark_price idx (tp ∷ tps) =
    let rest = first_reached long mark_price (suc idx) tps in
    if target_reached long mark_price tp then some idx else rest

unfoldable pub target_event : Option ℕ → List TradeEvent
target_event none = []
target_event (some idx) = TradeEvent.tp_hit (idx + 1) ∷ []

unfoldable pub check_sl_tp_hit : LiveTrade → ℤ → List TradeEvent
check_sl_tp_hit trade mark_price =
    let long = is_long_text trade.side in
    let hit_tp_idx =
      first_reached long mark_price trade.targets_hit (drop trade.targets_hit trade.take_profits) in
    let stopped =
      if stop_reached long mark_price trade.stop_loss then TradeEvent.sl_hit ∷ [] else [] in
    if not (is_open trade) || leb_ℤ trade.remaining_quantity zero_d
    then []
    else target_event hit_tp_idx ++ stopped

-- The trade, the message and the realized profit.
pub record Closing : Type 0 where
  pub trade : LiveTrade
  pub message : Option MessageAttribution
  pub pnl : ℤ

unfoldable pub note_closing : ℕ → Str → Str → LiveTrade → Option MessageAttribution → ℤ → Closing
note_closing now action note trade none pnl = record { trade = trade; message = none; pnl = pnl }
note_closing now action note trade (some message) pnl =
    let noted = append_note note (record message { action = action }) in
    record { trade = add_attribution now noted trade; message = some noted; pnl = pnl }

unfoldable pub close_quantity : Context → LiveTrade → ℤ → ℤ
close_quantity c trade close_fraction = quantize c (mul c trade.remaining_quantity close_fraction)

-- The profit and the fees are booked for a quantity.
unfoldable pub book : Context → LiveTrade → ℤ → ℤ → ℤ → LiveTrade
book c trade close_price quantity fee_rate_pct = record trade {
  realized_pnl =
      add c trade.realized_pnl
        (calculate_realized_pnl c trade.side trade.entry_price close_price quantity fee_rate_pct);
  fees = add c trade.fees (calc_fees c trade.entry_price close_price quantity fee_rate_pct);
}

-- The new status, with the fields of a closed trade.
unfoldable pub settle : ℕ → ℤ → Str → LiveTrade → LiveTrade
settle closed_at close_price reason trade =
    if ltb_ℤ zero_d trade.remaining_quantity
    then record trade { status = partial_close }
    else record trade {
      status = closed;
      closed_at = some closed_at;
      exit_price = some close_price;
      close_reason = some reason;
    }

unfoldable pub reduce : Context → LiveTrade → ℤ → Bool → LiveTrade
reduce c trade quantity is_tp_hit = record trade {
  remaining_quantity = max_ℤ zero_d (sub c trade.remaining_quantity quantity);
  targets_hit = if is_tp_hit then trade.targets_hit + 1 else trade.targets_hit;
}

module _ (c : Context) (text : Note → Str) (closed_at now : ℕ) where
  unfoldable pub apply_partial_close :
      LiveTrade → ℤ → ℤ → Str → ℤ → Option MessageAttribution → Bool → Closing
  apply_partial_close trade close_fraction close_price reason fee_rate_pct message is_tp_hit =
      let close_qty = close_quantity c trade close_fraction in
      let pnl =
        calculate_realized_pnl c trade.side trade.entry_price close_price close_qty fee_rate_pct in
      let booked = book c trade close_price close_qty fee_rate_pct in
      let settled = settle closed_at close_price reason (reduce c booked close_qty is_tp_hit) in
      if leb_ℤ close_qty zero_d
      then record { trade = trade; message = message; pnl = zero_d }
      else note_closing now settled.status
          (text (Note.partial_closed close_fraction close_price pnl)) settled message pnl

  unfoldable pub close_trade : LiveTrade → ℤ → Str → ℤ → Option MessageAttribution → Closing
  close_trade trade close_price reason fee_rate_pct message =
      let pnl =
        calculate_realized_pnl c trade.side trade.entry_price close_price trade.remaining_quantity
          fee_rate_pct in
      let booked = book c trade close_price trade.remaining_quantity fee_rate_pct in
      let ended = record booked {
        remaining_quantity = zero_d;
        unrealized_pnl = zero_d;
        status = closed;
        closed_at = some closed_at;
        exit_price = some close_price;
        close_reason = some reason;
      } in
      if not (is_open trade)
      then record { trade = trade; message = message; pnl = zero_d }
      else note_closing now closed (text (Note.fully_closed close_price pnl)) ended message pnl
