-- ===== src/LiveTrading/Coordinator/Registry.antt =====
-- The legs: what `register_trade` computes of a trade, and the methods that write legs.
use triak_trade.Base.{
  ℕ, Bool, true, false, ◌&&◌, if◌then◌else◌, not, Option, none, some, List, [], ◌∷◌, map, keep,
}
use triak_trade.Base.Int.{ℤ, leb_ℤ, max_ℤ}
use triak_trade.Base.Text.{Str, codes, str_in, upper, lower}
use triak_trade.Base.Dict.{str_Eq, lookup, insert, erase}
use triak_trade.Decimal.{Context, sub, sum, zero_d}
use triak_trade.LiveTrading.Models.{LiveTrade, LiveEntryOrderPlan}
use triak_trade.LiveTrading.Coordinator.Defs.{AccountTradeLeg, Coordinator, bucket, bucket_Eq}
use triak_trade.LiveTrading.Coordinator.Claims.{to_set, trade_order_ids, claim_orders}

pending_entry_terminal : List Str
pending_entry_terminal =
    codes "CANCELED"
    ∷ codes "CANCELLED"
    ∷ codes "ORDER_CANCELED"
    ∷ codes "REJECTED"
    ∷ codes "ORDER_REJECTED"
    ∷ codes "FAILED"
    ∷ codes "ORDER_FAILED"
    ∷ codes "EXPIRED"
    ∷ codes "FILLED"
    ∷ codes "ORDER_FILLED"
    ∷ codes "PARTIALLY_CANCELED"
    ∷ codes "PARTIALLY_CANCELLED"
    ∷ codes "NOT_SUBMITTED"
    ∷ []

-- The entry quantity that may still be filled, and the quantity that is held.
unfoldable pub pending_entry_quantity : Context → LiveTrade → ℤ
unfolding pending_entry_terminal
pending_entry_quantity c trade = sum c (
    map (λ item. max_ℤ (sub c item.quantity item.executed_quantity) zero_d)
      (keep (λ item. not (str_in (upper item.status) pending_entry_terminal))
        trade.entry_order_plan))

unfoldable pub physical_remaining_quantity : LiveTrade → ℤ
physical_remaining_quantity trade =
    if has_plan trade.entry_order_plan && leb_ℤ trade.entry_filled_quantity zero_d
    then zero_d
    else max_ℤ trade.remaining_quantity zero_d
  where
    has_plan : List LiveEntryOrderPlan → Bool
    has_plan [] = false
    has_plan (_ ∷ _) = true

unfoldable pub leg_of_trade : Context → LiveTrade → Str → Option ℕ → AccountTradeLeg
leg_of_trade c trade mode handler = record {
  trade_id = trade.trade_id;
  session_id = trade.session_id;
  signal_id = trade.signal_id;
  channel_id = trade.channel_id;
  trading_mode = mode;
  symbol = upper trade.symbol;
  side = lower trade.side;
  entry_price = trade.entry_price;
  stop_loss = trade.stop_loss;
  remaining_quantity = physical_remaining_quantity trade;
  pending_entry_quantity = pending_entry_quantity c trade;
  balance_at_entry = max_ℤ trade.balance_at_entry zero_d;
  opened_at = trade.opened_at;
  status = trade.status;
  close_handler = handler;
  order_ids = to_set (trade_order_ids trade);
}

-- A refresh without a handler keeps the one that is known.
unfoldable pub known_handler : Str → Option ℕ → Coordinator → Option ℕ
known_handler trade_id (some h) s = some h
known_handler trade_id none s = elim (lookup trade_id s.legs) [
  | none ↦ none
  | some leg ↦ leg.close_handler
]

unfoldable pub register_trade : Context → LiveTrade → Str → Option ℕ → Coordinator → Coordinator
unfolding known_handler
register_trade c trade mode handler s =
    let leg = leg_of_trade c trade mode (known_handler trade.trade_id handler s) in
    claim_orders leg.order_ids trade.trade_id (bucket leg)
      (record s { legs = insert trade.trade_id leg s.legs })

unfoldable pub unregister_trade : Str → Coordinator → Coordinator
unregister_trade trade_id s = record s { legs = erase trade_id s.legs }
