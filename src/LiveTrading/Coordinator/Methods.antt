-- ===== src/LiveTrading/Coordinator/Methods.antt =====
-- The methods that write the coordinator, as values, so that a history of the account is a list of
-- calls. The engines call them in any order.
use triak_trade.Base.{ℕ, Bool, Option, List, [], ◌∷◌}
use triak_trade.Base.Text.{Str}
use triak_trade.Decimal.{Context}
use triak_trade.LiveTrading.Models.{LiveTrade}
use triak_trade.LiveTrading.Coordinator.Defs.{Coordinator}
use triak_trade.LiveTrading.Coordinator.Registry.{register_trade, unregister_trade}
use triak_trade.LiveTrading.Coordinator.Owners.{
  mark_order_owner, release_order_owner, block_trade_bucket, clear_trade_bucket_block,
  mark_fill_owner,
}
use triak_trade.LiveTrading.Coordinator.Restore.{restore_one_trade}

pub data Call : Type 0 where
  register : LiveTrade → Str → Option ℕ → Call
  unregister : Str → Call
  mark_order : Option Str → LiveTrade → Str → Call
  release : Option Str → Str → Call
  block_call : LiveTrade → Str → Str → Call
  clear : LiveTrade → Str → Option Str → Call
  mark_fill : Str → LiveTrade → Str → Call
  restore : LiveTrade → Str → Bool → Call

unfoldable pub perform : Context → Call → Coordinator → Coordinator
perform c (register trade mode handler) s = register_trade c trade mode handler s
perform c (unregister trade_id) s = unregister_trade trade_id s
perform c (mark_order order_id trade mode) s = mark_order_owner order_id trade mode s
perform c (release order_id trade_id) s = release_order_owner order_id trade_id s
perform c (block_call trade mode reason) s = block_trade_bucket trade mode reason s
perform c (clear trade mode prefix) s = clear_trade_bucket_block trade mode prefix s
perform c (mark_fill fill_id trade mode) s = (mark_fill_owner fill_id trade mode s).1
perform c (restore trade mode live) s = restore_one_trade c trade mode live s

unfoldable pub perform_all : Context → List Call → Coordinator → Coordinator
unfolding perform
perform_all c [] s = s
perform_all c (m ∷ ms) s = perform_all c ms (perform c m s)
