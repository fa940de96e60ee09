-- ===== src/LiveTrading/Coordinator/Restore.antt =====
-- The start: ownership and legs restored from the store.
use triak_trade.Base.{Bool, true, ◌&&◌, if◌then◌else◌, none, some, List, [], ◌∷◌, ◌++◌}
use triak_trade.Base.Text.{Str, codes, str_in}
use triak_trade.Base.Dict.{str_Eq, lookup, insert}
use triak_trade.Decimal.{Context}
use triak_trade.LiveTrading.Models.{LiveTrade, is_open}
use triak_trade.LiveTrading.Coordinator.Defs.{Coordinator, bucket_for_trade}
use triak_trade.LiveTrading.Coordinator.Claims.{claim_orders, trade_order_ids}
use triak_trade.LiveTrading.Coordinator.Registry.{register_trade}
use triak_trade.LiveTrading.Coordinator.Owners.{block_trade_bucket}

-- `_restore_fill_owner`: the first owner that is restored keeps a fill.
unfoldable pub restore_fill_owner : Str → LiveTrade → Coordinator → Coordinator
restore_fill_owner fill_id trade s = elim (lookup fill_id s.fill_owners) [
  | none ↦ record s { fill_owners = insert fill_id trade.trade_id s.fill_owners }
  | some owner ↦ s
]

unfoldable pub restore_fill_owners : List Str → LiveTrade → Coordinator → Coordinator
unfolding restore_fill_owner
restore_fill_owners [] trade s = s
restore_fill_owners (f ∷ fs) trade s = restore_fill_owners fs trade (restore_fill_owner f trade s)

unfoldable pub stopped_reason : LiveTrade → Str
stopped_reason trade =
    codes "unresolved open trade " ++ (trade.trade_id ++ codes " belongs to a stopped session")

unfoldable pub restore_leg : Context → LiveTrade → Str → Bool → Coordinator → Coordinator
restore_leg c trade mode register_open_leg s =
    if is_open trade && register_open_leg
    then register_trade c trade mode none s
    else if is_open trade
    then block_trade_bucket trade mode (stopped_reason trade) s
    else s

-- `_restore_trade`, with `_restore_order_owner` for each order.
unfoldable pub restore_one_trade : Context → LiveTrade → Str → Bool → Coordinator → Coordinator
restore_one_trade c trade mode register_open_leg s =
    claim_orders (trade_order_ids trade) trade.trade_id (bucket_for_trade trade mode) (
      restore_fill_owners trade.processed_exchange_fill_ids trade
        (restore_leg c trade mode register_open_leg s))

-- `restore_trade`
unfoldable pub restore_trade : Context → LiveTrade → Str → Coordinator → Coordinator
restore_trade c trade mode = restore_one_trade c trade mode true

-- What the store returns for a session: its fields and its trades, as far as its limits reach.
pub record StoredSession : Type 0 where
  pub session_id : Str
  pub trading_mode : Str
  pub status : Str
  pub trades : List LiveTrade

restore_trades : Context → List LiveTrade → Str → Bool → Coordinator → Coordinator
restore_trades c [] mode live s = s
restore_trades c (t ∷ ts) mode live s =
    restore_trades c ts mode live (restore_one_trade c t mode live s)

restore_session : Context → StoredSession → Coordinator → Coordinator
restore_session c session s = elim session.session_id [
  | [] ↦ s
  | _ ∷ _ ↦
      restore_trades c session.trades session.trading_mode
        (str_in session.status (codes "starting" ∷ codes "running" ∷ codes "draining" ∷ [])) s
]

-- `restore_from_store`
unfoldable pub restore_from_store : Context → List StoredSession → Coordinator → Coordinator
unfolding restore_session restore_trades
restore_from_store c [] s = s
restore_from_store c (session ∷ sessions) s =
    restore_from_store c sessions (restore_session c session s)
