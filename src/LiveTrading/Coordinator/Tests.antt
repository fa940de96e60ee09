-- ===== src/LiveTrading/Coordinator/Tests.antt =====
-- Runs of the coordinator: an account with two channels that trade one symbol.
use triak_trade.Base.{◌≡◌, ◌⊎◌, refl, ◌↔◌, ◌≢◌, true, false, none, some, [], ◌∷◌, ok, err, arith}
use triak_trade.Base.Int.{ℤ, pos}
use triak_trade.Base.Text.{Str, codes, str_eq, str_eq_iff, upper, lower}
use triak_trade.Base.Dict.{values, lookup}
use triak_trade.Decimal.Ops.{run}
use triak_trade.Decimal.Default.{python, one}
use triak_trade.LiveTrading.History.{IsRecorded, add_attribution-IsRecorded}
use triak_trade.LiveTrading.Models.{
  MessageAttribution, add_attribution, LiveTrade, is_active, open_status,
}
use triak_trade.LiveTrading.Coordinator.Defs.{
  AccountTradeLeg, AccountPositionPolicy, SameDirectionPolicy, Coordinator, bucket_for_trade,
  bucket, bucket_eq, reserved_quantity,
}
use triak_trade.LiveTrading.Coordinator.Owners.{mark_fill_owner}
use triak_trade.LiveTrading.Coordinator.Queries.{
  bucket_block_reason, show_reasons, fill_owner, fill_is_available, order_is_available,
}
use triak_trade.LiveTrading.Coordinator.Risk.{
  bucket_blocked, apply_symbol_risk_cap, available_risk, stop_risk_per_unit, find_duplicate,
  first_duplicate,
}
use triak_trade.LiveTrading.Coordinator.Methods.{
  register, unregister, mark_order, mark_fill, perform_all,
}
use triak_trade.LiveTrading.Coordinator.Open.{
  Account, CloseHandler, coordinate_open, decision, open_action, duplicate, apply_policy,
  net_opposite_legs, net_legs, after_netting, set_quantity, open_residual, approve,
  same_direction_blocks, finish_approval, raise_blocked,
}
use triak_trade.LiveTrading.Coordinator.Select.{
  opposite_legs, same_side_legs, is_same_side, sort_legs,
}
use triak_trade.LiveTrading.Coordinator.Fills.{perform_all-keeps_fill}
use triak_trade.LiveTrading.Coordinator.Orders.{Owns, perform_all-Owns}
use triak_trade.LiveTrading.Coordinator.Blocks.{size, IsBlocked, fill_conflict-IsBlocked}
use triak_trade.LiveTrading.Coordinator.Persist.{perform_all-IsBlocked}
use triak_trade.LiveTrading.Coordinator.Fills.{mark_fill_owner_lem}
use triak_trade.LiveTrading.Coordinator.Risk.{leg_stop_risk}
use triak_trade.LiveTrading.Coordinator.Capped.{IsWithinCap, open_residual-IsWithinCap}
use triak_trade.LiveTrading.Coordinator.Decisions.{blocked_open, Decides, coordinate_open-Decides}

abbrev mode : Str
mode = codes "live"

-- A long trade of one unit at 100 with its stop at 90 and a balance of 1000.
abbrev trade_of : Str → LiveTrade
trade_of id = record {
  trade_id = id;
  session_id = codes "s";
  signal_id = codes "g";
  channel_id = codes "c";
  channel_input = codes "c";
  channel_label = codes "c";
  symbol = codes "BTC";
  side = codes "long";
  leverage = 1;
  entry_price = pos 1_000_000_000_000;
  entry_type = codes "market";
  requested_entry_low = none;
  requested_entry_high = none;
  requested_stop_loss = none;
  requested_take_profits = [];
  quantity = one;
  stop_loss = some (pos 900_000_000_000);
  take_profits = [];
  status = open_status;
  entry_order_id = none;
  entry_order_plan = [];
  entry_filled_quantity = pos 0;
  sl_order_id = none;
  tp_order_ids = [];
  tp_order_plan = [];
  processed_exchange_fill_ids = [];
  message_history = [];
  realized_pnl = pos 0;
  fees = pos 0;
  exit_price = none;
  close_reason = none;
  targets_hit = 0;
  remaining_quantity = one;
  balance_at_entry = pos 10_000_000_000_000;
  opened_at = 0;
  closed_at = none;
  updated_at = 0;
  mark_price = none;
  unrealized_pnl = pos 0;
  margin = pos 0;
}

abbrev first : LiveTrade
first = trade_of (codes "a")

abbrev second : LiveTrade
second = trade_of (codes "b")

abbrev fill_id : Str
fill_id = codes "f"

abbrev order_id : Str
order_id = codes "o"

-- One percent of the balance may be at risk: 10, so one unit.
abbrev fresh : Coordinator
fresh = record {
  position_policy = AccountPositionPolicy.net;
  same_direction_policy = SameDirectionPolicy.aggregate;
  symbol_risk_cap_pct = pos 5_000_000_000;
  fee_rate_pct = pos 0;
  duplicate_window_seconds = 60;
  duplicate_price_tolerance_bps = pos 0;
  legs = [];
  order_owners = [];
  fill_owners = [];
  blocked_buckets = [];
}

-- The first trade owns the fill and the order.
abbrev owned : Coordinator
owned = record fresh {
  order_owners = (order_id, codes "a") ∷ [];
  fill_owners = (fill_id, codes "a") ∷ [];
}

perform_all-keeps_fill_example :
    fill_owner fill_id
      (perform_all python (mark_fill fill_id second mode ∷ unregister (codes "a") ∷ []) owned)
    ≡ some (codes "a")
unfolding fill_owner str_eq lookup
perform_all-keeps_fill_example =
    perform_all-keeps_fill python (mark_fill fill_id second mode ∷ unregister (codes "a") ∷ [])
      fill_id (codes "a") owned refl

mark_fill_owner_lem_example :
    ((mark_fill_owner fill_id second mode owned).0 ≡ fill_is_available fill_id (codes "b") owned)
    × (((mark_fill_owner fill_id second mode owned).0 ≡ true)
        ↔ (fill_owner fill_id (mark_fill_owner fill_id second mode owned).1 ≡ some (codes "b")))
mark_fill_owner_lem_example = mark_fill_owner_lem fill_id second mode owned

names_differ : codes "b" ≢ codes "a"
unfolding str_eq
names_differ e = let h : false ≡ true = (str_eq_iff (codes "b") (codes "a")).1 e in cc h

perform_all-Owns_example :
    Owns order_id
      (codes "a")
      (perform_all python (mark_order (some order_id) second mode ∷ []) owned)
    × (order_is_available
          (some order_id)
          (codes "b")
          (perform_all python (mark_order (some order_id) second mode ∷ []) owned)
        ≡ false)
unfolding str_eq lookup
perform_all-Owns_example =
    perform_all-Owns python (mark_order (some order_id) second mode ∷ []) order_id (codes "a")
      (codes "b") owned refl ((λ e. cc e), tt) (λ e. cc e) names_differ

fill_conflict-IsBlocked_example :
    IsBlocked second mode (mark_fill_owner fill_id second mode owned).1
unfolding fill_is_available str_eq lookup
fill_conflict-IsBlocked_example = fill_conflict-IsBlocked fill_id second mode owned refl

-- The bucket of both trades is blocked.
abbrev stopped : Coordinator
stopped = record fresh {
  blocked_buckets =
      (record { trading_mode = mode; symbol = codes "BTC"; side = codes "long" }, codes "r" ∷ [])
      ∷ [];
}

perform_all-IsBlocked_example :
    IsBlocked first mode (perform_all python (register first mode none ∷ []) stopped)
unfolding bucket_for_trade bucket_eq str_eq upper lower lookup size
perform_all-IsBlocked_example =
    perform_all-IsBlocked python (register first mode none ∷ []) first mode stopped (omega arith)
      ((λ e. e), tt)

abbrev no_callback : CloseHandler
no_callback = λ h t q r s. (none, s)

blocked_open_example :
    (reason : Str) × (bucket_block_reason first mode stopped ≡ some reason)
    × (reason ≢ [])
    × (coordinate_open python no_callback mode (record { coordinator = stopped; trade = first })
        ≡ (err (bucket_blocked reason), record { coordinator = stopped; trade = first }))
unfolding bucket_for_trade bucket_eq str_eq upper lower lookup size
blocked_open_example =
    blocked_open python no_callback mode (record { coordinator = stopped; trade = first })
      (omega arith) (omega arith)

-- Half a percent of 1000 pays for half a unit.
abbrev half : ℤ
half = pos 5_000_000_000

capped_run : apply_symbol_risk_cap python fresh first [] ≡ ok half
unfolding run apply_symbol_risk_cap available_risk stop_risk_per_unit str_eq lower
capped_run = refl

abbrev asked : Account
asked = record { coordinator = fresh; trade = first }

abbrev answered : Account
answered = record {
  coordinator = fresh;
  trade = record first { quantity = half; remaining_quantity = half };
}

opened_run :
    coordinate_open python no_callback mode asked
    ≡ (ok (decision open_action one half (pos 0) none), answered)
unfolding run coordinate_open apply_policy net_opposite_legs net_legs opposite_legs values
    after_netting set_quantity open_residual same_side_legs find_duplicate first_duplicate approve
    same_direction_blocks apply_symbol_risk_cap available_risk stop_risk_per_unit str_eq lower upper
    finish_approval decision raise_blocked bucket_block_reason show_reasons lookup bucket_for_trade
    sort_legs
opened_run = refl

coordinate_open-Decides_example :
    Decides python AccountPositionPolicy.net one answered
      (decision open_action one half (pos 0) none)
coordinate_open-Decides_example = coordinate_open-Decides python no_callback mode asked opened_run

-- The leg of the first trade, as it is registered.
abbrev first_leg : AccountTradeLeg
first_leg = record {
  trade_id = codes "a";
  session_id = codes "s";
  signal_id = codes "g";
  channel_id = codes "c";
  trading_mode = mode;
  symbol = codes "BTC";
  side = codes "long";
  entry_price = pos 1_000_000_000_000;
  stop_loss = some (pos 900_000_000_000);
  remaining_quantity = one;
  pending_entry_quantity = pos 0;
  balance_at_entry = pos 10_000_000_000_000;
  opened_at = 0;
  status = open_status;
  close_handler = none;
  order_ids = [];
}

abbrev repeated : Account
repeated = record {
  coordinator = record fresh { legs = (codes "a", first_leg) ∷ [] };
  trade = second;
}

-- Of one and a half percent of 1000 the first leg may lose 10, which leaves 5 for half a unit.
abbrev shared : Account
shared = record {
  coordinator = record fresh {
    duplicate_window_seconds = 0;
    symbol_risk_cap_pct = pos 15_000_000_000;
    legs = (codes "a", first_leg) ∷ [];
  };
  trade = second;
}

abbrev reduced : Account
reduced = record {
  coordinator = shared.coordinator;
  trade = record second { quantity = half; remaining_quantity = half };
}

shared_run :
    open_residual python no_callback mode one (pos 0) shared
    ≡ (ok (decision open_action one half (pos 0) none), reduced)
unfolding run open_residual find_duplicate same_side_legs is_same_side values bucket bucket_eq
    bucket_for_trade str_eq upper lower reserved_quantity is_active approve same_direction_blocks
    apply_symbol_risk_cap available_risk leg_stop_risk stop_risk_per_unit finish_approval
    set_quantity decision
shared_run = refl

open_residual-IsWithinCap_example :
    (open_action ≡ duplicate)
    ⊎ ((open_action ≡ open_action)
        × (half ≡ half)
        × IsWithinCap python shared.coordinator second
            (same_side_legs python mode second shared.coordinator)
            half)
unfolding decision
open_residual-IsWithinCap_example =
    open_residual-IsWithinCap python no_callback mode one (pos 0) shared (omega arith) (omega arith)
      shared_run

abbrev opening : MessageAttribution
opening = record {
  object_id = 1;
  message_id = 7;
  channel_id = codes "c";
  channel_label = codes "c";
  message_preview = [];
  message_date = 0;
  action = codes "opened";
  notes = [];
}

add_attribution-IsRecorded_example :
    IsRecorded opening [] (add_attribution 9 opening first).message_history
    × ((add_attribution 9 opening first).updated_at ≡ 9)
add_attribution-IsRecorded_example = add_attribution-IsRecorded 9 opening first
