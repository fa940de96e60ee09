-- ===== src/Strategies.antt =====
-- The trade strategies (src/triak_trade/backtesting/strategies): the protocol of base.py as a record of
-- operations, and the two implementations. A strategy's operation may raise, which is `none`.
pub mod Default
pub mod Trailing
pub mod Stops
pub mod Ladder
pub mod Hits
mod Tests
use triak_trade.Base.{ℕ, Bool, Option, List}
use triak_trade.Base.Int.{ℤ}
use triak_trade.Base.Text.{Str}
use triak_trade.Domain.{TradeSide}

pub record TargetHitAction : Type 0 where
  pub close_fraction : ℤ
  pub move_sl_to_entry : Bool
  pub new_stop_loss : Option ℤ

-- The protocol `TradeStrategy`. The arguments are, in order: of `get_synthetic_stop` the side, the entry
-- price, the balance, the quantity and the fee rate; of `get_synthetic_take_profits` the side, the
-- entry price, the stop and the notional value; of `get_target_hit_action` the targets hit so far,
-- those that remain, the entry price and the targets.
pub record TradeStrategy : Type 0 where
  pub name : Str
  pub get_synthetic_stop : TradeSide → ℤ → ℤ → ℤ → ℤ → Option ℤ
  pub get_synthetic_take_profits : TradeSide → ℤ → ℤ → ℤ → Option (List ℤ)
  pub get_target_hit_action : ℕ → ℕ → ℤ → List ℤ → Option TargetHitAction
