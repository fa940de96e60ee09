-- ===== src/Domain.antt =====
-- The enumerations and the parsed signal of src/triak_trade/domain (enums.py, models.py). Prices are
-- decimals; the fields that no modelled code reads are left out.
pub mod Records
pub mod Accepted
mod Tests
use triak_trade.Base.{ℕ, Bool, true, false, Option, List}
use triak_trade.Base.Int.{ℤ}
use triak_trade.Base.Text.{Str}

pub data TradeSide : Type 0 where
  long short buy sell unknown_side : TradeSide

unfoldable pub is_long : TradeSide → Bool
is_long long = true
is_long buy = true
is_long _ = false

unfoldable pub is_short : TradeSide → Bool
is_short short = true
is_short sell = true
is_short _ = false

-- `side in {TradeSide.LONG, TradeSide.SHORT}`
unfoldable pub is_direction : TradeSide → Bool
is_direction long = true
is_direction short = true
is_direction _ = false

pub data SignalAction : Type 0 where
  open_signal close cancel ignore_signal unknown_action : SignalAction
  update_sl update_tp update_entry update_leverage : SignalAction

pub data EntryType : Type 0 where
  market limit range trigger unknown_entry : EntryType

pub record ParsedSignal : Type 0 where
  pub action : SignalAction
  pub symbol : Option Str
  pub side : TradeSide
  pub entry_type : EntryType
  pub entry_low : Option ℤ
  pub entry_high : Option ℤ
  pub stop_loss : Option ℤ
  pub take_profits : List ℤ
  pub leverage : Option ℕ
  pub confidence : ℤ
