-- ===== src/LiveTrading/Coordinator/Defs.antt =====
-- The state of `AccountExecutionCoordinator`, its legs and buckets, and its constructor.
use triak_trade.Base.{ℕ, ◌≡◌, ◌↔◌, Bool, true, ◌&&◌, Option, List, [], arith}
use triak_trade.Base.Int.{ℤ, max_ℤ}
use triak_trade.Base.Text.{Str, str_eq, str_eq_iff, upper, lower}
use triak_trade.Base.Dict.{Dict, Eq}
use triak_trade.Decimal.{Context, add, zero_d}
use triak_trade.LiveTrading.Models.{LiveTrade}

pub data AccountPositionPolicy : Type 0 where
  net hedge block : AccountPositionPolicy

pub data SameDirectionPolicy : Type 0 where
  aggregate block : SameDirectionPolicy

pub record AccountBucketKey : Type 0 where
  pub trading_mode : Str
  pub symbol : Str
  pub side : Str

unfoldable pub bucket_eq : AccountBucketKey → AccountBucketKey → Bool
bucket_eq a b =
    str_eq a.trading_mode b.trading_mode && str_eq a.symbol b.symbol && str_eq a.side b.side

pub bucket_eq_iff : (a b : AccountBucketKey) → (bucket_eq a b ≡ true) ↔ (a ≡ b)
unfolding bucket_eq
bucket_eq_iff a b = (
  λ h. ground (
    arith,
    str_eq_iff a.trading_mode b.trading_mode,
    str_eq_iff a.symbol b.symbol,
    str_eq_iff a.side b.side,
  ),
  λ h. ground (
    arith,
    str_eq_iff a.trading_mode b.trading_mode,
    str_eq_iff a.symbol b.symbol,
    str_eq_iff a.side b.side,
  ),
)

instance abbrev pub bucket_Eq : Eq AccountBucketKey
bucket_Eq = record { eqb = bucket_eq; eqb_iff = bucket_eq_iff }

-- `close_handler` is the handle of the engine's callback.
pub record AccountTradeLeg : Type 0 where
  pub trade_id : Str
  pub session_id : Str
  pub signal_id : Str
  pub channel_id : Str
  pub trading_mode : Str
  pub symbol : Str
  pub side : Str
  pub entry_price : ℤ
  pub stop_loss : Option ℤ
  pub remaining_quantity : ℤ
  pub pending_entry_quantity : ℤ
  pub balance_at_entry : ℤ
  pub opened_at : ℕ
  pub status : Str
  pub close_handler : Option ℕ
  pub order_ids : List Str

unfoldable pub bucket : AccountTradeLeg → AccountBucketKey
bucket leg = record { trading_mode = leg.trading_mode; symbol = leg.symbol; side = leg.side }

unfoldable pub reserved_quantity : Context → AccountTradeLeg → ℤ
reserved_quantity c leg = add c leg.remaining_quantity leg.pending_entry_quantity

pub record Coordinator : Type 0 where
  pub position_policy : AccountPositionPolicy
  pub same_direction_policy : SameDirectionPolicy
  pub symbol_risk_cap_pct : ℤ
  pub fee_rate_pct : ℤ
  pub duplicate_window_seconds : ℕ
  pub duplicate_price_tolerance_bps : ℤ
  pub legs : Dict Str AccountTradeLeg
  pub order_owners : Dict Str Str
  pub fill_owners : Dict Str Str
  pub blocked_buckets : Dict AccountBucketKey (List Str)

-- `__init__`; the window is an `int`, of which a negative one counts as zero.
unfoldable pub new_coordinator :
    AccountPositionPolicy → SameDirectionPolicy → ℤ → ℤ → ℕ → ℤ → Coordinator
new_coordinator position same cap fee window tolerance = record {
  position_policy = position;
  same_direction_policy = same;
  symbol_risk_cap_pct = max_ℤ cap zero_d;
  fee_rate_pct = max_ℤ fee zero_d;
  duplicate_window_seconds = window;
  duplicate_price_tolerance_bps = max_ℤ tolerance zero_d;
  legs = [];
  order_owners = [];
  fill_owners = [];
  blocked_buckets = [];
}

-- `_bucket_for_trade`
unfoldable pub bucket_for_trade : LiveTrade → Str → AccountBucketKey
bucket_for_trade trade mode = record {
  trading_mode = mode;
  symbol = upper trade.symbol;
  side = lower trade.side;
}
