-- ===== src/Domain/Tests.antt =====
-- Accepted records.
use triak_trade.Base.{◌≡◌, refl, [], ◌∷◌, ok}
use triak_trade.Base.Int.{pos}
use triak_trade.Domain.Records.{Candle, SignalState, validate_state, contains, distinct_values}

abbrev candle : Candle
candle = record {
  open_time = 1;
  close_time = 2;
  open_price = pos 5;
  high = pos 7;
  low = pos 4;
  close_price = pos 6;
  volume = pos 0;
}

abbrev state : SignalState
state = record {
  created_from_message_id = 3;
  related_message_ids = 3 ∷ 4 ∷ [];
  version = 1;
  created_at = 5;
  updated_at = 6;
}

state_run : validate_state state ≡ ok state
unfolding validate_state contains distinct_values
state_run = refl
