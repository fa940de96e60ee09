-- ===== src/Domain/Records.antt =====
-- The validators of the domain records (src/triak_trade/domain/models.py): what each constructor
-- accepts. Of the parsed signal the normalization of its symbol is left out, and its leverage, an integer
-- that is checked to be positive, is a natural number once it is accepted. Of the signal state the version is a
-- natural number, so that only zero is left to refuse.
use triak_trade.Base.{
  ℕ, zero, suc, ◌==◌, leb, ltb, Bool, not, ◌||◌, if◌then◌else◌, Option, none, some, List, [], ◌∷◌,
  length, any, Result, ok, err, ◌>>=◌, ◌>>◌, raise_if,
}
use triak_trade.Base.Int.{ℤ, pos, negsuc, ltb_ℤ, min_ℤ, max_ℤ}
use triak_trade.Decimal.{Context, of_ℕ, zero_d}
use triak_trade.Domain.{ParsedSignal}

pub data FieldError : Type 0 where
  confidence_range leverage_not_positive : FieldError
  close_time_order high_too_low low_too_high negative_volume : FieldError
  balance_not_positive negative_balance date_order : FieldError
  version_not_positive repeated_messages update_before_creation origin_not_related : FieldError

-- `value < 0 or value > 1`
unfoldable pub out_of_range : Context → ℤ → Bool
out_of_range c value = ltb_ℤ value zero_d || ltb_ℤ (of_ℕ c 1) value

-- `validate_leverage`
unfoldable pub validate_leverage : Option ℤ → Result FieldError (Option ℕ)
validate_leverage none = ok none
validate_leverage (some (pos zero)) = err leverage_not_positive
validate_leverage (some (pos (suc n))) = ok (some (suc n))
validate_leverage (some (negsuc _)) = err leverage_not_positive

-- `validate_entry_range`: the bounds are sorted where both are given.
unfoldable pub sorted_range : Option ℤ → Option ℤ → Option ℤ × Option ℤ
sorted_range (some low) (some high) =
    if ltb_ℤ high low then (some high, some low) else (some low, some high)
sorted_range low high = (low, high)

-- The signal of the given fields, with the leverage as it was given.
unfoldable pub validate_signal : Context → Option ℤ → ParsedSignal → Result FieldError ParsedSignal
validate_signal c leverage s =
    let range = sorted_range s.entry_low s.entry_high in
    raise_if (out_of_range c s.confidence) confidence_range
    >> (validate_leverage leverage >>= λ accepted.
        ok (record s { leverage = accepted; entry_low = range.0; entry_high = range.1 }))

pub record Candle : Type 0 where
  pub open_time : ℕ
  pub close_time : ℕ
  pub open_price : ℤ
  pub high : ℤ
  pub low : ℤ
  pub close_price : ℤ
  pub volume : ℤ

-- `validate_price_geometry`
unfoldable pub validate_candle : Candle → Result FieldError Candle
validate_candle k =
    raise_if (leb k.close_time k.open_time) close_time_order
    >> raise_if (ltb_ℤ k.high (max_ℤ (max_ℤ k.open_price k.close_price) k.low)) high_too_low
    >> raise_if (ltb_ℤ (min_ℤ (min_ℤ k.open_price k.close_price) k.high) k.low) low_too_high
    >> raise_if (ltb_ℤ k.volume zero_d) negative_volume
    >> ok k

pub record SignalState : Type 0 where
  pub created_from_message_id : ℕ
  pub related_message_ids : List ℕ
  pub version : ℕ
  pub created_at : ℕ
  pub updated_at : ℕ

unfoldable pub contains : ℕ → List ℕ → Bool
contains x xs = any (λ y. y == x) xs

-- `list(dict.fromkeys(values))`, with the keys that were seen.
unfoldable pub distinct_values : List ℕ → List ℕ → List ℕ
distinct_values seen [] = []
distinct_values seen (x ∷ xs) =
    let rest = distinct_values (x ∷ seen) xs in
    let skipped = distinct_values seen xs in if contains x seen then skipped else x ∷ rest

-- The validators of `SignalState`.
unfoldable pub validate_state : SignalState → Result FieldError SignalState
validate_state s =
    let ids = s.related_message_ids in
    raise_if (s.version == 0) version_not_positive
    >> raise_if (not (length (distinct_values [] ids) == length ids)) repeated_messages
    >> raise_if (ltb s.updated_at s.created_at) update_before_creation
    >> raise_if (not (contains s.created_from_message_id ids)) origin_not_related
    >> ok s
