-- ===== src/Parsing/Validator.antt =====
-- `ParsedSignalValidator` (parsing/validator.py). The texts of the errors are constructors.
use triak_trade.Base.{
  ℕ, Bool, true, false, if◌then◌else◌, ltb, ◌&&◌, not, Option, none, some, List, [], ◌∷◌, ◌++◌, any,
}
use triak_trade.Base.Int.{ℤ, ltb_ℤ, leb_ℤ, eqb_ℤ}
use triak_trade.Decimal.{Context, of_ℕ, add, div, zero_d}
use triak_trade.Domain.{
  TradeSide, long, short, unknown_side, is_long, is_short, SignalAction, ignore_signal,
  unknown_action, open_signal, EntryType, ParsedSignal,
}
use triak_trade.Parsing.Sides.{infer_trade_side_from_price_geometry}

pub data SignalError : Type 0 where
  action_is : SignalAction → SignalError
  missing_symbol missing_side confidence_too_low invalid_entry_range : SignalError
  missing_stop_loss missing_take_profits leverage_exceeds_limit : SignalError
  long_stop_not_below short_stop_not_above long_targets_not_above short_targets_not_below :
      SignalError

pub data GeometryError : Type 0 where
  inconsistent_long inconsistent_short : GeometryError

-- `a or b` of two optional numbers: zero is false.
unfoldable pub or_price : Option ℤ → Option ℤ → Option ℤ
or_price none b = b
or_price (some a) b = if eqb_ℤ a zero_d then b else some a

-- `_entry_reference`
unfoldable pub entry_reference : Context → Option ℤ → Option ℤ → Option ℤ
entry_reference c (some low) (some high) = some (div c (add c low high) (of_ℕ c 2))
entry_reference c none high = or_price none high
entry_reference c (some low) none = or_price (some low) none

-- `side in {TradeSide.UNKNOWN, TradeSide.BUY, TradeSide.SELL}`
unfoldable pub is_open_side : TradeSide → Bool
is_open_side long = false
is_open_side short = false
is_open_side _ = true

unfoldable pub normal_entry_type : EntryType → Option ℤ → Option ℤ → EntryType
normal_entry_type EntryType.unknown_entry none none = EntryType.market
normal_entry_type entry_type _ _ = entry_type

-- The inferred side, where it is known.
unfoldable pub replace_side : TradeSide → TradeSide → TradeSide
replace_side side unknown_side = side
replace_side _ inferred = inferred

unfoldable pub is_positive : Option ℤ → Bool
is_positive none = false
is_positive (some x) = ltb_ℤ zero_d x

unfoldable pub normal_side : Context → ParsedSignal → TradeSide
normal_side c s =
    let inferred =
      (infer_trade_side_from_price_geometry s.entry_low s.entry_high s.stop_loss
        s.take_profits).side in
    if is_positive (entry_reference c s.entry_low s.entry_high) && is_open_side s.side
    then replace_side s.side inferred
    else s.side

-- The check of the stop against the reference price.
unfoldable pub geometry_error : TradeSide → Option ℤ → Option ℤ → Option GeometryError
geometry_error side (some reference) (some stop) =
    if leb_ℤ reference zero_d
    then none
    else if is_long side && leb_ℤ reference stop
    then some inconsistent_long
    else if is_short side && leb_ℤ stop reference
    then some inconsistent_short
    else none
geometry_error side _ _ = none

unfoldable pub is_open_action : SignalAction → Bool
is_open_action SignalAction.open_signal = true
is_open_action _ = false

unfoldable pub normalize_for_execution :
    Context → ParsedSignal → ParsedSignal × Option GeometryError
normalize_for_execution c s =
    let normalized = record s {
      side = normal_side c s;
      entry_type = normal_entry_type s.entry_type s.entry_low s.entry_high;
    } in
    if is_open_action s.action
    then (
      normalized,
      geometry_error normalized.side (entry_reference c s.entry_low s.entry_high) s.stop_loss,
    )
    else (s, none)

unfoldable pub error_if : Bool → SignalError → List SignalError
error_if true e = e ∷ []
error_if false e = []

unfoldable pub is_empty_text : Option (List ℕ) → Bool
is_empty_text none = true
is_empty_text (some []) = true
is_empty_text (some (_ ∷ _)) = false

unfoldable pub is_unknown_side : TradeSide → Bool
is_unknown_side unknown_side = true
is_unknown_side _ = false

-- `low and high and low > high`
unfoldable pub bad_range : Option ℤ → Option ℤ → Bool
bad_range (some low) (some high) =
    not (eqb_ℤ low zero_d) && (not (eqb_ℤ high zero_d) && ltb_ℤ high low)
bad_range _ _ = false

-- `_base_open_checks`. The branch of an entry that is not a market entry and has no bound does nothing.
unfoldable pub base_open_checks : ℤ → ParsedSignal → List SignalError
base_open_checks min_confidence s =
    if is_open_action s.action
    then error_if (is_empty_text s.symbol) missing_symbol
      ++ (error_if (is_unknown_side s.side) missing_side
          ++ (error_if (ltb_ℤ s.confidence min_confidence) confidence_too_low
              ++ error_if (bad_range s.entry_low s.entry_high) invalid_entry_range))
    else []

-- The checks of `validate_for_backtest_open`, with the same branch.
unfoldable pub backtest_checks : ℤ → ParsedSignal → List SignalError
backtest_checks min_confidence s =
    error_if (is_empty_text s.symbol) missing_symbol
    ++ (error_if (is_unknown_side s.side) missing_side
        ++ (error_if (ltb_ℤ s.confidence min_confidence) confidence_too_low
            ++ error_if (bad_range s.entry_low s.entry_high) invalid_entry_range))

unfoldable pub no_errors : List SignalError → Bool × List SignalError
no_errors [] = (true, [])
no_errors (e ∷ errors) = (false, e ∷ errors)

unfoldable pub validate_for_backtest_open : ℤ → ParsedSignal → Bool × List SignalError
validate_for_backtest_open min_confidence s =
    if is_open_action s.action
    then no_errors (backtest_checks min_confidence s)
    else (false, action_is s.action ∷ [])

unfoldable pub is_given : Option ℤ → Bool
is_given none = false
is_given (some _) = true

-- `_append_directional_checks`, for the reference `entry_low or entry_high`.
unfoldable pub stop_checks : TradeSide → Option ℤ → Option ℤ → List SignalError
stop_checks long (some entry) (some stop) = error_if (leb_ℤ entry stop) long_stop_not_below
stop_checks short (some entry) (some stop) = error_if (leb_ℤ stop entry) short_stop_not_above
stop_checks _ _ _ = []

unfoldable pub target_checks : TradeSide → Option ℤ → List ℤ → List SignalError
target_checks long (some entry) targets =
    error_if (any (λ tp. leb_ℤ tp entry) targets) long_targets_not_above
target_checks short (some entry) targets =
    error_if (any (λ tp. leb_ℤ entry tp) targets) short_targets_not_below
target_checks _ _ _ = []

unfoldable pub is_empty : List ℤ → Bool
is_empty [] = true
is_empty (_ ∷ _) = false

unfoldable pub leverage_exceeds : ℕ → Option ℕ → Bool
leverage_exceeds max_leverage none = false
leverage_exceeds max_leverage (some leverage) = ltb max_leverage leverage

-- The errors of an OPEN signal; `half` is `Decimal("0.50")`.
unfoldable pub proposal_errors : ℤ → ℕ → Bool → ParsedSignal → List SignalError
proposal_errors half max_leverage require_stop_loss s =
    let entry = or_price s.entry_low s.entry_high in
    base_open_checks half s
    ++ (error_if (require_stop_loss && not (is_given s.stop_loss)) missing_stop_loss
        ++ (error_if (is_empty s.take_profits) missing_take_profits
            ++ (stop_checks s.side entry s.stop_loss
                ++ (target_checks s.side entry s.take_profits
                    ++ error_if (leverage_exceeds max_leverage s.leverage)
                        leverage_exceeds_limit))))

-- What is reported for an action, with the errors of an OPEN signal and of another one.
unfoldable pub report : SignalAction → List SignalError → List SignalError → Bool × List SignalError
report ignore_signal opening other = (false, action_is ignore_signal ∷ [])
report unknown_action opening other = (false, action_is unknown_action ∷ [])
report open_signal opening other = no_errors opening
report _ opening other = no_errors other

unfoldable pub validate_for_proposal : ℤ → ℕ → Bool → ParsedSignal → Bool × List SignalError
validate_for_proposal half max_leverage require_stop_loss s =
    report s.action (proposal_errors half max_leverage require_stop_loss s)
      (error_if (leverage_exceeds max_leverage s.leverage) leverage_exceeds_limit)
