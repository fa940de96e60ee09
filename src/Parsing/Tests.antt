-- ===== src/Parsing/Tests.antt =====
-- Runs of the side inference and the validator.
use triak_trade.Base.{ok, err, ◌⊎◌, ◌≡◌, ◌≢◌, refl, ◌↔◌, true, false, none, some, [], ◌∷◌}
use triak_trade.Base.Int.{ℤ, pos, negsuc}
use triak_trade.Base.Text.{codes}
use triak_trade.Decimal.Ops.{run}
use triak_trade.Decimal.Default.{python}
use triak_trade.Domain.{long, short, unknown_side, open_signal, EntryType, ParsedSignal}
use triak_trade.Parsing.Sides.{
  infer_trade_side_from_price_geometry, entry_bounds, stop_side, count, decide_side,
}
use triak_trade.Parsing.Evidence.{long_evidence, short_evidence, infer-IsEvident}
use triak_trade.Parsing.Validator.{
  normalize_for_execution, entry_reference, or_price, is_open_action, validate_for_proposal,
  validate_for_backtest_open, report, proposal_errors, base_open_checks, error_if, is_empty_text,
  is_unknown_side, bad_range, is_given, is_empty, stop_checks, target_checks, leverage_exceeds,
  no_errors, normal_side, normal_entry_type, is_positive, is_open_side, replace_side,
}
use triak_trade.Parsing.Normal.{
  normalize_for_execution-twice, IsInferred, normalize_for_execution-IsInferred,
}
use triak_trade.Domain.Records.{
  FieldError, leverage_not_positive, validate_signal, validate_leverage, out_of_range,
}
use triak_trade.Parsing.Ranges.{IsAccepted, IsRefused, validate_signal-IsAccepted}
use triak_trade.Parsing.Gate.{IsProposable, proposal-backtest, validate_for_proposal-IsProposable}

abbrev entry : ℤ
entry = pos 1_000_000_000_000

abbrev stop : ℤ
stop = pos 900_000_000_000

abbrev target : ℤ
target = pos 1_200_000_000_000

abbrev half : ℤ
half = pos 5_000_000_000

-- A long signal at 100 with a stop at 90 and a target at 120.
abbrev signal : ParsedSignal
signal = record {
  action = open_signal;
  symbol = some (codes "BTC");
  side = long;
  entry_type = EntryType.limit;
  entry_low = some entry;
  entry_high = none;
  stop_loss = some stop;
  take_profits = target ∷ [];
  leverage = some 5;
  confidence = half;
}

-- The same signal without a side.
abbrev without_side : ParsedSignal
without_side = record signal { side = unknown_side }

infer-IsEvident_example :
    (((infer_trade_side_from_price_geometry (some entry) none (some stop) (target ∷ [])).side
        ≡ long)
      ↔ ((long_evidence (entry, entry) (some stop) (target ∷ []) ≡ true)
          × (short_evidence (entry, entry) (some stop) (target ∷ []) ≡ false)))
    × (((infer_trade_side_from_price_geometry (some entry) none (some stop) (target ∷ [])).side
          ≡ short)
        ↔ ((short_evidence (entry, entry) (some stop) (target ∷ []) ≡ true)
            × (long_evidence (entry, entry) (some stop) (target ∷ []) ≡ false)))
unfolding entry_bounds
infer-IsEvident_example = infer-IsEvident (some entry) none (some stop) (target ∷ []) refl

normalize_for_execution-twice_example :
    normalize_for_execution python (normalize_for_execution python without_side).0
    ≡ normalize_for_execution python without_side
normalize_for_execution-twice_example = normalize_for_execution-twice python without_side

-- The signal without a side is normalized to LONG.
inferred_run : (normalize_for_execution python without_side).0.side ≡ long
unfolding run is_open_action entry_reference or_price normalize_for_execution normal_side
    normal_entry_type is_positive is_open_side replace_side infer_trade_side_from_price_geometry
    entry_bounds stop_side count decide_side
inferred_run = refl

normalize_for_execution-IsInferred_example :
    let side = (normalize_for_execution python without_side).0.side in
    (((unknown_side ≡ long) ⊎ (unknown_side ≡ short)) × (side ≡ unknown_side))
    ⊎ ((unknown_side ≢ long)
        × (unknown_side ≢ short)
        × IsInferred (entry, entry) (some stop) (target ∷ []) unknown_side side)
unfolding run is_open_action is_positive entry_reference or_price entry_bounds
normalize_for_execution-IsInferred_example =
    normalize_for_execution-IsInferred python without_side refl refl refl

proposed : (validate_for_proposal half 10 true signal).0 ≡ true
unfolding run validate_for_proposal report proposal_errors base_open_checks is_open_action error_if
    is_empty_text is_unknown_side bad_range is_given is_empty or_price stop_checks target_checks
    leverage_exceeds no_errors
proposed = refl

proposal-backtest_example : validate_for_backtest_open half signal ≡ (true, [])
unfolding is_open_action
proposal-backtest_example = proposal-backtest half 10 true signal refl proposed

validate_for_proposal-IsProposable_example : IsProposable half 10 signal entry stop
unfolding is_open_action or_price
validate_for_proposal-IsProposable_example =
    validate_for_proposal-IsProposable half 10 true signal entry stop refl refl refl proposed

validate_signal-IsAccepted_example :
    ((s : ParsedSignal) × (validate_signal python (some (negsuc 4)) signal ≡ ok s)
      × IsAccepted python (some (negsuc 4)) signal s)
    ⊎ ((e : FieldError) × (validate_signal python (some (negsuc 4)) signal ≡ err e)
        × IsRefused python (some (negsuc 4)) signal)
validate_signal-IsAccepted_example = validate_signal-IsAccepted python (some (negsuc 4)) signal

-- A leverage of -5 is refused.
refused_run : validate_signal python (some (negsuc 4)) signal ≡ err leverage_not_positive
unfolding run validate_signal out_of_range validate_leverage
refused_run = refl
