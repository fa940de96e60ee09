-- ===== src/Parsing/Gate.antt =====
-- What the two gates for a parsed signal let through.
use triak_trade.Base.{
  ℕ, ◌≡◌, refl, sym, ◌∙◌, ◌≤◌, Bool, true, false, ◌&&◌, not, any, Option, some, arith, List, [],
  ◌∷◌, ◌++◌, All, All-map, ◌≢◌,
}
use triak_trade.Base.Int.{ℤ, ◌<ℤ◌, ◌≤ℤ◌, ltb_ℤ}
use triak_trade.Domain.{
  TradeSide, long, short, buy, sell, unknown_side, SignalAction, open_signal, ParsedSignal,
}
use triak_trade.Parsing.Validator.{
  SignalError, leverage_exceeds_limit, missing_symbol, missing_side, confidence_too_low,
  missing_stop_loss, missing_take_profits, is_empty_text, is_unknown_side, report, error_if,
  no_errors, base_open_checks, backtest_checks, bad_range, stop_checks, target_checks,
  proposal_errors, is_open_action, or_price, is_given, is_empty, leverage_exceeds,
  validate_for_backtest_open, validate_for_proposal,
}

no_errors-nil : (es : List SignalError) → (no_errors es).0 ≡ true → es ≡ []
unfolding no_errors
no_errors-nil [] e = refl
no_errors-nil (x ∷ xs) e = cc

append-nil : (xs ys : List SignalError) → xs ++ ys ≡ [] → (xs ≡ []) × (ys ≡ [])
append-nil [] ys e = (refl, e)
append-nil (x ∷ xs) ys e = cc

error_if-nil : (b : Bool) (e : SignalError) → error_if b e ≡ [] → b ≡ false
unfolding error_if
error_if-nil true e h = cc
error_if-nil false e h = refl

report-nil :
    (a : SignalAction) (opening other : List SignalError)
    → is_open_action a ≡ true
    → (report a opening other).0 ≡ true
    → opening ≡ []
unfolding report is_open_action
report-nil open_signal opening other h e = no_errors-nil opening e
report-nil SignalAction.close opening other h e = cc
report-nil SignalAction.cancel opening other h e = cc
report-nil SignalAction.ignore_signal opening other h e = cc
report-nil SignalAction.unknown_action opening other h e = cc
report-nil SignalAction.update_sl opening other h e = cc
report-nil SignalAction.update_tp opening other h e = cc
report-nil SignalAction.update_entry opening other h e = cc
report-nil SignalAction.update_leverage opening other h e = cc

accepted-nil :
    (half : ℤ) (most : ℕ) (needs_stop : Bool) (s : ParsedSignal)
    → is_open_action s.action ≡ true
    → (validate_for_proposal half most needs_stop s).0 ≡ true
    → proposal_errors half most needs_stop s ≡ []
unfolding validate_for_proposal
accepted-nil half most needs_stop s opens e =
    report-nil s.action (proposal_errors half most needs_stop s)
      (error_if (leverage_exceeds most s.leverage) leverage_exceeds_limit) opens e

-- The two copies of the checks agree on an OPEN signal.
base_open_checks-backtest_checks :
    (half : ℤ) (s : ParsedSignal)
    → is_open_action s.action ≡ true
    → base_open_checks half s ≡ backtest_checks half s
unfolding base_open_checks backtest_checks
base_open_checks-backtest_checks half s opens = rw opens refl

-- An OPEN signal that may be proposed may also be opened in a backtest, with no error reported and whatever its
-- entry, also without any bound.
pub proposal-backtest :
    (half : ℤ) (most : ℕ) (needs_stop : Bool) (s : ParsedSignal)
    → is_open_action s.action ≡ true
    → (validate_for_proposal half most needs_stop s).0 ≡ true
    → validate_for_backtest_open half s ≡ (true, [])
unfolding validate_for_backtest_open proposal_errors no_errors
proposal-backtest half most needs_stop s opens e =
    let clean =
      append-nil (base_open_checks half s) _ (accepted-nil half most needs_stop s opens e) in
    let checked = sym (base_open_checks-backtest_checks half s opens) ∙ clean.0 in
    rw (opens, checked) refl

stop_checks-nil :
    (side : TradeSide) (entry stop : ℤ)
    → stop_checks side (some entry) (some stop) ≡ []
    → (side ≡ long → stop <ℤ entry) × (side ≡ short → entry <ℤ stop)
unfolding stop_checks error_if
stop_checks-nil long entry stop e = (λ _. ground arith, λ h. cc h)
stop_checks-nil short entry stop e = (λ h. cc h, λ _. ground arith)
stop_checks-nil buy entry stop e = (λ h. cc h, λ h. cc h)
stop_checks-nil sell entry stop e = (λ h. cc h, λ h. cc h)
stop_checks-nil unknown_side entry stop e = (λ h. cc h, λ h. cc h)

any-All : (p : ℤ → Bool) (xs : List ℤ) → any p xs ≡ false → All (λ x. p x ≡ false) xs
any-All p [] e = tt
any-All p (x ∷ xs) e = ground (arith, any-All p xs)

target_checks-nil :
    (side : TradeSide) (entry : ℤ) (targets : List ℤ)
    → target_checks side (some entry) targets ≡ []
    → (side ≡ long → All (λ tp. entry <ℤ tp) targets)
      × (side ≡ short → All (λ tp. tp <ℤ entry) targets)
unfolding target_checks
target_checks-nil long entry targets e =
    (λ _. All-map (λ x h. ground arith) targets (any-All _ targets (error_if-nil _ _ e)), λ h. cc h)
target_checks-nil short entry targets e =
    (λ h. cc h, λ _. All-map (λ x h. ground arith) targets (any-All _ targets (error_if-nil _ _ e)))
target_checks-nil buy entry targets e = (λ h. cc h, λ h. cc h)
target_checks-nil sell entry targets e = (λ h. cc h, λ h. cc h)
target_checks-nil unknown_side entry targets e = (λ h. cc h, λ h. cc h)

-- What every proposed signal satisfies, for its entry price `low or high` and its stop.
pub record IsProposable (half : ℤ) (most : ℕ) (s : ParsedSignal) (entry stop : ℤ) : Type 0 where
  pub has_symbol : is_empty_text s.symbol ≡ false
  pub has_side : is_unknown_side s.side ≡ false
  pub range : bad_range s.entry_low s.entry_high ≡ false
  pub long_stop : s.side ≡ long → stop <ℤ entry
  pub short_stop : s.side ≡ short → entry <ℤ stop
  pub long_targets : s.side ≡ long → All (λ tp. entry <ℤ tp) s.take_profits
  pub short_targets : s.side ≡ short → All (λ tp. tp <ℤ entry) s.take_profits
  pub confident : half ≤ℤ s.confidence
  pub has_targets : s.take_profits ≢ []
  pub leverage_in_limit : (n : ℕ) → s.leverage ≡ some n → n ≤ most

is_empty-false : (xs : List ℤ) → is_empty xs ≡ false → xs ≢ []
unfolding is_empty
is_empty-false [] e h = cc e
is_empty-false (x ∷ xs) e h = cc h

leverage_exceeds-false :
    (most : ℕ) (leverage : Option ℕ) (n : ℕ)
    → leverage_exceeds most leverage ≡ false
    → leverage ≡ some n
    → n ≤ most
unfolding leverage_exceeds
leverage_exceeds-false most leverage n e h = let tested = rw h at e in ground arith

base_open_checks-nil :
    (half : ℤ) (s : ParsedSignal)
    → backtest_checks half s ≡ []
    → (is_empty_text s.symbol ≡ false)
      × (is_unknown_side s.side ≡ false)
      × (half ≤ℤ s.confidence)
      × (bad_range s.entry_low s.entry_high ≡ false)
unfolding backtest_checks
base_open_checks-nil half s e =
    let symbols = append-nil (error_if (is_empty_text s.symbol) missing_symbol) _ e in
    let sides = append-nil (error_if (is_unknown_side s.side) missing_side) _ symbols.1 in
    let sure = append-nil (error_if (ltb_ℤ s.confidence half) confidence_too_low) _ sides.1 in
    let tested = error_if-nil _ _ sure.0 in
    (error_if-nil _ _ symbols.0, error_if-nil _ _ sides.0, ground arith, error_if-nil _ _ sure.1)

-- An OPEN signal with an entry price and a stop that may be proposed has a symbol, a side, a valid entry range,
-- enough confidence, a target, and no more than the allowed leverage. When its side is LONG or SHORT, its stop
-- is on the losing side of its entry and every target on the winning side; of the prices of a BUY or
-- SELL signal nothing is said.
pub validate_for_proposal-IsProposable :
    (half : ℤ) (most : ℕ) (needs_stop : Bool) (s : ParsedSignal) (entry stop : ℤ)
    → is_open_action s.action ≡ true
    → or_price s.entry_low s.entry_high ≡ some entry
    → s.stop_loss ≡ some stop
    → (validate_for_proposal half most needs_stop s).0 ≡ true
    → IsProposable half most s entry stop
unfolding proposal_errors
validate_for_proposal-IsProposable half most needs_stop s entry stop opens at_entry at_stop e =
    let reference = or_price s.entry_low s.entry_high in
    let opening =
      append-nil (base_open_checks half s) _ (accepted-nil half most needs_stop s opens e) in
    let stops =
      append-nil (error_if (needs_stop && not (is_given s.stop_loss)) missing_stop_loss) _
        opening.1 in
    let targets = append-nil (error_if (is_empty s.take_profits) missing_take_profits) _ stops.1 in
    let stop_side = append-nil (stop_checks s.side reference s.stop_loss) _ targets.1 in
    let target_side = append-nil (target_checks s.side reference s.take_profits) _ stop_side.1 in
    let stop_ok = stop_checks-nil s.side entry stop (rw (at_entry, at_stop) at stop_side.0) in
    let targets_ok = target_checks-nil s.side entry s.take_profits (rw at_entry at target_side.0) in
    let checked = sym (base_open_checks-backtest_checks half s opens) ∙ opening.0 in
    let (symbol, sided, sure, range) = base_open_checks-nil half s checked in
    record {
      has_symbol = symbol;
      has_side = sided;
      range = range;
      long_stop = stop_ok.0;
      short_stop = stop_ok.1;
      long_targets = targets_ok.0;
      short_targets = targets_ok.1;
      confident = sure;
      has_targets = is_empty-false s.take_profits (error_if-nil _ _ targets.0);
      leverage_in_limit =
          λ n. leverage_exceeds-false most s.leverage n (error_if-nil _ _ target_side.1);
    }
