-- ===== src/LiveTrading/Coordinator/Risk.antt =====
-- The risk of a stop, the cap on the risk of one symbol, and the search for a duplicate signal.
use triak_trade.Base.{
  ℕ, ◌+◌, ◌-◌, ◌*◌, Bool, true, false, ◌&&◌, ◌||◌, if◌then◌else◌, leb, ◌==◌, Option, none, some,
  List, [], ◌∷◌, map, Result, ok, err,
}
use triak_trade.Base.Int.{ℤ, leb_ℤ, eqb_ℤ, min_ℤ, max_ℤ, abs_ℤ, neg}
use triak_trade.Base.Text.{Str, codes, str_eq, lower}
use triak_trade.Decimal.{Context, add, sub, mul, div, percent, of_ℕ, sum, zero_d}
use triak_trade.LiveTrading.Models.{LiveTrade}
use triak_trade.LiveTrading.Coordinator.Defs.{AccountTradeLeg, Coordinator, reserved_quantity}

-- The reasons of `AccountExecutionConflictError`. `handler_failed` is an exception of the engine's
-- callback.
pub data ConflictError : Type 0 where
  quantity_not_positive opposite_exposure opposite_pending same_direction no_quantity :
      ConflictError
  balance_unavailable risk_not_measurable handler_failed : ConflictError
  bucket_blocked : Str → ConflictError
  no_owner_engine not_reduced : Str → ConflictError

-- `_stop_risk_per_unit`
unfoldable pub stop_risk_per_unit : Context → Coordinator → Str → ℤ → Option ℤ → ℤ
stop_risk_per_unit c s side entry none = zero_d
stop_risk_per_unit c s side entry (some stop) =
    let gross = if str_eq (lower side) (codes "long") then sub c stop entry else sub c entry stop in
    let fees = mul c (add c entry stop) (percent c s.fee_rate_pct) in
    if leb_ℤ entry zero_d || leb_ℤ stop zero_d
    then zero_d
    else max_ℤ (neg (sub c gross fees)) zero_d

-- `_leg_stop_risk`
unfoldable pub leg_stop_risk : Context → Coordinator → AccountTradeLeg → ℤ
leg_stop_risk c s leg =
    mul c (stop_risk_per_unit c s leg.side leg.entry_price leg.stop_loss) (reserved_quantity c leg)

-- The part of the cap that the other legs leave.
unfoldable pub available_risk : Context → Coordinator → ℤ → List AccountTradeLeg → ℤ
available_risk c s balance legs =
    max_ℤ
      (sub c (percent c (mul c balance s.symbol_risk_cap_pct))
        (sum c (map (leg_stop_risk c s) legs)))
      zero_d

is_empty {ℓ} : {A : Type ℓ} → List A → Bool
is_empty [] = true
is_empty (_ ∷ _) = false

-- `_apply_symbol_risk_cap`
unfoldable pub apply_symbol_risk_cap :
    Context → Coordinator → LiveTrade → List AccountTradeLeg → Result ConflictError ℤ
unfolding is_empty
apply_symbol_risk_cap c s trade legs =
    let balance = max_ℤ trade.balance_at_entry zero_d in
    let per_unit = stop_risk_per_unit c s trade.side trade.entry_price trade.stop_loss in
    if leb_ℤ s.symbol_risk_cap_pct zero_d
    then ok trade.quantity
    else if leb_ℤ balance zero_d
    then (if is_empty legs then ok trade.quantity else err balance_unavailable)
    else if leb_ℤ per_unit zero_d
    then err risk_not_measurable
    else ok (min_ℤ trade.quantity (div c (available_risk c s balance legs) per_unit))

-- `_prices_close`
unfoldable pub prices_close : Context → Coordinator → ℤ → ℤ → Bool
prices_close c s first second =
    let reference = max_ℤ (abs_ℤ first) (abs_ℤ second) in
    let difference_bps = div c (mul c (abs_ℤ (sub c first second)) (of_ℕ c 10_000)) reference in
    if leb_ℤ reference zero_d
    then eqb_ℤ first second
    else leb_ℤ difference_bps s.duplicate_price_tolerance_bps

unfoldable pub stops_close : Context → Coordinator → Option ℤ → Option ℤ → Bool
stops_close c s none none = true
stops_close c s (some a) (some b) = prices_close c s a b
stops_close c s _ _ = false

-- Times are microseconds; the window is in seconds.
unfoldable pub within_window : Coordinator → ℕ → ℕ → Bool
within_window s a b = leb (a - b + (b - a)) (s.duplicate_window_seconds * 1_000_000)

unfoldable pub is_duplicate : Context → Coordinator → LiveTrade → AccountTradeLeg → Bool
is_duplicate c s trade leg =
    within_window s trade.opened_at leg.opened_at
    && (prices_close c s trade.entry_price leg.entry_price
        && stops_close c s trade.stop_loss leg.stop_loss)

unfoldable pub first_duplicate :
    Context → Coordinator → LiveTrade → List AccountTradeLeg → Option AccountTradeLeg
first_duplicate c s trade [] = none
first_duplicate c s trade (leg ∷ legs) =
    if is_duplicate c s trade leg then some leg else first_duplicate c s trade legs

-- `_find_duplicate`
unfoldable pub find_duplicate :
    Context → Coordinator → LiveTrade → List AccountTradeLeg → Option AccountTradeLeg
find_duplicate c s trade legs =
    if s.duplicate_window_seconds == 0 then none else first_duplicate c s trade legs
