-- ===== src/Parsing/Sides.antt =====
-- The side of a trade from the geometry of its prices (parsing/side_inference.py).
use triak_trade.Base.{
  ℕ, Bool, if◌then◌else◌, ltb, ◌==◌, ◌&&◌, Option, none, some, List, length, keep,
}
use triak_trade.Base.Int.{ℤ, ltb_ℤ, leb_ℤ}
use triak_trade.Domain.{TradeSide, long, short, unknown_side}

pub data Reason : Type 0 where
  missing_entry_reference conflicting_stop_and_targets mixed_targets : Reason
  targets_above_entry targets_above_entry_and_stop_below_entry stop_below_entry : Reason
  targets_below_entry targets_below_entry_and_stop_above_entry stop_above_entry : Reason
  insufficient_directional_evidence : Reason

-- The reasons are the source's texts, where `and` stands for `+`.
pub record SideInferenceResult : Type 0 where
  pub side : TradeSide
  pub reason : Reason

-- `_entry_bounds`
unfoldable pub entry_bounds : Option ℤ → Option ℤ → Option (ℤ × ℤ)
entry_bounds none none = none
entry_bounds none (some high) = some (high, high)
entry_bounds (some low) none = some (low, low)
entry_bounds (some low) (some high) = some (if leb_ℤ low high then (low, high) else (high, low))

-- The side that the stop alone points to.
unfoldable pub stop_side : ℤ → ℤ → Option ℤ → TradeSide
stop_side lower_bound upper_bound none = unknown_side
stop_side lower_bound upper_bound (some stop) =
    if ltb_ℤ stop lower_bound then long else if ltb_ℤ upper_bound stop then short else unknown_side

unfoldable pub count : (ℤ → Bool) → List ℤ → ℕ
count p values = length (keep p values)

-- The decision from the side of the stop and the numbers of targets on either side.
unfoldable pub decide_side : TradeSide → ℕ → ℕ → SideInferenceResult
decide_side long long_targets short_targets =
    if ltb 0 short_targets
    then record { side = unknown_side; reason = conflicting_stop_and_targets }
    else if ltb 0 long_targets
    then record { side = long; reason = targets_above_entry_and_stop_below_entry }
    else record { side = long; reason = stop_below_entry }
decide_side short long_targets short_targets =
    if ltb 0 long_targets
    then record { side = unknown_side; reason = conflicting_stop_and_targets }
    else if ltb 0 short_targets
    then record { side = short; reason = targets_below_entry_and_stop_above_entry }
    else record { side = short; reason = stop_above_entry }
decide_side _ long_targets short_targets =
    if ltb 0 long_targets && short_targets == 0
    then record { side = long; reason = targets_above_entry }
    else if ltb 0 short_targets && long_targets == 0
    then record { side = short; reason = targets_below_entry }
    else if ltb 0 long_targets && ltb 0 short_targets
    then record { side = unknown_side; reason = mixed_targets }
    else record { side = unknown_side; reason = insufficient_directional_evidence }

unfoldable pub infer_trade_side_from_price_geometry :
    Option ℤ → Option ℤ → Option ℤ → List ℤ → SideInferenceResult
infer_trade_side_from_price_geometry entry_low entry_high stop_loss take_profits =
    elim (entry_bounds entry_low entry_high) [
      | none ↦ record { side = unknown_side; reason = missing_entry_reference }
      | some bounds ↦
          decide_side (stop_side bounds.0 bounds.1 stop_loss)
            (count (λ value. ltb_ℤ bounds.1 value) take_profits)
            (count (λ value. ltb_ℤ value bounds.0) take_profits)
    ]
