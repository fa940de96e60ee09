-- ===== src/Strategies/Trailing.antt =====
-- `TrailingTakeProfitStrategy` (trailing_tp.py), which inherits all but the action on a hit.
use triak_trade.Base.{
  ℕ, ◌-◌, leb, ltb, ◌==◌, false, ◌||◌, if◌then◌else◌, none, some, List, length, get_elem?,
}
use triak_trade.Base.Int.{ℤ}
use triak_trade.Decimal.{Context}
use triak_trade.Strategies.{TargetHitAction, TradeStrategy}
use triak_trade.Strategies.Default.{RiskParameters, target_hit_action_of, default_risk_managed}

-- With five targets or more the stop trails two targets behind, otherwise one.
unfoldable pub trailing_gap : List ℤ → ℕ
trailing_gap targets = if leb 5 (length targets) then 2 else 1

unfoldable pub trailing_action : Context → RiskParameters → ℕ → ℕ → List ℤ → TargetHitAction
unfolding trailing_gap
trailing_action c p hit remaining targets =
    let base = target_hit_action_of c p hit remaining in
    let gap = trailing_gap targets in
    if hit == 0 || ltb hit gap then base else elim (get_elem? targets (hit - gap)) [
      | none ↦ base
      | some stop ↦ record base { move_sl_to_entry = false; new_stop_loss = some stop }
    ]

unfoldable pub trailing_take_profit : Context → RiskParameters → TradeStrategy
trailing_take_profit c p = record (default_risk_managed c p) {
  get_target_hit_action =
      λ hit remaining entry targets. some (trailing_action c p hit remaining targets);
}
