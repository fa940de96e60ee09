-- ===== src/Simulator/Same.antt =====
-- Where the simulator agrees with the position manager of live trading.
use triak_trade.Base.{
  ◌≡◌, refl, ap, ◌∙◌, Bool, true, false, not, if◌then◌else◌, Bool-cases, inl, inr, Option, List, [],
  ◌∷◌, arith, ok, ok-injective, Result-cases,
}
use triak_trade.Base.Int.{ℤ, leb_ℤ, ltb_ℤ}
use triak_trade.Base.Text.{str_eq}
use triak_trade.Decimal.{Context, zero_d, quantize_down}
use triak_trade.Domain.{TradeSide, long, short, buy, sell, unknown_side, is_long, is_short}
use triak_trade.StopLoss.{max_quantity_for_stop_risk_budget}
use triak_trade.LiveTrading.Positions.Targets.{
  is_long_text, side_text, max_distance_of, is_valid_target, on_wrong_side, collect, sort_targets,
  sanitize_take_profits,
}
use triak_trade.LiveTrading.Positions.Sizing.{
  Settings, StopStage, checked, clamp_stop_loss, requested_stop_stage,
}
use triak_trade.Simulator.Sizing.{
  is_simulated_target, simulated_take_profits, cap_explicit_stop_quantity,
}

collect_same :
    (f g : ℤ → Bool) (seen xs : List ℤ)
    → ((x : ℤ) → f x ≡ g x)
    → collect f seen xs ≡ collect g seen xs
unfolding collect
collect_same f g seen [] h = refl
collect_same f g seen (x ∷ xs) h =
    rw (h x, collect_same f g (x ∷ seen) xs h, collect_same f g seen xs h) refl

is_long_text-side_text : (side : TradeSide) → is_long_text (side_text side) ≡ is_long side
unfolding is_long_text side_text is_long str_eq
is_long_text-side_text long = refl
is_long_text-side_text short = refl
is_long_text-side_text buy = refl
is_long_text-side_text sell = refl
is_long_text-side_text unknown_side = refl

target_same :
    (c : Context) (side : TradeSide) (entry_price : ℤ) (far : Option ℤ) (tp : ℤ)
    → is_short side ≡ not (is_long side)
    → is_simulated_target c side entry_price far tp
      ≡ is_valid_target c (is_long side) entry_price far tp
unfolding is_simulated_target is_valid_target on_wrong_side
target_same c side e far tp h = elim (Bool-cases (is_long side)) [
  | inl winning ↦ ground (arith, h, winning)
  | inr losing ↦ ground (arith, h, losing)
]

not-not : (b : Bool) → not (not b) ≡ b
not-not true = refl
not-not false = refl

-- For a side that is long or short, the simulator keeps the same targets as live trading, in the same order.
pub simulated_take_profits-sanitize_take_profits :
    (c : Context) (take_profits : List ℤ) (side : TradeSide) (entry_price : ℤ)
    (stop_loss : Option ℤ)
    → is_short side ≡ not (is_long side)
    → simulated_take_profits c take_profits side entry_price stop_loss
      ≡ sanitize_take_profits c take_profits (side_text side) entry_price stop_loss
unfolding simulated_take_profits sanitize_take_profits
simulated_take_profits-sanitize_take_profits c tps side e stop h =
    let far = max_distance_of c e stop in
    let order : not (is_short side) ≡ is_long side = ap not h ∙ not-not (is_long side) in
    rw (is_long_text-side_text side, order)
      (ap (sort_targets (is_long side)) (
        collect_same (is_simulated_target c side e far) (is_valid_target c (is_long side) e far) []
          tps (λ x. target_same c side e far x h)))

smaller_same :
    {A : Type 0} (q m : ℤ) (kept capped : A)
    → (if◌then◌else◌ {A = ℤ × A} (leb_ℤ q m) (q, kept) (m, capped)).0 ≡ (if ltb_ℤ m q then m else q)
smaller_same q m kept capped = elim (Bool-cases (leb_ℤ q m)) [
  | inl below ↦ let other : ltb_ℤ m q ≡ false = ground arith in rw (below, other) refl
  | inr above ↦ let other : ltb_ℤ m q ≡ true = ground arith in rw (above, other) refl
]

-- Where live trading accepts a requested stop, the simulator uses the same quantity.
pub cap_explicit_stop_quantity-requested_stop_stage :
    (c : Context) (settings : Settings) (side : TradeSide) (entry_price balance quantity stop : ℤ)
    {s : StopStage}
    → requested_stop_stage c settings side entry_price balance quantity stop ≡ ok s
    → (cap_explicit_stop_quantity c side entry_price stop quantity balance settings.fee_rate_pct
        settings.max_stop_loss_pct_of_balance).0
      ≡ s.quantity
unfolding cap_explicit_stop_quantity requested_stop_stage checked
cap_explicit_stop_quantity-requested_stop_stage c settings side e b q stop {s} h =
    let safe = quantize_down c (
      max_quantity_for_stop_risk_budget c side e stop b settings.fee_rate_pct
        settings.max_stop_loss_pct_of_balance) in
    let sized : ℤ = if ltb_ℤ safe q then safe else q in
    elim (Bool-cases (leb_ℤ safe zero_d)) [
      | inl none_safe ↦ cc (rw (none_safe, requested_stop_stage) at h)
      | inr positive ↦ elim (Result-cases (clamp_stop_loss c settings side e stop sized b)) [
        | inr (f, failed) ↦ cc (rw (positive, failed, requested_stop_stage) at h)
        | inl (risk, clamped) ↦ elim (Bool-cases risk.was_capped) [
          | inl capped ↦ cc (rw (positive, clamped, capped, requested_stop_stage) at h)
          | inr kept ↦
              let same = rw (positive, clamped, kept, requested_stop_stage) at h in
              rw (positive, cap_explicit_stop_quantity)
                (smaller_same q safe _ _ ∙ ap (λ (x : StopStage). x.quantity) (ok-injective same))
        ]
      ]
    ]
