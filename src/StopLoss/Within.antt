-- ===== src/StopLoss/Within.antt =====
-- A stop that the clamp leaves alone loses no more than the budget.
use triak_trade.Base.{ℕ, suc, ◌≡◌, ◌≢◌, sym, subst, inl, inr, false, arith, ok}
use triak_trade.Base.Int.{ℤ, ◌≤ℤ◌}
use triak_trade.Decimal.{Context, next_plus, next_minus, lt-next_plus, next_minus-lt}
use triak_trade.Domain.{TradeSide, long, short, buy, sell, unknown_side}
use triak_trade.StopLoss.{
  StopLossRiskResult, move_stop, loss_at, clamp_budget, unusable, fee_rate_of,
  clamp_stop_loss_to_risk_budget,
}
use triak_trade.StopLoss.Laws.{IsTighter}
use triak_trade.StopLoss.Clamp.{
  moves, IsFirst, moves-IsTighter, capped_stop-IsTighter, clamp-IsClamped,
}

-- A move changes the stop for good.
moved-differs :
    (c : Context) (side : TradeSide) (n : ℕ) (stop start : ℤ)
    → IsTighter side stop start
    → moves c side (suc n) start ≢ stop
unfolding move_stop
moved-differs c long n stop start h e =
    let t =
      subst (IsTighter long (next_plus c start)) e (moves-IsTighter c long n (next_plus c start)) in
    omega (arith, lt-next_plus c start)
moved-differs c short n stop start h e =
    let t =
      subst (IsTighter short (next_minus c start)) e
        (moves-IsTighter c short n (next_minus c start)) in
    omega (arith, next_minus-lt c start)
moved-differs c buy n stop start h e =
    let t =
      subst (IsTighter buy (next_minus c start)) e (moves-IsTighter c buy n (next_minus c start)) in
    omega (arith, next_minus-lt c start)
moved-differs c sell n stop start h e =
    let t =
      subst (IsTighter sell (next_minus c start)) e
        (moves-IsTighter c sell n (next_minus c start)) in
    omega (arith, next_minus-lt c start)
moved-differs c unknown_side n stop start h e =
    let t =
      subst (IsTighter unknown_side (next_minus c start)) e
        (moves-IsTighter c unknown_side n (next_minus c start)) in
    omega (arith, next_minus-lt c start)

first-within :
    (c : Context) (side : TradeSide) (loss : ℤ → ℤ) (budget start stop : ℤ)
    → IsTighter side stop start
    → IsFirst c side loss budget 4 start stop
    → loss stop ≤ℤ budget
first-within c side loss budget start stop h f = elim f.within [
  | inl fits ↦ fits
  | inr all ↦ absurd (
      moved-differs c side 3 stop start h
        (sym (subst (λ (n : ℕ). stop ≡ moves c side n start) all f.reached)))
]

-- For usable inputs, a stop that was not changed loses no more than the budget.
pub not_capped-le :
    (c : Context) (side : TradeSide)
    (entry_price stop_loss quantity balance fee_rate_pct max_loss_pct : ℤ) {r : StopLossRiskResult}
    → clamp_stop_loss_to_risk_budget c side entry_price stop_loss quantity balance fee_rate_pct
        max_loss_pct
      ≡ ok r
    → unusable c side entry_price stop_loss quantity balance fee_rate_pct max_loss_pct ≡ false
    → r.was_capped ≡ false
    → loss_at c side entry_price stop_loss quantity balance fee_rate_pct max_loss_pct stop_loss
      ≤ℤ clamp_budget c side entry_price stop_loss quantity balance fee_rate_pct max_loss_pct
not_capped-le c side e s q b f m {r} run usable kept =
    let k = clamp-IsClamped c side e s q b f m run in
    let same = k.capped.0 kept in
    elim k.outcome [
      | inl (bad, _, _) ↦ cc
      | inr (_, _, start, found, first) ↦
          first-within c side (loss_at c side e s q b f m) (clamp_budget c side e s q b f m) start s
            (capped_stop-IsTighter c side e s (fee_rate_of c f) _ found) (rw same at first)
    ]
