-- ===== src/StopLoss/Clamp.antt =====
-- What `clamp_stop_loss_to_risk_budget` returns.
use triak_trade.Base.{
  ℕ, zero, suc, ◌≤◌, ◌<◌, ◌≡◌, refl, sym, ◌⊎◌, inl, inr, ◌↔◌, Bool, true, false, subst, arith,
  Bool-cases, ap, Result, ok, Result-cases,
}
use triak_trade.Base.Int.{ℤ, ◌≤ℤ◌, ◌<ℤ◌, leb_ℤ, eq_of_parts}
use triak_trade.Decimal.{Context, div, zero_d, next_plus, next_minus, lt-next_plus, next_minus-lt}
use triak_trade.Domain.{TradeSide, long, short, buy, sell, unknown_side}
use triak_trade.StopLoss.{
  fee_rate_of, StopLossRiskResult, DivisionError, move_stop, move_within, div_checked, clamp_budget,
  unusable, capped_stop, loss_at, moved_result, clamp_stop_loss_to_risk_budget,
}
use triak_trade.StopLoss.Laws.{IsTighter}

-- `n` moves of one representable number.
abbrev pub moves : Context → TradeSide → ℕ → ℤ → ℤ
moves c side zero stop = stop
moves c side (suc n) stop = moves c side n (move_stop c side stop)

-- The loop stops after the least number of moves that brings the loss into the budget.
pub record IsFirst (c : Context) (side : TradeSide) (loss : ℤ → ℤ) (budget : ℤ) (most : ℕ)
    (start stop : ℤ) : Type 0 where
  pub count : ℕ
  pub bounded : count ≤ most
  pub reached : stop ≡ moves c side count start
  pub within : (loss stop ≤ℤ budget) ⊎ (count ≡ most)
  pub needed : (k : ℕ) → k < count → budget <ℤ loss (moves c side k start)

still_needed :
    (c : Context) (side : TradeSide) (loss : ℤ → ℤ) (budget start : ℤ) (n : ℕ)
    → budget <ℤ loss start
    → ((k : ℕ) → k < n → budget <ℤ loss (moves c side k (move_stop c side start)))
    → (k : ℕ) → k < suc n
    → budget <ℤ loss (moves c side k start)
still_needed c side loss budget start n over h zero below = over
still_needed c side loss budget start n over h (suc k) below = h k (omega arith)

move_within-IsFirst :
    (c : Context) (side : TradeSide) (loss : ℤ → ℤ) (budget : ℤ) (n : ℕ) (start : ℤ)
    → IsFirst c side loss budget n start (move_within c side loss budget n start)
unfolding move_within
move_within-IsFirst c side loss budget zero start = record {
  count = 0;
  bounded = omega arith;
  reached = refl;
  within = inr refl;
  needed = λ k h. absurd (omega arith);
}
move_within-IsFirst c side loss budget (suc n) start =
    elim (Bool-cases (leb_ℤ (loss start) budget)) [
      | inl fits ↦
          rw (fits, move_within)
            (record {
              count = 0;
              bounded = omega arith;
              reached = refl;
              within = inl (ground arith);
              needed = λ k h. absurd (omega arith);
            })
      | inr over ↦
          let r = move_within-IsFirst c side loss budget n (move_stop c side start) in
          rw (over, move_within)
            (record {
              count = suc r.count;
              bounded = omega (arith, r.bounded);
              reached = r.reached;
              within = elim r.within [ inl fits ↦ inl fits | inr all ↦ inr (ap suc all) ];
              needed = still_needed c side loss budget start r.count (ground arith) r.needed;
            })
    ]

pub moves-IsTighter :
    (c : Context) (side : TradeSide) (n : ℕ) (stop : ℤ) → IsTighter side stop (moves c side n stop)
unfolding move_stop
moves-IsTighter c long zero stop = omega arith
moves-IsTighter c short zero stop = omega arith
moves-IsTighter c buy zero stop = omega arith
moves-IsTighter c sell zero stop = omega arith
moves-IsTighter c unknown_side zero stop = omega arith
moves-IsTighter c long (suc n) stop =
    omega (arith, moves-IsTighter c long n (next_plus c stop), lt-next_plus c stop)
moves-IsTighter c short (suc n) stop =
    omega (arith, moves-IsTighter c short n (next_minus c stop), next_minus-lt c stop)
moves-IsTighter c buy (suc n) stop =
    omega (arith, moves-IsTighter c buy n (next_minus c stop), next_minus-lt c stop)
moves-IsTighter c sell (suc n) stop =
    omega (arith, moves-IsTighter c sell n (next_minus c stop), next_minus-lt c stop)
moves-IsTighter c unknown_side (suc n) stop =
    omega (arith, moves-IsTighter c unknown_side n (next_minus c stop), next_minus-lt c stop)

first-IsTighter :
    (c : Context) (side : TradeSide) (loss : ℤ → ℤ) (budget : ℤ) (n : ℕ) (start stop : ℤ)
    → IsFirst c side loss budget n start stop
    → IsTighter side start stop
first-IsTighter c side loss budget n start stop r =
    subst (IsTighter side start) (sym r.reached) (moves-IsTighter c side r.count start)

IsTighter-refl : (side : TradeSide) (a : ℤ) → IsTighter side a a
IsTighter-refl long a = omega arith
IsTighter-refl short a = omega arith
IsTighter-refl buy a = omega arith
IsTighter-refl sell a = omega arith
IsTighter-refl unknown_side a = omega arith

IsTighter-trans :
    (side : TradeSide) (x y z : ℤ) → IsTighter side x y → IsTighter side y z → IsTighter side x z
IsTighter-trans long x y z h k = omega arith
IsTighter-trans short x y z h k = omega arith
IsTighter-trans buy x y z h k = omega arith
IsTighter-trans sell x y z h k = omega arith
IsTighter-trans unknown_side x y z h k = omega arith

pub capped_stop-IsTighter :
    (c : Context) (side : TradeSide) (entry_price stop_loss fee_rate unit_budget : ℤ) {capped : ℤ}
    → capped_stop c side entry_price stop_loss fee_rate unit_budget ≡ ok capped
    → IsTighter side stop_loss capped
unfolding capped_stop div_checked
capped_stop-IsTighter c long entry stop fee room e = ground arith
capped_stop-IsTighter c short entry stop fee room e = ground arith
capped_stop-IsTighter c buy entry stop fee room e = ground arith
capped_stop-IsTighter c sell entry stop fee room e = ground arith
capped_stop-IsTighter c unknown_side entry stop fee room e = ground arith

module _ (c : Context) (side : TradeSide) (entry_price stop_loss quantity balance : ℤ)
    (fee_rate_pct max_loss_pct : ℤ) where
  abbrev losses : ℤ → ℤ
  losses = loss_at c side entry_price stop_loss quantity balance fee_rate_pct max_loss_pct

  abbrev budget_of : ℤ
  budget_of = clamp_budget c side entry_price stop_loss quantity balance fee_rate_pct max_loss_pct

  abbrev start_of : Result DivisionError ℤ
  start_of =
      capped_stop c side entry_price stop_loss (fee_rate_of c fee_rate_pct)
        (div c budget_of quantity)

  abbrev is_unusable : Bool
  is_unusable = unusable c side entry_price stop_loss quantity balance fee_rate_pct max_loss_pct

  -- What a result says: the budget, whether the stop was changed, that it was never loosened, and
  -- the loss at it.
  pub record IsClamped (r : StopLossRiskResult) : Type 0 where
    pub budget : r.risk_budget ≡ budget_of
    pub capped : (r.was_capped ≡ false) ↔ (r.stop_loss ≡ stop_loss)
    pub tighter : IsTighter side stop_loss r.stop_loss
    pub outcome :
        ((is_unusable ≡ true) × (r.risk_amount ≡ zero_d) × (r.stop_loss ≡ stop_loss))
        ⊎ ((is_unusable ≡ false)
            × (r.risk_amount ≡ losses r.stop_loss)
            × (start : ℤ) × (start_of ≡ ok start)
            × IsFirst c side losses budget_of 4 start r.stop_loss)

  abbrev kept_result : StopLossRiskResult
  kept_result = record {
    stop_loss = stop_loss;
    risk_amount = zero_d;
    risk_budget = budget_of;
    was_capped = false;
  }

  kept-IsClamped : is_unusable ≡ true → IsClamped kept_result
  kept-IsClamped unusable_inputs = record {
    budget = refl;
    capped = (λ h. refl, λ h. refl);
    tighter = IsTighter-refl side stop_loss;
    outcome = inl (unusable_inputs, refl, refl);
  }

  moved-IsClamped :
      (start : ℤ)
      → is_unusable ≡ false
      → start_of ≡ ok start
      → IsClamped (
          moved_result c side entry_price stop_loss quantity balance fee_rate_pct max_loss_pct
            start)
  unfolding moved_result
  moved-IsClamped start usable e =
      let stop = move_within c side losses budget_of 4 start in
      let first = move_within-IsFirst c side losses budget_of 4 start in
      record {
        budget = refl;
        capped = (λ h. ground (arith, eq_of_parts stop stop_loss), λ h. ground arith);
        tighter =
            IsTighter-trans side stop_loss start stop
              (capped_stop-IsTighter c side entry_price stop_loss (fee_rate_of c fee_rate_pct)
                (div c budget_of quantity) e)
              (first-IsTighter c side losses budget_of 4 start stop first);
        outcome = inr (usable, refl, start, e, first);
      }

  -- A returned stop is never looser than the requested one. For unusable inputs it is the requested
  -- one; otherwise it is reached from the computed stop by the least number of moves of one
  -- representable number that brings the loss into the budget,
  -- or by four moves where fewer do not, and the risk amount is the loss at it.
  pub clamp-IsClamped :
      {r : StopLossRiskResult}
      → clamp_stop_loss_to_risk_budget c side entry_price stop_loss quantity balance fee_rate_pct
          max_loss_pct
        ≡ ok r
      → IsClamped r
  unfolding clamp_stop_loss_to_risk_budget
  clamp-IsClamped e = elim (Bool-cases is_unusable) [
    | inl kept ↦
        let same = rw (kept, clamp_stop_loss_to_risk_budget) at e in
        subst IsClamped (cc same) (kept-IsClamped kept)
    | inr usable ↦ elim (Result-cases start_of) [
      | inl (start, found) ↦
          let same = rw (usable, found, clamp_stop_loss_to_risk_budget) at e in
          subst IsClamped (cc same) (moved-IsClamped start usable found)
      | inr (f, failed) ↦ cc (rw (usable, failed, clamp_stop_loss_to_risk_budget) at e)
    ]
  ]
