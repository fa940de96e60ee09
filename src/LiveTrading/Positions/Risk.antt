-- ===== src/LiveTrading/Positions/Risk.antt =====
-- What a sized position risks at its stop.
use triak_trade.Base.{
  ◌≡◌, sym, subst, true, false, if◌then◌else◌, Bool-cases, inl, inr, List, arith, ok, ap,
  Result-cases,
}
use triak_trade.Base.Int.{ℤ, pos, ◌≤ℤ◌, leb_ℤ, ltb_ℤ}
use triak_trade.Decimal.{Context, zero_d, quantize_down, tick}
use native.Mathlib.Nat.{div-mul-le_self}
use triak_trade.Domain.{TradeSide, is_direction}
use triak_trade.StopLoss.{
  StopLossRiskResult, loss_at, clamp_budget, unusable, max_quantity_for_stop_risk_budget,
}
use triak_trade.StopLoss.Laws.{max_quantity_lem}
use triak_trade.StopLoss.Within.{not_capped-le}
use triak_trade.LiveTrading.Positions.Targets.{Note}
use triak_trade.LiveTrading.Positions.Sizing.{
  Settings, StopStage, note_if, checked, clamp_stop_loss, requested_stop_stage,
}

-- At the stop, the quantity loses no more than the share of the balance that the settings allow.
abbrev pub IsWithin : Context → Settings → TradeSide → ℤ → ℤ → ℤ → ℤ → Type 0
IsWithin c settings side entry_price stop_loss quantity balance =
    loss_at c side entry_price stop_loss quantity balance settings.fee_rate_pct
      settings.max_stop_loss_pct_of_balance stop_loss
    ≤ℤ clamp_budget c side entry_price stop_loss quantity balance settings.fee_rate_pct
        settings.max_stop_loss_pct_of_balance

module _ (c : Context) (settings : Settings) (side : TradeSide) (entry_price balance : ℤ) where
  pub clamp-IsWithin :
      (stop quantity : ℤ) {r : StopLossRiskResult}
      → clamp_stop_loss c settings side entry_price stop quantity balance ≡ ok r
      → r.was_capped ≡ false
      → is_direction side ≡ true
      → pos 1 ≤ℤ entry_price
      → pos 1 ≤ℤ stop
      → pos 1 ≤ℤ quantity
      → pos 1 ≤ℤ balance
      → IsWithin c settings side entry_price stop quantity balance
  unfolding clamp_stop_loss unusable
  clamp-IsWithin stop q run kept d he hs hq hb =
      not_capped-le c side entry_price stop q balance settings.fee_rate_pct
        settings.max_stop_loss_pct_of_balance run (ground arith) kept

  -- What the stage of a requested stop leaves.
  pub record IsPreserved (quantity stop : ℤ) (s : StopStage) : Type 0 where
    pub kept : s.stop_loss ≡ stop
    pub requested : s.is_synthetic ≡ false
    pub direction : is_direction side ≡ true
    pub smaller : s.quantity ≤ℤ quantity
    pub within : IsWithin c settings side entry_price stop s.quantity balance

  abbrev safe_quantity : ℤ → ℤ
  safe_quantity stop = quantize_down c (
      max_quantity_for_stop_risk_budget c side entry_price stop balance settings.fee_rate_pct
        settings.max_stop_loss_pct_of_balance)

  quantize_down_zero : quantize_down c zero_d ≡ zero_d
  unfolding quantize_down
  quantize_down_zero = ap pos (omega (arith, div-mul-le_self 0 (tick c)))

  safe-positive :
      (stop : ℤ) → pos 1 ≤ℤ safe_quantity stop → (pos 1 ≤ℤ stop) × (is_direction side ≡ true)
  safe-positive stop h =
      elim (max_quantity_lem c side entry_price stop balance settings.fee_rate_pct
        settings.max_stop_loss_pct_of_balance).1 [
          | inl nothing ↦ absurd (omega (arith, rw (nothing, quantize_down_zero) at h))
          | inr (_, s, _, d, _, _, _) ↦ (s, d)
        ]

  built_stage-IsPreserved :
      (quantity stop sized : ℤ) {risk : StopLossRiskResult} {s : StopStage}
      → sized ≤ℤ quantity
      → (pos 1 ≤ℤ stop) × (is_direction side ≡ true)
      → pos 1 ≤ℤ entry_price
      → pos 1 ≤ℤ balance
      → pos 1 ≤ℤ s.quantity
      → clamp_stop_loss c settings side entry_price stop sized balance ≡ ok risk
      → risk.was_capped ≡ false
      → {notes : List Note}
      → record { stop_loss = stop; quantity = sized; is_synthetic = false; notes = notes } ≡ s
      → IsPreserved quantity stop s
  built_stage-IsPreserved q stop sized {s = s} less (hs, d) he hb hq clamped kept e =
      let size : sized ≡ s.quantity = ap (λ (x : StopStage). x.quantity) e in
      record {
        kept = sym (ap (λ (x : StopStage). x.stop_loss) e);
        requested = sym (ap (λ (x : StopStage). x.is_synthetic) e);
        direction = d;
        smaller = subst (λ n. n ≤ℤ q) size less;
        within =
            subst (λ n. IsWithin c settings side entry_price stop n balance) size
              (clamp-IsWithin stop sized clamped kept d he hs
                (subst (λ n. pos 1 ≤ℤ n) (sym size) hq) hb);
      }

  pub requested_stop_stage-IsPreserved :
      (quantity stop : ℤ) {s : StopStage}
      → requested_stop_stage c settings side entry_price balance quantity stop ≡ ok s
      → pos 1 ≤ℤ entry_price
      → pos 1 ≤ℤ balance
      → pos 1 ≤ℤ s.quantity
      → IsPreserved quantity stop s
  unfolding requested_stop_stage checked
  requested_stop_stage-IsPreserved q stop {s} run he hb hq =
      let safe = safe_quantity stop in
      let sized : ℤ = if ltb_ℤ safe q then safe else q in
      elim (Bool-cases (leb_ℤ safe zero_d)) [
        | inl none_safe ↦ cc (rw (none_safe, requested_stop_stage) at run)
        | inr positive ↦
            elim (Result-cases (clamp_stop_loss c settings side entry_price stop sized balance)) [
              | inr (e, failed) ↦ cc (rw (positive, failed, requested_stop_stage) at run)
              | inl (risk, clamped) ↦ elim (Bool-cases risk.was_capped) [
                | inl capped ↦ cc (rw (positive, clamped, capped, requested_stop_stage) at run)
                | inr kept ↦
                    let same = rw (positive, clamped, kept, requested_stop_stage) at run in
                    built_stage-IsPreserved q stop sized (ground arith)
                      (safe-positive stop (ground arith)) he hb hq clamped kept
                      {notes = note_if (ltb_ℤ safe q) (Note.quantity_risk_capped q sized stop)}
                      (cc same)
              ]
            ]
      ]
