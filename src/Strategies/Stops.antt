-- ===== src/Strategies/Stops.antt =====
-- On which side of the entry a synthetic stop stands.
use triak_trade.Base.{◌≡◌, true, false, ◌||◌, Bool-cases, inl, inr, arith}
use triak_trade.Base.Int.{ℤ, pos, ◌≤ℤ◌, leb_ℤ, max_ℤ}
use triak_trade.Decimal.{
  Context, sub, mul, div, percent, zero_d, IsRepresented, sub-le, le-add, sub_nonneg, div_nonneg,
}
use triak_trade.Domain.{TradeSide, is_short}
use triak_trade.Strategies.Default.{
  RiskParameters, base_fee_loss, distance_denominator, stop_at, synthetic_stop_of,
}

-- Not beyond the entry on the winning side, and not negative.
pub record IsProtective (side : TradeSide) (entry_price stop : ℤ) : Type 0 where
  pub short_above : is_short side ≡ true → entry_price ≤ℤ stop
  pub long_below : is_short side ≡ false → (pos 0 ≤ℤ stop) × (stop ≤ℤ entry_price)

entry-IsProtective : (side : TradeSide) (e : ℤ) → pos 0 ≤ℤ e → IsProtective side e e
entry-IsProtective side e p = record {
  short_above = λ s. omega arith;
  long_below = λ l. (p, omega arith);
}

stop_at-IsProtective :
    (c : Context) (side : TradeSide) (e distance : ℤ)
    → IsRepresented c e
    → pos 0 ≤ℤ e
    → pos 0 ≤ℤ distance
    → IsProtective side e (stop_at c side e distance)
unfolding stop_at
stop_at-IsProtective c side e distance r p d =
    let above = le-add c e distance r d in
    let below = sub-le c e distance r d in
    record { short_above = λ s. ground arith; long_below = λ l. (ground arith, ground arith) }

-- The synthetic stop for a positive entry price stands on the losing side of the entry or at the entry
-- itself.
pub synthetic_stop_of-IsProtective :
    (c : Context) (p : RiskParameters) (side : TradeSide)
    (entry_price balance quantity fee_rate_pct : ℤ)
    → IsRepresented c entry_price
    → pos 0 ≤ℤ entry_price
    → IsProtective side entry_price
        (synthetic_stop_of c p side entry_price balance quantity fee_rate_pct)
unfolding synthetic_stop_of
synthetic_stop_of-IsProtective c p side e b q f r h =
    let budget = percent c (mul c b (max_ℤ p.synthetic_stop_max_loss_pct_of_balance zero_d)) in
    let fee = percent c (max_ℤ f zero_d) in
    let loss = base_fee_loss c e q fee in
    let denominator = distance_denominator c side q fee in
    let distance = div c (sub c budget loss) denominator in
    elim (Bool-cases (leb_ℤ q zero_d || (leb_ℤ e zero_d || leb_ℤ b zero_d))) [
      | inl bad ↦ rw (bad, synthetic_stop_of) (entry-IsProtective side e h)
      | inr good ↦ elim (Bool-cases (leb_ℤ budget zero_d)) [
        | inl bad ↦ rw (good, bad, synthetic_stop_of) (entry-IsProtective side e h)
        | inr funded ↦ elim (Bool-cases (leb_ℤ budget loss)) [
          | inl bad ↦ rw (good, funded, bad, synthetic_stop_of) (entry-IsProtective side e h)
          | inr room ↦ elim (Bool-cases (leb_ℤ denominator zero_d)) [
            | inl bad ↦
                rw (good, funded, room, bad, synthetic_stop_of) (entry-IsProtective side e h)
            | inr some_left ↦
                rw (good, funded, room, some_left, synthetic_stop_of)
                  (stop_at-IsProtective c side e distance r h (
                    div_nonneg c (sub c budget loss) denominator
                      (sub_nonneg c budget loss (ground arith)) (ground arith)))
          ]
        ]
      ]
    ]
