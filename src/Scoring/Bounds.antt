-- ===== src/Scoring/Bounds.antt =====
-- Scores are between 0 and 100.
use triak_trade.Base.{
  ℕ, suc, ◌*◌, ◌-◌, ◌^◌, ◌≤◌, ◌<◌, ◌≡◌, ap, ◌∙◌, sym, ltb, ◌==◌, ◌&&◌, Bool-cases, Option, none,
  some, inl, inr, arith, subst, List,
}
use triak_trade.Base.Int.{ℤ, pos, negsuc, ◌≤ℤ◌, leb_ℤ, max_ℤ, min_ℤ}
use native.Mathlib.Nat.{pow-suc, mul-le-mul_right}
use triak_trade.Decimal.{
  Context, of_ℕ, mul, div, zero_d, place, round_to, mul_units, mul_nonneg, mul_mono, of_ℕ_nonneg,
  limit_one, unit-place,
}
use triak_trade.Decimal.Round.{unit, nearest, nearest_mono, nearest_exact, pow_pos}
use triak_trade.Scoring.{
  SimulatedTrade, ChannelMetrics, ScoreBreakdown, scale_clamped, profit_factor_score_of,
  final_score_of, build_score_breakdown,
}

-- Between zero and a hundred.
pub record IsPercentage (c : Context) (x : ℤ) : Type 0 where
  pub low : pos 0 ≤ℤ x
  pub high : x ≤ℤ of_ℕ c 100

hundred_places : (c : Context) → of_ℕ c 100 ≡ pos (10_000 * place c 2)
unfolding of_ℕ
hundred_places c = ap pos (omega (arith, unit-place c))

round_to-within :
    (m k : ℕ) (x : ℤ)
    → 0 < m
    → pos 0 ≤ℤ x
    → x ≤ℤ pos (k * m)
    → (pos 0 ≤ℤ round_to m x) × (round_to m x ≤ℤ pos (k * m))
unfolding round_to
round_to-within m k (pos n) p l h =
    let below : nearest n m ≤ nearest (k * m) m = nearest_mono n (k * m) m p (omega arith) in
    let top = mul-le-mul_right m below in
    let exact = rw (nearest_exact k m p) at top in (omega arith, omega arith)
round_to-within m k (negsuc n) p l h = absurd (omega arith)

round_to-IsPercentage :
    (c : Context) (x : ℤ) → IsPercentage c x → IsPercentage c (round_to (place c 2) x)
unfolding place
round_to-IsPercentage c x s =
    let top = hundred_places c in
    let (low, high) =
      round_to-within (place c 2) 10_000 x (pow_pos (c.scale - 2)) s.low
        (subst (λ t. x ≤ℤ t) top s.high) in
    record { low = low; high = subst (λ t. round_to (place c 2) x ≤ℤ t) (sym top) high }

one_hundred : (c : Context) → mul c (of_ℕ c 1) (of_ℕ c 100) ≡ of_ℕ c 100
unfolding of_ℕ unit
one_hundred c =
    let digits : 10 ^ (suc (suc c.scale)) ≡ 10 ^ c.scale * 10 * 10 =
      pow-suc 10 (suc c.scale) ∙ ap (λ (k : ℕ). k * 10) (pow-suc 10 c.scale) in
    let top : pos (100 * 10 ^ c.scale) ≡ pos (1 * 10 ^ (suc (suc c.scale))) =
      ap pos (omega (arith, digits)) in
    rw top (mul_units c 1 1 (suc (suc c.scale)) (limit_one c))

-- A part of one, times a hundred.
part-IsPercentage :
    (c : Context) (x : ℤ) → pos 0 ≤ℤ x → x ≤ℤ of_ℕ c 1 → IsPercentage c (mul c x (of_ℕ c 100))
part-IsPercentage c x l h = record {
  low = mul_nonneg c x (of_ℕ c 100) l (of_ℕ_nonneg c 100);
  high =
      subst (λ t. mul c x (of_ℕ c 100) ≤ℤ t) (one_hundred c)
        (mul_mono c x (of_ℕ c 1) (of_ℕ c 100) h (of_ℕ_nonneg c 100));
}

zero-IsPercentage : (c : Context) → IsPercentage c zero_d
zero-IsPercentage c = record { low = omega arith; high = of_ℕ_nonneg c 100 }

pub scale_clamped-IsPercentage :
    (c : Context) (value ceiling : ℤ) → IsPercentage c (scale_clamped c value ceiling)
unfolding scale_clamped
scale_clamped-IsPercentage c value ceiling = elim (Bool-cases (leb_ℤ ceiling zero_d)) [
  | inl closed ↦ rw (closed, scale_clamped) (zero-IsPercentage c)
  | inr positive ↦
      let part = max_ℤ zero_d (min_ℤ (div c value ceiling) (of_ℕ c 1)) in
      let one = of_ℕ_nonneg c 1 in
      rw (positive, scale_clamped) (part-IsPercentage c part (ground arith) (ground arith))
]

profit_factor_score-IsPercentage :
    (c : Context) (factor : Option ℤ) (wins losses : ℕ)
    → IsPercentage c (profit_factor_score_of c factor wins losses)
unfolding profit_factor_score_of
profit_factor_score-IsPercentage c (some f) wins losses = scale_clamped-IsPercentage c f (of_ℕ c 3)
profit_factor_score-IsPercentage c none wins losses =
    elim (Bool-cases (ltb 0 wins && losses == 0)) [
      | inl only_wins ↦
          rw (only_wins, profit_factor_score_of)
            (record { low = of_ℕ_nonneg c 100; high = omega arith })
      | inr mixed ↦ rw (mixed, profit_factor_score_of) (zero-IsPercentage c)
    ]

final_score-IsPercentage :
    (c : Context) (weighted multiplier : ℤ) → IsPercentage c (final_score_of c weighted multiplier)
unfolding final_score_of
final_score-IsPercentage c weighted multiplier =
    let hundred = of_ℕ_nonneg c 100 in record { low = ground arith; high = ground arith }

-- The scores of a breakdown that are clamped are between 0 and 100.
pub record IsScored (c : Context) (b : ScoreBreakdown) : Type 0 where
  pub final : IsPercentage c b.final_score
  pub profitability : IsPercentage c b.profitability_score
  pub profit_factor : IsPercentage c b.profit_factor_score

-- Whatever the metrics, the final score, the profitability score and the profit factor's score are
-- between 0 and 100.
pub build_score_breakdown-IsScored :
    (c : Context) (m : ChannelMetrics) (trades : List SimulatedTrade) (balance : ℤ)
    → IsScored c (build_score_breakdown c m trades balance)
unfolding build_score_breakdown
build_score_breakdown-IsScored c m trades balance = record {
  final = round_to-IsPercentage c _ (final_score-IsPercentage c _ _);
  profitability = round_to-IsPercentage c _ (scale_clamped-IsPercentage c _ _);
  profit_factor = round_to-IsPercentage c _ (profit_factor_score-IsPercentage c _ _ _);
}
