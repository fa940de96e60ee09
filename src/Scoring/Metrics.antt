-- ===== src/Scoring/Metrics.antt =====
-- The metrics of a channel, and that a scoring returns.
use triak_trade.Base.{
  ℕ, ◌≤◌, ◌<◌, ◌≡◌, refl, ◌==◌, Bool, Bool-cases, inl, inr, arith, subst, List, [], ◌∷◌, length,
  keep, ok,
}
use triak_trade.Base.Int.{pos, ◌≤ℤ◌}
use triak_trade.Decimal.{
  Context, of_ℕ, div, div_nonneg, div_mono, of_ℕ_mono, of_ℕ_nonneg, of_ℕ_positive, div_self,
}
use triak_trade.Scoring.{
  ChannelMetrics, ScoreBreakdown, ScoreInput, ratio, wins_of, filled_trades_of, metrics_of,
  validate_metrics, build_score_breakdown, score_with_breakdown,
}
use triak_trade.Scoring.Bounds.{IsScored, build_score_breakdown-IsScored}

length-keep : {A : Type 0} (p : A → Bool) (xs : List A) → length (keep p xs) ≤ length xs
length-keep p [] = omega arith
length-keep p (x ∷ xs) = ground (arith, length-keep p xs)

-- A share of a whole is between zero and one.
ratio-bounds : (c : Context) (a b : ℕ) → a ≤ b → (pos 0 ≤ℤ ratio c a b) × (ratio c a b ≤ℤ of_ℕ c 1)
unfolding ratio
ratio-bounds c a b h = elim (Bool-cases (b == 0)) [
  | inl none_left ↦ let one = of_ℕ_nonneg c 1 in rw (none_left, ratio) (omega arith, omega arith)
  | inr some_left ↦
      let positive = of_ℕ_positive c b (ground arith) in
      rw (some_left, ratio)
        (
          div_nonneg c (of_ℕ c a) (of_ℕ c b) (of_ℕ_nonneg c a) positive,
          subst (λ t. div c (of_ℕ c a) (of_ℕ c b) ≤ℤ t) (div_self c b (ground arith))
              (div_mono c (of_ℕ c a) (of_ℕ c b) (of_ℕ c b) (of_ℕ_mono c h) positive),
        )
]

win_rate-bounds :
    (c : Context) (i : ScoreInput)
    → let m = metrics_of c i in (pos 0 ≤ℤ m.win_rate) × (m.win_rate ≤ℤ of_ℕ c 1)
unfolding metrics_of wins_of
win_rate-bounds c i =
    ratio-bounds c (wins_of (filled_trades_of i.trades)) (length (filled_trades_of i.trades))
      (length-keep _ (filled_trades_of i.trades))

validate_metrics-passes :
    (c : Context) (m : ChannelMetrics)
    → pos 0 ≤ℤ m.win_rate
    → m.win_rate ≤ℤ of_ℕ c 1
    → m.from_date < m.to_date
    → validate_metrics c m ≡ ok m
unfolding validate_metrics
validate_metrics-passes c m l h d = ground arith

metrics_of-dates :
    (c : Context) (i : ScoreInput)
    → i.from_date < i.to_date
    → (metrics_of c i).from_date < (metrics_of c i).to_date
unfolding metrics_of
metrics_of-dates c i e = e

-- A scoring over a period that ends after it begins returns: the win rate that it computes is between
-- zero and one, so the metrics are accepted, and the final score, the profitability score and the profit
-- factor's score are between 0 and 100. Of the other scores nothing is said.
pub score_with_breakdown-IsScored :
    (c : Context) (i : ScoreInput)
    → i.from_date < i.to_date
    → (b : ScoreBreakdown) × (score_with_breakdown c i ≡ ok (metrics_of c i, b.final_score, b))
      × (pos 0 ≤ℤ (metrics_of c i).win_rate)
      × ((metrics_of c i).win_rate ≤ℤ of_ℕ c 1)
      × IsScored c b
unfolding score_with_breakdown
score_with_breakdown-IsScored c i d =
    let (l, h) = win_rate-bounds c i in
    let accepted = validate_metrics-passes c (metrics_of c i) l h (metrics_of-dates c i d) in
    (
      build_score_breakdown c (metrics_of c i) i.trades i.initial_balance,
      rw accepted refl,
      l,
      h,
      build_score_breakdown-IsScored c (metrics_of c i) i.trades i.initial_balance,
    )
