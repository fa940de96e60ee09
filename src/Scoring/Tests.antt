-- ===== src/Scoring/Tests.antt =====
-- A run of the scorer.
use triak_trade.Base.{◌≡◌, none, some, [], ◌∷◌, ok, arith}
use triak_trade.Base.Int.{pos, ◌≤ℤ◌}
use triak_trade.Base.Text.{codes}
use triak_trade.Decimal.{of_ℕ}
use triak_trade.Decimal.Default.{python, one}
use triak_trade.Domain.{open_signal, ignore_signal}
use triak_trade.Scoring.{ScoreBreakdown, ScoreInput, metrics_of, score_with_breakdown}
use triak_trade.Scoring.Bounds.{IsScored}
use triak_trade.Scoring.Metrics.{score_with_breakdown-IsScored}

-- A trade that won one, and one that was not filled.
abbrev input : ScoreInput
input = record {
  events = open_signal ∷ ignore_signal ∷ open_signal ∷ [];
  trades =
      record { status = codes "closed"; pnl = one; exit_time = some 5 }
      ∷ record { status = codes "not_filled"; pnl = pos 0; exit_time = none }
      ∷ [];
  total_pnl = one;
  conservative_pnl = one;
  optimistic_pnl = one;
  from_date = 1;
  to_date = 9;
  initial_balance = pos 10_000_000_000_000;
}

score_with_breakdown-IsScored_example :
    (b : ScoreBreakdown) × (score_with_breakdown python input
      ≡ ok (metrics_of python input, b.final_score, b))
    × (pos 0 ≤ℤ (metrics_of python input).win_rate)
    × ((metrics_of python input).win_rate ≤ℤ of_ℕ python 1)
    × IsScored python b
score_with_breakdown-IsScored_example = score_with_breakdown-IsScored python input (omega arith)
