-- ===== src/Scoring.antt =====
-- Channel scoring (src/triak_trade/backtesting/scoring.py), with the checks that ChannelMetrics of
-- src/triak_trade/domain/models.py makes. Times are microseconds since 1970.
pub mod Bounds
pub mod Metrics
mod Tests
use triak_trade.Base.{
  ℕ, ◌+◌, ◌*◌, ◌-◌, ◌^◌, ltb, leb, ◌==◌, Bool, true, false, not, ◌&&◌, if◌then◌else◌, Option, none,
  some, List, [], ◌∷◌, length, keep, map, Result, ok, err, ◌>>=◌, ◌>>◌, raise_if,
}
use triak_trade.Base.Int.{ℤ, pos, neg, leb_ℤ, ltb_ℤ, min_ℤ, max_ℤ, abs_ℤ}
use triak_trade.Base.Text.{Str, codes, str_eq}
use triak_trade.Decimal.{Context, of_ℕ, add, sub, mul, div, sum, zero_d, place, round_to}
use triak_trade.Domain.{SignalAction, open_signal, ignore_signal, unknown_action}

pub record SimulatedTrade : Type 0 where
  pub status : Str
  pub pnl : ℤ
  pub exit_time : Option ℕ

pub record ChannelMetrics : Type 0 where
  pub from_date : ℕ
  pub to_date : ℕ
  pub total_messages : ℕ
  pub parsed_signals : ℕ
  pub valid_signals : ℕ
  pub ignored_messages : ℕ
  pub invalid_signals : ℕ
  pub win_rate : ℤ
  pub profit_factor : Option ℤ
  pub expectancy : ℤ
  pub max_drawdown : ℤ
  pub total_pnl : ℤ
  pub conservative_pnl : ℤ
  pub optimistic_pnl : ℤ

pub record ScoreBreakdown : Type 0 where
  pub final_score : ℤ
  pub profitability_score : ℤ
  pub win_rate_score : ℤ
  pub profit_factor_score : ℤ
  pub drawdown_control_score : ℤ
  pub fill_rate_score : ℤ
  pub consistency_score : ℤ
  pub sample_confidence_score : ℤ
  pub return_pct : ℤ
  pub drawdown_pct : ℤ
  pub fill_rate : ℤ
  pub consistency : ℤ
  pub sample_confidence : ℤ
  pub filled_trades : ℕ
  pub total_trades : ℕ
  pub wins : ℕ
  pub losses : ℕ

-- The errors of ChannelMetrics.
pub data MetricsError : Type 0 where
  win_rate_out_of_range dates_out_of_order : MetricsError

-- `Decimal("0.24")` is `hundredths c 24`.
unfoldable pub hundredths : Context → ℕ → ℤ
hundredths c n = pos (n * place c 2)

unfoldable pub is_filled : SimulatedTrade → Bool
is_filled trade = not (str_eq trade.status (codes "not_filled"))

unfoldable pub filled_trades_of : List SimulatedTrade → List SimulatedTrade
filled_trades_of trades = keep is_filled trades

unfoldable pub wins_of : List SimulatedTrade → ℕ
wins_of filled = length (keep (λ t. ltb_ℤ zero_d t.pnl) filled)

unfoldable pub losses_of : List SimulatedTrade → ℕ
losses_of filled = length (keep (λ t. ltb_ℤ t.pnl zero_d) filled)

unfoldable pub gross_win : Context → List SimulatedTrade → ℤ
gross_win c filled = sum c (map (λ t. t.pnl) (keep (λ t. ltb_ℤ zero_d t.pnl) filled))

unfoldable pub gross_loss : Context → List SimulatedTrade → ℤ
gross_loss c filled = sum c (map (λ t. neg t.pnl) (keep (λ t. ltb_ℤ t.pnl zero_d) filled))

-- `Decimal(a) / Decimal(b)`, and zero where `b` is.
unfoldable pub ratio : Context → ℕ → ℕ → ℤ
ratio c a b = if b == 0 then zero_d else div c (of_ℕ c a) (of_ℕ c b)

-- `datetime(9999, 12, 31)`
abbrev end_of_time : ℕ
end_of_time = 253_402_214_400_000_000

unfoldable pub exit_key : SimulatedTrade → ℕ
exit_key trade = elim trade.exit_time [ none ↦ end_of_time | some t ↦ t ]

unfoldable pub insert_trade : SimulatedTrade → List SimulatedTrade → List SimulatedTrade
insert_trade x [] = x ∷ []
insert_trade x (y ∷ ys) =
    let rest = insert_trade x ys in if leb (exit_key x) (exit_key y) then x ∷ y ∷ ys else y ∷ rest

unfoldable pub sort_trades : List SimulatedTrade → List SimulatedTrade
sort_trades [] = []
sort_trades (x ∷ xs) = insert_trade x (sort_trades xs)

-- The loop of `_max_drawdown`.
unfoldable pub drawdown_from : Context → ℤ → ℤ → ℤ → List SimulatedTrade → ℤ
drawdown_from c equity peak max_dd [] = max_dd
drawdown_from c equity peak max_dd (trade ∷ trades) =
    let equity' = add c equity trade.pnl in
    let peak' = max_ℤ peak equity' in
    drawdown_from c equity' peak' (max_ℤ max_dd (sub c peak' equity')) trades

unfoldable pub max_drawdown_of : Context → List SimulatedTrade → ℤ
max_drawdown_of c trades = drawdown_from c zero_d zero_d zero_d (sort_trades trades)

-- `_scale_clamped`
unfoldable pub scale_clamped : Context → ℤ → ℤ → ℤ
scale_clamped c value ceiling =
    if leb_ℤ ceiling zero_d
    then zero_d
    else mul c (max_ℤ zero_d (min_ℤ (div c value ceiling) (of_ℕ c 1))) (of_ℕ c 100)

unfoldable pub profit_factor_score_of : Context → Option ℤ → ℕ → ℕ → ℤ
profit_factor_score_of c none wins losses = if ltb 0 wins && losses == 0 then of_ℕ c 100 else zero_d
profit_factor_score_of c (some factor) wins losses = scale_clamped c factor (of_ℕ c 3)

-- `final_score` before it is rounded to cents.
unfoldable pub final_score_of : Context → ℤ → ℤ → ℤ
final_score_of c weighted multiplier = max_ℤ zero_d (min_ℤ (mul c weighted multiplier) (of_ℕ c 100))

-- `build_score_breakdown`
unfoldable pub build_score_breakdown :
    Context → ChannelMetrics → List SimulatedTrade → ℤ → ScoreBreakdown
build_score_breakdown c metrics trades initial_balance =
    let filled = filled_trades_of trades in
    let filled_count = length filled in
    let wins = wins_of filled in
    let losses = losses_of filled in
    let one = of_ℕ c 1 in
    let hundred = of_ℕ c 100 in
    let safe_initial = if ltb_ℤ zero_d initial_balance then initial_balance else one in
    let fill_rate = ratio c filled_count metrics.parsed_signals in
    let return_pct = div c metrics.total_pnl safe_initial in
    let drawdown_pct = div c metrics.max_drawdown safe_initial in
    let pnl_reference =
      max_ℤ (max_ℤ (abs_ℤ metrics.optimistic_pnl) (abs_ℤ metrics.conservative_pnl)) one in
    let spread = abs_ℤ (sub c metrics.optimistic_pnl metrics.conservative_pnl) in
    let consistency = sub c one (min_ℤ (div c spread pnl_reference) one) in
    let sample_confidence = min_ℤ (div c (of_ℕ c filled_count) (of_ℕ c 12)) one in
    let profitability_score = scale_clamped c return_pct (hundredths c 30) in
    let win_rate_score = mul c metrics.win_rate hundred in
    let profit_factor_score = profit_factor_score_of c metrics.profit_factor wins losses in
    let drawdown_control_score =
      mul c (sub c one (min_ℤ (div c drawdown_pct (hundredths c 20)) one)) hundred in
    let fill_rate_score = mul c fill_rate hundred in
    let consistency_score = mul c consistency hundred in
    let sample_confidence_score = mul c sample_confidence hundred in
    let weight : ℕ → ℤ → ℤ = λ n score. mul c score (hundredths c n) in
    let weighted =
      add c
        (add c
          (add c
            (add c
              (add c (add c (weight 24 profitability_score) (weight 18 win_rate_score))
                (weight 17 profit_factor_score))
              (weight 15 drawdown_control_score))
            (weight 10 fill_rate_score))
          (weight 10 consistency_score))
        (weight 6 sample_confidence_score) in
    let multiplier = add c (hundredths c 70) (mul c sample_confidence (hundredths c 30)) in
    let cents = round_to (place c 2) in
    let points = round_to (place c 4) in
    record {
      final_score = cents (final_score_of c weighted multiplier);
      profitability_score = cents profitability_score;
      win_rate_score = cents win_rate_score;
      profit_factor_score = cents profit_factor_score;
      drawdown_control_score = cents drawdown_control_score;
      fill_rate_score = cents fill_rate_score;
      consistency_score = cents consistency_score;
      sample_confidence_score = cents sample_confidence_score;
      return_pct = points return_pct;
      drawdown_pct = points drawdown_pct;
      fill_rate = points fill_rate;
      consistency = points consistency;
      sample_confidence = points sample_confidence;
      filled_trades = filled_count;
      total_trades = length trades;
      wins = wins;
      losses = losses;
    }

-- The validators of ChannelMetrics; its counts are natural numbers here.
unfoldable pub validate_metrics : Context → ChannelMetrics → Result MetricsError ChannelMetrics
validate_metrics c m =
    raise_if (ltb_ℤ m.win_rate zero_d) win_rate_out_of_range
    >> raise_if (ltb_ℤ (of_ℕ c 1) m.win_rate) win_rate_out_of_range
    >> raise_if (leb m.to_date m.from_date) dates_out_of_order
    >> ok m

unfoldable pub is_open_event : SignalAction → Bool
is_open_event open_signal = true
is_open_event _ = false

unfoldable pub is_ignored_event : SignalAction → Bool
is_ignored_event ignore_signal = true
is_ignored_event _ = false

unfoldable pub is_unknown_event : SignalAction → Bool
is_unknown_event unknown_action = true
is_unknown_event _ = false

-- What a scoring is about: the actions of the events, the trades and the totals of the simulation.
pub record ScoreInput : Type 0 where
  pub events : List SignalAction
  pub trades : List SimulatedTrade
  pub total_pnl : ℤ
  pub conservative_pnl : ℤ
  pub optimistic_pnl : ℤ
  pub from_date : ℕ
  pub to_date : ℕ
  pub initial_balance : ℤ

-- The metrics that `score_with_breakdown` computes.
unfoldable pub metrics_of : Context → ScoreInput → ChannelMetrics
metrics_of c i =
    let filled = filled_trades_of i.trades in
    let parsed = length (keep is_open_event i.events) in
    let lost = gross_loss c filled in
    record {
      from_date = i.from_date;
      to_date = i.to_date;
      total_messages = length i.events;
      parsed_signals = parsed;
      valid_signals = parsed;
      ignored_messages = length (keep is_ignored_event i.events);
      invalid_signals = length (keep is_unknown_event i.events);
      win_rate = ratio c (wins_of filled) (length filled);
      profit_factor = if ltb_ℤ zero_d lost then some (div c (gross_win c filled) lost) else none;
      expectancy =
          if length i.trades == 0 then zero_d else div c i.total_pnl (of_ℕ c (length i.trades));
      max_drawdown = max_drawdown_of c i.trades;
      total_pnl = i.total_pnl;
      conservative_pnl = i.conservative_pnl;
      optimistic_pnl = i.optimistic_pnl;
    }

unfoldable pub score_with_breakdown :
    Context → ScoreInput → Result MetricsError (ChannelMetrics × ℤ × ScoreBreakdown)
score_with_breakdown c i = validate_metrics c (metrics_of c i) >>= λ metrics.
    let breakdown = build_score_breakdown c metrics i.trades i.initial_balance in
    ok (metrics, breakdown.final_score, breakdown)

-- `score`
unfoldable pub score : Context → ScoreInput → Result MetricsError (ChannelMetrics × ℤ)
score c i = score_with_breakdown c i >>= λ r. ok (r.0, r.1)
