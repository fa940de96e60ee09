-- ===== src/LiveTrading/Positions/Tests.antt =====
-- Runs of the position manager: a long signal at 100 with its stop at 90, and the trade that it opens.
use triak_trade.Base.{ℕ, ◌<◌, ◌≡◌, refl, true, false, none, some, [], ◌∷◌, List, inl, ok, arith}
use triak_trade.Base.Int.{ℤ, pos, ◌≤ℤ◌}
use triak_trade.Base.Text.{Str, codes, str_eq, str_in}
use triak_trade.Decimal.{of_ℕ, on_grid, zero_d}
use triak_trade.Decimal.Round.{limit}
use triak_trade.Decimal.Ops.{run}
use triak_trade.Decimal.Default.{python, one}
use triak_trade.Domain.{ParsedSignal, SignalAction, EntryType, long, is_long, is_direction}
use triak_trade.StopLoss.{
  StopLossRiskResult, fee_rate_of, max_quantity_for_stop_risk_budget, net_loss_at_stop, price_gain,
  clamp_stop_loss_to_risk_budget, unusable, clamp_budget, capped_stop, div_checked, moved_result,
  loss_at, move_within,
}
use triak_trade.LiveTrading.Models.{
  LiveTrade, MessageAttribution, closed, is_active, is_open, model_post_init,
}
use triak_trade.Strategies.{TradeStrategy}
use triak_trade.Strategies.Default.{RiskParameters, default_risk_managed}
use triak_trade.LiveTrading.Positions.Targets.{
  Note, long_text, side_of, floor_price, enforce_minimum_first_take_profit, is_long_text, side_text,
  max_distance_of, is_valid_target, on_wrong_side, is_too_far, collect, sort_targets, insert_target,
  is_before, sanitize_take_profits, is_empty, entry_of, resolve_entry_price,
  allocation_pct_for_signal,
}
use triak_trade.LiveTrading.Positions.Sizing.{
  Settings, PositionSizingResult, Trigger, checked, note_if, leverage_raw_of, planned_quantity,
  clamp_stop_loss, requested_stop_stage, stop_stage, targets_stage, size_at,
  compute_position_sizing, create_trade,
}
use triak_trade.LiveTrading.Positions.Valid.{IsSanitized, sanitize_take_profits-IsSanitized}
use triak_trade.LiveTrading.Positions.Floor.{IsFloored, enforce_minimum_first_take_profit-IsFloored}
use triak_trade.LiveTrading.Positions.Updates.{
  append_note, record_message, clamp_trade_stop_loss, set_new_stop, update_stop_loss,
}
use triak_trade.LiveTrading.Positions.Closing.{
  TradeEvent, check_sl_tp_hit, first_reached, target_reached, stop_reached, target_event,
  close_quantity, apply_partial_close,
}
use triak_trade.LiveTrading.Positions.Protection.{
  is_stop_side, or_stop, synthetic_fill_stop, fill_stop, rebase_stop, rebase_targets,
  rebase_trade_protection_after_entry_fill,
}
use triak_trade.LiveTrading.Positions.Lifecycle.{
  ManagerCall, close_part, set_stop, close_all, ledger, manage, manage_all,
}
use triak_trade.LiveTrading.Positions.Settled.{IsSettled, create_trade-manage_all-IsSettled}
use triak_trade.LiveTrading.Positions.Closed.{IsEnded, manage_all-ended, close_all-IsEnded}
use triak_trade.LiveTrading.Positions.Parts.{
  IsPart, IsExit, apply_partial_close-IsPart, apply_partial_close-all,
}
use triak_trade.LiveTrading.Positions.Triggers.{IsReport, check_sl_tp_hit-IsReport}
use triak_trade.LiveTrading.Positions.Stops.{IsExposed, IsAnswered, update_stop_loss-IsAnswered}
use triak_trade.LiveTrading.Positions.Rebase.{IsProtected, rebase-IsProtected}
use triak_trade.LiveTrading.Positions.Sized.{IsSized, compute_position_sizing-IsSized}

abbrev settings : Settings
settings = record {
  default_signal_leverage = 5;
  max_effective_leverage = 50;
  min_allocation_pct = pos 20_000_000_000;
  max_allocation_pct = pos 200_000_000_000;
  fee_rate_pct = pos 0;
  default_stop_pct = pos 50_000_000_000;
  synthetic_stop_max_loss_pct = pos 50_000_000_000;
  max_stop_loss_pct_of_balance = one;
  min_first_take_profit_pct = pos 15_000_000_000;
}

abbrev entry : ℤ
entry = pos 1_000_000_000_000

abbrev stop : ℤ
stop = pos 900_000_000_000

abbrev balance : ℤ
balance = pos 10_000_000_000_000

-- The second target is on the wrong side.
abbrev signal : ParsedSignal
signal = record {
  action = SignalAction.open_signal;
  symbol = some (codes "BTCUSDT");
  side = long;
  entry_type = EntryType.limit;
  entry_low = some entry;
  entry_high = some entry;
  stop_loss = some stop;
  take_profits = pos 1_200_000_000_000 ∷ stop ∷ pos 1_100_000_000_000 ∷ [];
  leverage = some 10;
  confidence = one;
}

abbrev risk_per_trade_pct : ℤ
risk_per_trade_pct = pos 100_000_000_000

-- Two units are planned, and one of them may be lost down to the stop.
abbrev sizing : PositionSizingResult
sizing = record {
  quantity = one;
  allocation_pct = pos 20_000_000_000;
  margin = pos 100_000_000_000;
  leverage = 10;
  entry_price = entry;
  balance_at_entry = balance;
  stop_loss = stop;
  take_profits = pos 1_100_000_000_000 ∷ pos 1_200_000_000_000 ∷ [];
  is_synthetic_stop = false;
  notes =
      Note.allocation_pct (pos 20_000_000_000)
      ∷ Note.quantity_risk_capped (pos 20_000_000_000) one stop
      ∷ Note.tp_direction_filtered 1
      ∷ [];
}

sizing_run :
    compute_position_sizing python settings risk_per_trade_pct signal balance none ≡ ok sizing
unfolding run compute_position_sizing leverage_raw_of note_if resolve_entry_price entry_of size_at
    allocation_pct_for_signal planned_quantity stop_stage requested_stop_stage checked
    clamp_stop_loss max_quantity_for_stop_risk_budget fee_rate_of net_loss_at_stop price_gain
    is_direction clamp_stop_loss_to_risk_budget unusable clamp_budget capped_stop div_checked
    moved_result loss_at move_within targets_stage sanitize_take_profits is_long_text side_text
    is_long str_eq max_distance_of is_valid_target on_wrong_side is_too_far collect sort_targets
    insert_target is_before is_empty
sizing_run = refl

compute_position_sizing-IsSized_example :
    IsSized python settings risk_per_trade_pct signal balance sizing
compute_position_sizing-IsSized_example =
    compute_position_sizing-IsSized python settings risk_per_trade_pct signal balance none
      sizing_run

sanitize_take_profits-IsSanitized_example :
    IsSanitized
      (is_long_text long_text)
      (is_valid_target python
        (is_long_text long_text)
        entry
        (max_distance_of python entry (some stop)))
      signal.take_profits
      (sanitize_take_profits python signal.take_profits long_text entry (some stop))
sanitize_take_profits-IsSanitized_example =
    sanitize_take_profits-IsSanitized python signal.take_profits long_text entry (some stop)

-- The first target is less than one and a half percent away.
enforce_minimum_first_take_profit-IsFloored_example :
    IsFloored true
      (floor_price python true entry (pos 15_000_000_000))
      (pos 1_010_000_000_000 ∷ pos 1_100_000_000_000 ∷ [])
      (enforce_minimum_first_take_profit python
        (pos 1_010_000_000_000 ∷ pos 1_100_000_000_000 ∷ [])
        true
        entry
        (pos 15_000_000_000)).0
unfolding is_empty
enforce_minimum_first_take_profit-IsFloored_example =
    enforce_minimum_first_take_profit-IsFloored python
      (pos 1_010_000_000_000 ∷ pos 1_100_000_000_000 ∷ []) true entry (pos 15_000_000_000) refl
      (omega arith) (omega arith)

abbrev trigger : Trigger
trigger = record {
  trade_id = codes "lt";
  object_id = 1;
  opened_at = 5;
  updated_at = 5;
  session_id = codes "s";
  signal_id = codes "g";
  message_id = 7;
  message_preview = [];
  message_date = 4;
  channel_id = codes "c";
  channel_input = codes "c";
  channel_label = codes "c";
}

-- Notes without their values.
abbrev text : Note → Str
text _ = codes "note"

abbrev message : MessageAttribution
message = record {
  object_id = 2;
  message_id = 8;
  channel_id = codes "c";
  channel_label = codes "c";
  message_preview = [];
  message_date = 6;
  action = codes "update";
  notes = [];
}

abbrev created : LiveTrade
created = create_trade text trigger signal sizing

-- A half is closed at 110, the stop goes to the entry, and the rest is closed there.
abbrev calls : List (ℕ × ℕ × ManagerCall)
calls =
    (
      6,
      6,
      close_part (pos 5_000_000_000) (pos 1_100_000_000_000) (codes "tp1_hit") (pos 0) none true,
    )
    ∷ (7, 7, set_stop none message true)
    ∷ (8, 8, close_all entry (codes "sl_hit") (pos 0) none)
    ∷ []

create_trade-manage_all-IsSettled_example :
    IsSettled (ledger (manage_all python settings text calls created))
create_trade-manage_all-IsSettled_example =
    create_trade-manage_all-IsSettled python settings risk_per_trade_pct signal balance none text
      trigger calls sizing_run

abbrev ended : LiveTrade
ended = record created { status = closed; remaining_quantity = zero_d }

manage_all-ended_example : ledger (manage_all python settings text calls ended) ≡ ledger ended
manage_all-ended_example = manage_all-ended python settings text calls ended (refl, refl)

created-IsSettled : IsSettled (ledger created)
unfolding create_trade model_post_init is_active str_in str_eq
created-IsSettled = record { outcome = inl (refl, omega arith) }

close_all-IsEnded_example : IsEnded (
    ledger (
      manage python settings text 9 9
        (close_all entry (codes "manual_close") (pos 0) none)
        (manage_all python settings text calls created)))
close_all-IsEnded_example =
    close_all-IsEnded python settings text calls 9 9 entry (codes "manual_close") (pos 0) none
      created created-IsSettled

-- One unit is 10 ^ 8 steps.
created_remaining : created.remaining_quantity ≡ on_grid python 100_000_000
unfolding run create_trade model_post_init is_active str_in str_eq
created_remaining = refl

few_steps : 100_000_000 < limit python
unfolding limit
few_steps = omega arith

one_unit : pos 5_000_000_000 ≤ℤ of_ℕ python 1
unfolding run
one_unit = omega arith

apply_partial_close-IsPart_example :
    IsPart python 100_000_000
      (close_quantity python created (pos 5_000_000_000))
      (apply_partial_close python text 6 6 created
        (pos 5_000_000_000)
        (pos 1_100_000_000_000)
        (codes "tp1_hit")
        (pos 0)
        none
        true).trade.remaining_quantity
apply_partial_close-IsPart_example =
    apply_partial_close-IsPart python text 6 6 created (pos 5_000_000_000) (pos 1_100_000_000_000)
      (codes "tp1_hit") (pos 0) none true 100_000_000 created_remaining few_steps (omega arith)
      one_unit

apply_partial_close-all_example : IsExit (pos 1_100_000_000_000) (codes "tp1_hit") (
    ledger
      (apply_partial_close python text 6 6 created
        (of_ℕ python 1)
        (pos 1_100_000_000_000)
        (codes "tp1_hit")
        (pos 0)
        none
        true).trade)
apply_partial_close-all_example =
    apply_partial_close-all python text 6 6 created (pos 1_100_000_000_000) (codes "tp1_hit")
      (pos 0) none true 100_000_000 created_remaining few_steps (omega arith)

hit_run : check_sl_tp_hit created (pos 1_150_000_000_000) ≡ TradeEvent.tp_hit 1 ∷ []
unfolding check_sl_tp_hit first_reached target_reached stop_reached target_event create_trade
    side_text is_long is_long_text model_post_init is_open is_active str_in str_eq
hit_run = refl

check_sl_tp_hit-IsReport_example :
    IsReport created (pos 1_150_000_000_000) (check_sl_tp_hit created (pos 1_150_000_000_000))
check_sl_tp_hit-IsReport_example = check_sl_tp_hit-IsReport created (pos 1_150_000_000_000)

abbrev tightened : StopLossRiskResult
tightened = record {
  stop_loss = pos 950_000_000_000;
  risk_amount = pos 50_000_000_000;
  risk_budget = pos 100_000_000_000;
  was_capped = false;
}

tightened_run :
    (update_stop_loss python settings text 9 created
      (some (pos 950_000_000_000))
      message
      false).value
    ≡ ok (some tightened)
unfolding run update_stop_loss set_new_stop record_message append_note clamp_trade_stop_loss
    create_trade side_text is_long is_long_text model_post_init is_open is_active str_in str_eq
    side_of clamp_stop_loss clamp_stop_loss_to_risk_budget unusable clamp_budget capped_stop
    div_checked moved_result loss_at fee_rate_of net_loss_at_stop price_gain is_direction
    move_within
tightened_run = refl

created-IsExposed : IsExposed created
unfolding create_trade model_post_init is_active str_in str_eq
created-IsExposed = record { entry = omega arith; rest = omega arith; balance = omega arith }

update_stop_loss-IsAnswered_example :
    IsAnswered python settings created
      (pos 950_000_000_000)
      (update_stop_loss python settings text 9 created
        (some (pos 950_000_000_000))
        message
        false).trade
      (update_stop_loss python settings text 9 created
        (some (pos 950_000_000_000))
        message
        false).message
      tightened
update_stop_loss-IsAnswered_example =
    update_stop_loss-IsAnswered python settings text 9 created (pos 950_000_000_000) message
      created-IsExposed (omega arith) tightened_run

abbrev parameters : RiskParameters
parameters = record {
  name = codes "default_risk_managed";
  synthetic_stop_max_loss_pct_of_balance = one;
  risk_free_on_first_tp = true;
  synthetic_tp_profit_pct_steps = [];
  tp_close_fractions = [];
}

abbrev strategy : TradeStrategy
strategy = default_risk_managed python parameters

-- The entry filled at 99.
abbrev filled : LiveTrade
filled = record created { entry_price = pos 990_000_000_000 }

rebased_run :
    (rebase_trade_protection_after_entry_fill python settings filled strategy).1
    ≡ ok (Note.entry_fill_tp_direction_filtered 1 ∷ [])
unfolding run rebase_trade_protection_after_entry_fill rebase_stop fill_stop or_stop is_stop_side
    rebase_targets synthetic_fill_stop create_trade side_text is_long is_long_text model_post_init
    is_active str_in str_eq side_of checked clamp_stop_loss note_if clamp_stop_loss_to_risk_budget
    unusable clamp_budget capped_stop div_checked moved_result loss_at fee_rate_of net_loss_at_stop
    price_gain is_direction move_within sanitize_take_profits max_distance_of is_valid_target
    on_wrong_side is_too_far collect sort_targets insert_target is_before is_empty
rebased_run = refl

rebase-IsProtected_example :
    IsProtected python settings filled
      (rebase_trade_protection_after_entry_fill python settings filled strategy).0
rebase-IsProtected_example =
    rebase-IsProtected python settings filled strategy
      (Note.entry_fill_tp_direction_filtered 1 ∷ []) rebased_run
