-- ===== src/Simulator/Updated.antt =====
-- What an update of a position leaves alone, and the stop it may set.
use triak_trade.Base.{
  ℕ, ◌==◌, ◌≡◌, refl, sym, ◌∙◌, subst, ◌⊎◌, inl, inr, Bool, false, not, ◌&&◌, Bool-cases, Option,
  none, some, List, ok, Result-cases, ok-injective,
}
use triak_trade.Base.Int.{ℤ, ◌≤ℤ◌, eqb_ℤ}
use triak_trade.Decimal.{Context}
use triak_trade.Domain.{SignalAction, ParsedSignal}
use triak_trade.StopLoss.{StopLossRiskResult, clamp_budget, loss_at, unusable}
use triak_trade.StopLoss.Within.{not_capped-le}
use triak_trade.Simulator.Position.{OpenPosition, PositionNote}
use triak_trade.Simulator.Sizing.{simulated_take_profits}
use triak_trade.Simulator.Candles.{is_nonempty}
use triak_trade.Simulator.Updates.{
  handles_stop, is_update_tp, handles_take_profit, handles_leverage, add_note, note_stop, set_stop,
  answer_stop, clamp_position, update_stop, move_or_update_stop, update_targets, set_leverage,
  update_position_leverage, apply_live_style_position_update,
}

-- The stop, the rest, the profit, the fees and the number of targets hit.
pub record Frame : Type 0 where
  pub stop_loss : ℤ
  pub remaining_quantity : ℤ
  pub realized_pnl : ℤ
  pub realized_fees : ℤ
  pub targets_hit : ℕ

abbrev pub frame : OpenPosition → Frame
frame p = record {
  stop_loss = p.stop_loss;
  remaining_quantity = p.remaining_quantity;
  realized_pnl = p.realized_pnl;
  realized_fees = p.realized_fees;
  targets_hit = p.targets_hit;
}

frame-update_targets :
    (c : Context) (action : SignalAction) (asked : List ℤ) (p : OpenPosition)
    → frame (update_targets c action asked p) ≡ frame p
unfolding update_targets add_note
frame-update_targets c action asked p =
    elim (Bool-cases (handles_take_profit action && is_nonempty asked)) [
      | inr other ↦ rw (other, update_targets) refl
      | inl handled ↦
          elim (Bool-cases (
            is_nonempty (simulated_take_profits c asked p.side p.entry_price (some p.stop_loss)))) [
              | inl valid ↦ rw (handled, valid, update_targets) refl
              | inr invalid ↦ rw (handled, invalid, update_targets) refl
            ]
    ]

frame-update_position_leverage :
    (c : Context) (action : SignalAction) (most : Option ℤ) (leverage : Option ℕ) (p : OpenPosition)
    → frame (update_position_leverage c action most leverage p) ≡ frame p
unfolding update_position_leverage set_leverage add_note
frame-update_position_leverage c action most none p = refl
frame-update_position_leverage c action most (some n) p =
    elim (Bool-cases (handles_leverage action && not (n == 0))) [
      | inr other ↦ rw (other, update_position_leverage) refl
      | inl handled ↦ rw (handled, update_position_leverage) refl
    ]

frame-note_stop : (stop : ℤ) (p : OpenPosition) → frame (note_stop stop p) ≡ frame p
unfolding note_stop add_note
frame-note_stop stop p = elim (Bool-cases (eqb_ℤ p.stop_loss stop)) [
  | inl same ↦ rw (same, note_stop) refl
  | inr other ↦ rw (other, note_stop) refl
]

rejected_frame :
    (stop : ℤ) (p : OpenPosition) (risk : StopLossRiskResult)
    → frame (add_note (PositionNote.stop_rejected stop risk.stop_loss risk.risk_budget) p) ≡ frame p
unfolding add_note
rejected_frame stop p risk = refl

-- The position's stop is the old one, or the requested one with a loss within the budget; its rest, its profit,
-- its fees and its targets hit are as before.
pub record IsUpdated (c : Context) (max_loss_pct stop : ℤ) (p : OpenPosition) (after : Frame)
    : Type 0 where
  pub outcome :
      (after ≡ frame p)
      ⊎ ((after ≡ frame (record p { stop_loss = stop }))
          × (loss_at c p.side p.entry_price stop p.remaining_quantity p.balance_at_entry
                p.fee_rate_pct max_loss_pct stop
              ≤ℤ clamp_budget c p.side p.entry_price stop p.remaining_quantity p.balance_at_entry
                  p.fee_rate_pct max_loss_pct))

module _ (c : Context) (max_loss_pct stop : ℤ) (p : OpenPosition)
    (usable : unusable c p.side p.entry_price stop p.remaining_quantity p.balance_at_entry
        p.fee_rate_pct max_loss_pct
      ≡ false) where
  answer-IsUpdated :
      (action : SignalAction) {risk : StopLossRiskResult}
      → clamp_position c p stop max_loss_pct ≡ ok risk
      → IsUpdated c max_loss_pct stop p (frame (answer_stop action stop p risk).0)
  unfolding answer_stop clamp_position set_stop
  answer-IsUpdated action {risk} run = elim (Bool-cases risk.was_capped) [
    | inr kept ↦
        rw (kept, answer_stop)
          (record {
            outcome = inr (
              frame-note_stop stop (record p { stop_loss = stop }),
              not_capped-le c p.side p.entry_price stop p.remaining_quantity p.balance_at_entry
                  p.fee_rate_pct max_loss_pct run usable kept,
            );
          })
    | inl capped ↦ elim (Bool-cases (is_update_tp action)) [
      | inl early ↦
          rw (capped, early, answer_stop) (record { outcome = inl (rejected_frame stop p risk) })
      | inr on ↦
          rw (capped, on, answer_stop)
            (record { outcome = inl (frame-note_stop stop _ ∙ rejected_frame stop p risk) })
    ]
  ]

  update_stop-IsUpdated :
      (action : SignalAction) {s : OpenPosition × Bool}
      → update_stop c action (some max_loss_pct) (some stop) p ≡ ok s
      → IsUpdated c max_loss_pct stop p (frame (s.0))
  unfolding update_stop
  update_stop-IsUpdated action {s} run = elim (Bool-cases (handles_stop action)) [
    | inr other ↦
        subst (λ (t : OpenPosition × Bool). IsUpdated c max_loss_pct stop p (frame (t.0)))
          (ok-injective (rw (other, update_stop) at run)) (record { outcome = inl refl })
    | inl handled ↦ elim (Result-cases (clamp_position c p stop max_loss_pct)) [
      | inl (risk, given) ↦
          subst (λ (t : OpenPosition × Bool). IsUpdated c max_loss_pct stop p (frame (t.0)))
            (ok-injective (rw (handled, given, update_stop) at run)) (answer-IsUpdated action given)
      | inr (e, failed) ↦ cc (rw (handled, failed, update_stop) at run)
    ]
  ]

  -- A message that names a stop and is no move to the entry, on a position with a loss budget, where the entry,
  -- the stop, the rest and the balance are positive and the side is a direction: the update, if it gives a
  -- position, leaves the rest, the profit, the fees and the number of targets hit as they are, and the stop is
  -- the old one, or the named one with a loss at it within the budget.
  pub apply_live_style_position_update-IsUpdated :
      (parsed : ParsedSignal) (most : Option ℤ) {after : OpenPosition}
      → parsed.stop_loss ≡ some stop
      → apply_live_style_position_update c false parsed most (some max_loss_pct) p ≡ ok after
      → IsUpdated c max_loss_pct stop p (frame after)
  unfolding apply_live_style_position_update move_or_update_stop
  apply_live_style_position_update-IsUpdated parsed most {after} named run =
      elim (Result-cases (update_stop c parsed.action (some max_loss_pct) (some stop) p)) [
        | inr (e, failed) ↦
            cc (rw (named, failed, apply_live_style_position_update, move_or_update_stop) at run)
        | inl (s, given) ↦ elim (Bool-cases (s.1)) [
          | inl early ↦
              subst (λ (t : OpenPosition). IsUpdated c max_loss_pct stop p (frame t))
                (ok-injective (
                  rw (named, given, early, apply_live_style_position_update, move_or_update_stop) at
                    run))
                (update_stop-IsUpdated parsed.action given)
          | inr on ↦
              subst (λ (t : OpenPosition). IsUpdated c max_loss_pct stop p (frame t))
                (ok-injective (
                  rw (named, given, on, apply_live_style_position_update, move_or_update_stop) at
                    run))
                (subst (λ (f : Frame). IsUpdated c max_loss_pct stop p f)
                  (sym (
                    frame-update_position_leverage c parsed.action most parsed.leverage _
                    ∙ frame-update_targets c parsed.action parsed.take_profits (s.0)))
                  (update_stop-IsUpdated parsed.action given))
        ]
      ]
