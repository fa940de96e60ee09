-- ===== src/LiveTrading/Positions/Lifecycle.antt =====
-- The calls of the position manager on one trade, as they follow one another, and what of the trade they
-- leave alone.
use triak_trade.Base.{
  ℕ, ltb, ◌==◌, ◌≡◌, refl, Bool, true, false, ◌||◌, Bool-cases, inl, inr, Option, Option-cases,
  none, some, List, [], ◌∷◌, any, Result-cases, ok,
}
use triak_trade.Base.Int.{ℤ, leb_ℤ}
use triak_trade.Base.Text.{Str}
use triak_trade.Decimal.{Context, zero_d}
use triak_trade.Strategies.{TradeStrategy}
use triak_trade.LiveTrading.Models.{LiveTrade, MessageAttribution, add_attribution, merge_into}
use triak_trade.LiveTrading.Positions.Targets.{Note, is_empty, sanitize_take_profits}
use triak_trade.LiveTrading.Positions.Sizing.{Settings}
use triak_trade.LiveTrading.Positions.Updates.{
  update_stop_loss, update_take_profits, update_leverage, apply_mark_price, record_message,
  set_new_stop, move_stop_to_entry, clamp_trade_stop_loss,
}
use triak_trade.LiveTrading.Positions.Protection.{
  rebase_stop, rebase_targets, rebase_trade_protection_after_entry_fill,
}
use triak_trade.LiveTrading.Positions.Rebase.{rebase_stop-eq-ok}
use triak_trade.LiveTrading.Positions.Closing.{apply_partial_close, close_trade}

-- One call, with its arguments.
pub data ManagerCall : Type 0 where
  set_stop : Option ℤ → MessageAttribution → Bool → ManagerCall
  set_targets : List ℤ → MessageAttribution → ManagerCall
  set_leverage : Option ℕ → MessageAttribution → ManagerCall
  mark : ℤ → ℤ → ManagerCall
  rebase : TradeStrategy → ManagerCall
  close_part : ℤ → ℤ → Str → ℤ → Option MessageAttribution → Bool → ManagerCall
  close_all : ℤ → Str → ℤ → Option MessageAttribution → ManagerCall

unfoldable pub is_close : ManagerCall → Bool
is_close (close_part _ _ _ _ _ _) = true
is_close (close_all _ _ _ _) = true
is_close _ = false

-- What the trade has come to: what only a close changes.
pub record Ledger : Type 0 where
  pub status : Str
  pub remaining_quantity : ℤ
  pub realized_pnl : ℤ
  pub fees : ℤ
  pub exit_price : Option ℤ
  pub close_reason : Option Str
  pub closed_at : Option ℕ

abbrev pub ledger : LiveTrade → Ledger
ledger t = record {
  status = t.status;
  remaining_quantity = t.remaining_quantity;
  realized_pnl = t.realized_pnl;
  fees = t.fees;
  exit_price = t.exit_price;
  close_reason = t.close_reason;
  closed_at = t.closed_at;
}

pub ledger-add_attribution :
    (now : ℕ) (m : MessageAttribution) (t : LiveTrade) → ledger (add_attribution now m t) ≡ ledger t
unfolding add_attribution
ledger-add_attribution now m t =
    elim (Bool-cases
      (any (λ (e : MessageAttribution). e.object_id == m.object_id) t.message_history)) [
        | inl known ↦ rw known refl
        | inr new ↦ elim (Bool-cases (ltb 0 m.message_id)) [
          | inr unnumbered ↦ rw (new, unnumbered) refl
          | inl numbered ↦ elim (Option-cases (merge_into m t.message_history)) [
            | inl other ↦ rw (new, numbered, other) refl
            | inr (h, merged) ↦ rw (new, numbered, merged) refl
          ]
        ]
      ]

module _ (c : Context) (settings : Settings) (text : Note → Str) where
  ledger-update_stop_loss :
      (now : ℕ) (t : LiveTrade) (new_sl : Option ℤ) (message : MessageAttribution) (move : Bool)
      → ledger (update_stop_loss c settings text now t new_sl message move).trade ≡ ledger t
  unfolding update_stop_loss move_stop_to_entry set_new_stop record_message
  ledger-update_stop_loss now t new_sl message true = ledger-add_attribution now _ _
  ledger-update_stop_loss now t none message false = refl
  ledger-update_stop_loss now t (some stop) message false =
      elim (Result-cases (clamp_trade_stop_loss c settings t stop)) [
        | inr (e, failed) ↦ rw (failed, set_new_stop) refl
        | inl (risk, clamped) ↦ elim (Bool-cases risk.was_capped) [
          | inl capped ↦ rw (clamped, capped, set_new_stop) (ledger-add_attribution now _ _)
          | inr kept ↦ rw (clamped, kept, set_new_stop) (ledger-add_attribution now _ _)
        ]
      ]

  ledger-update_take_profits :
      (now : ℕ) (t : LiveTrade) (tps : List ℤ) (message : MessageAttribution)
      → ledger (update_take_profits c settings text now t tps message).trade ≡ ledger t
  unfolding update_take_profits record_message
  ledger-update_take_profits now t tps message =
      elim (Bool-cases (is_empty (sanitize_take_profits c tps t.side t.entry_price t.stop_loss))) [
        | inl nothing ↦ rw nothing (ledger-add_attribution now _ _)
        | inr some_left ↦ rw some_left (ledger-add_attribution now _ _)
      ]

  ledger-update_leverage :
      (now : ℕ) (t : LiveTrade) (leverage : Option ℕ) (message : MessageAttribution)
      → ledger (update_leverage c settings text now t leverage message).trade ≡ ledger t
  unfolding update_leverage record_message
  ledger-update_leverage now t none message = refl
  ledger-update_leverage now t (some n) message = elim (Bool-cases (n == 0)) [
    | inl nothing ↦ rw nothing refl
    | inr something ↦ rw something (ledger-add_attribution now _ _)
  ]

  ledger-rebase_stop :
      (t : LiveTrade) (strategy : TradeStrategy) {r : LiveTrade × List Note}
      → rebase_stop c settings t strategy ≡ ok r
      → ledger r.0 ≡ ledger t
  ledger-rebase_stop t strategy h =
      let (s, risk, _, _, _, moved) = rebase_stop-eq-ok c settings t strategy h in rw moved refl

  ledger-rebase :
      (t : LiveTrade) (strategy : TradeStrategy)
      → ledger (rebase_trade_protection_after_entry_fill c settings t strategy).0 ≡ ledger t
  unfolding rebase_trade_protection_after_entry_fill
  ledger-rebase t strategy =
      elim (Bool-cases (leb_ℤ t.entry_price zero_d || leb_ℤ t.remaining_quantity zero_d)) [
        | inl unfilled ↦ rw unfilled refl
        | inr filled ↦ elim (Result-cases (rebase_stop c settings t strategy)) [
          | inr (e, failed) ↦ rw (filled, failed) refl
          | inl ((stopped, notes), moved) ↦
              let same = ledger-rebase_stop t strategy moved in
              elim (Bool-cases (is_empty (rebase_targets c settings stopped strategy).0)) [
                | inl nothing ↦ rw (filled, moved, nothing) same
                | inr some_left ↦ rw (filled, moved, some_left) same
              ]
        ]
      ]

  -- The trade after a call at a time, with the reading of the clock for `closed_at`.
  unfoldable pub manage : ℕ → ℕ → ManagerCall → LiveTrade → LiveTrade
  manage closed_at now (set_stop new_sl message move) t =
      (update_stop_loss c settings text now t new_sl message move).trade
  manage closed_at now (set_targets new_tps message) t =
      (update_take_profits c settings text now t new_tps message).trade
  manage closed_at now (set_leverage new_leverage message) t =
      (update_leverage c settings text now t new_leverage message).trade
  manage closed_at now (mark price fee) t = apply_mark_price c t price fee
  manage closed_at now (rebase strategy) t =
      (rebase_trade_protection_after_entry_fill c settings t strategy).0
  manage closed_at now (close_part fraction price reason fee message is_tp_hit) t =
      (apply_partial_close c text closed_at now t fraction price reason fee message is_tp_hit).trade
  manage closed_at now (close_all price reason fee message) t =
      (close_trade c text closed_at now t price reason fee message).trade

  -- Calls in sequence, each with its two readings of the clock.
  unfoldable pub manage_all : List (ℕ × ℕ × ManagerCall) → LiveTrade → LiveTrade
  manage_all [] t = t
  manage_all ((closed_at, now, call) ∷ calls) t = manage_all calls (manage closed_at now call t)

  -- Only a close changes the ledger.
  pub ledger-manage :
      (closed_at now : ℕ) (call : ManagerCall) (t : LiveTrade)
      → is_close call ≡ false
      → ledger (manage closed_at now call t) ≡ ledger t
  unfolding manage is_close apply_mark_price
  ledger-manage closed_at now (set_stop new_sl message move) t h =
      ledger-update_stop_loss now t new_sl message move
  ledger-manage closed_at now (set_targets tps message) t h =
      ledger-update_take_profits now t tps message
  ledger-manage closed_at now (set_leverage leverage message) t h =
      ledger-update_leverage now t leverage message
  ledger-manage closed_at now (mark price fee) t h = refl
  ledger-manage closed_at now (rebase strategy) t h = ledger-rebase t strategy
  ledger-manage closed_at now (close_part _ _ _ _ _ _) t h = cc
  ledger-manage closed_at now (close_all _ _ _ _) t h = cc
