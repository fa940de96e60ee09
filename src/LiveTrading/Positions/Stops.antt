-- ===== src/LiveTrading/Positions/Stops.antt =====
-- What `update_stop_loss` does with a requested stop.
use triak_trade.Base.{
  ℕ, ◌≡◌, refl, ap, subst, ◌⊎◌, inl, inr, true, false, Bool-cases, Option, some, Result,
  Result-cases, ok,
}
use triak_trade.Base.Int.{ℤ, pos, ◌≤ℤ◌}
use triak_trade.Base.Text.{Str, codes}
use triak_trade.Decimal.{Context}
use triak_trade.Domain.{is_direction}
use triak_trade.StopLoss.{StopLossRiskResult}
use triak_trade.LiveTrading.Models.{LiveTrade, MessageAttribution}
use triak_trade.LiveTrading.History.{add_attribution-stop_loss}
use triak_trade.LiveTrading.Positions.Targets.{Note, is_long_text, side_of}
use triak_trade.LiveTrading.Positions.Sizing.{Settings}
use triak_trade.LiveTrading.Positions.Updates.{
  append_note, record_message, clamp_trade_stop_loss, set_new_stop, update_stop_loss,
}
use triak_trade.LiveTrading.Positions.Risk.{IsWithin, clamp-IsWithin}

pub side_of-is_direction : (side : Str) → is_direction (side_of side) ≡ true
unfolding side_of is_direction
side_of-is_direction side = elim (Bool-cases (is_long_text side)) [
  | inl long ↦ rw long refl
  | inr short ↦ rw short refl
]

-- The trade can lose something: its entry price, its rest and its balance are positive.
pub record IsExposed (t : LiveTrade) : Type 0 where
  pub entry : pos 1 ≤ℤ t.entry_price
  pub rest : pos 1 ≤ℤ t.remaining_quantity
  pub balance : pos 1 ≤ℤ t.balance_at_entry

trade-IsWithin :
    (c : Context) (settings : Settings) (t : LiveTrade) (stop : ℤ) {r : StopLossRiskResult}
    → IsExposed t
    → pos 1 ≤ℤ stop
    → clamp_trade_stop_loss c settings t stop ≡ ok r
    → r.was_capped ≡ false
    → IsWithin c settings
        (side_of t.side)
        t.entry_price
        stop
        t.remaining_quantity
        t.balance_at_entry
unfolding clamp_trade_stop_loss
trade-IsWithin c settings t stop x positive run kept =
    clamp-IsWithin c settings (side_of t.side) t.entry_price t.balance_at_entry stop
      t.remaining_quantity run kept (side_of-is_direction t.side) x.entry positive x.rest x.balance

same_value :
    {A : Type 0} {E : Type 0} {a b : A}
    → ◌≡◌ {A = Result E (Option A)} (ok (some a)) (ok (some b))
    → a ≡ b
same_value {a = a} h = ap (λ r. elim r [ ok (some x) ↦ x | _ ↦ a ]) h

abbrev IsCapped : StopLossRiskResult → Type 0
IsCapped r = r.was_capped ≡ true

abbrev IsKept : StopLossRiskResult → Type 0
IsKept r = r.was_capped ≡ false

-- The stop is set when it is within the budget, and otherwise the trade keeps its own and the message
-- is ignored.
pub record IsAnswered (c : Context) (settings : Settings) (t : LiveTrade) (stop : ℤ)
    (after : LiveTrade) (message : MessageAttribution) (risk : StopLossRiskResult) : Type 0 where
  pub outcome :
      ((risk.was_capped ≡ false)
        × (after.stop_loss ≡ some stop)
        × IsWithin c settings
            (side_of t.side)
            t.entry_price
            stop
            t.remaining_quantity
            t.balance_at_entry)
      ⊎ ((risk.was_capped ≡ true)
          × (after.stop_loss ≡ t.stop_loss)
          × (message.action ≡ codes "ignored"))

-- For a trade whose entry price, rest and balance at the entry are positive, and an update that returns: a
-- positive stop that a message asks for is only set when the trade loses no more at it than the settings
-- allow; otherwise the trade keeps its stop and the message is marked as ignored. Of a trade with no balance at the
-- entry nothing is said.
pub update_stop_loss-IsAnswered :
    (c : Context) (settings : Settings) (text : Note → Str) (now : ℕ) (t : LiveTrade) (new_sl : ℤ)
    (message : MessageAttribution) {risk : StopLossRiskResult}
    → IsExposed t
    → pos 1 ≤ℤ new_sl
    → let outcome = update_stop_loss c settings text now t (some new_sl) message false in
      outcome.value ≡ ok (some risk)
      → IsAnswered c settings t new_sl outcome.trade outcome.message risk
unfolding update_stop_loss set_new_stop record_message append_note
update_stop_loss-IsAnswered c settings text now t stop message {risk} x positive h =
    elim (Result-cases (clamp_trade_stop_loss c settings t stop)) [
      | inr (e, failed) ↦ cc (rw (failed, set_new_stop) at h)
      | inl (r, clamped) ↦ elim (Bool-cases r.was_capped) [
        | inl capped ↦
            let same = same_value (rw (clamped, capped, set_new_stop) at h) in
            rw (clamped, capped, set_new_stop)
              (record {
                outcome = inr (subst IsCapped same refl, add_attribution-stop_loss now _ t, refl);
              })
        | inr kept ↦
            let same = same_value (rw (clamped, kept, set_new_stop) at h) in
            rw (clamped, kept, set_new_stop)
              (record {
                outcome = inl (
                  subst IsKept same refl,
                  add_attribution-stop_loss now _ _,
                  trade-IsWithin c settings t stop x positive clamped kept,
                );
              })
      ]
    ]
