-- ===== src/LiveTrading/Positions/Rebase.antt =====
-- What the new protection of a trade is after its entry has filled.
use triak_trade.Base.{
  ◌≡◌, refl, sym, ap, ◌∙◌, subst, Bool, true, false, ◌&&◌, ◌||◌, if◌then◌else◌, Bool-cases, inl,
  inr, Option, some, is_some, List, [], arith, Result-cases, ok, ok-injective,
}
use triak_trade.Base.Int.{ℤ, pos, ◌≤ℤ◌, leb_ℤ}
use triak_trade.Decimal.{Context, zero_d}
use triak_trade.StopLoss.{StopLossRiskResult}
use triak_trade.Strategies.{TradeStrategy}
use triak_trade.LiveTrading.Models.{LiveTrade}
use triak_trade.LiveTrading.Positions.Targets.{Note, is_empty, side_of}
use triak_trade.LiveTrading.Positions.Sizing.{Settings, checked, clamp_stop_loss}
use triak_trade.LiveTrading.Positions.Protection.{
  is_stop_side, or_stop, fill_stop, rebase_stop, rebase_targets,
  rebase_trade_protection_after_entry_fill,
}
use triak_trade.LiveTrading.Positions.Stops.{side_of-is_direction}
use triak_trade.LiveTrading.Positions.Risk.{IsWithin, clamp-IsWithin}

module _ (c : Context) (settings : Settings) where
  -- The stop that was found, its risk, and what was written.
  pub rebase_stop-eq-ok :
      (t : LiveTrade) (strategy : TradeStrategy) {r : LiveTrade × List Note}
      → rebase_stop c settings t strategy ≡ ok r
      → (s : ℤ × List Note) × (risk : StopLossRiskResult) × (fill_stop c settings t strategy
            (or_stop t.requested_stop_loss t.stop_loss)
          ≡ ok s)
        × (clamp_stop_loss c settings
              (side_of t.side)
              t.entry_price
              s.0
              t.remaining_quantity
              t.balance_at_entry
            ≡ ok risk)
        × ((is_some t.requested_stop_loss && risk.was_capped) ≡ false)
        × (r.0 ≡ record t {
          stop_loss = some (if is_some t.requested_stop_loss then s.0 else risk.stop_loss);
        })
  unfolding rebase_stop checked
  rebase_stop-eq-ok t strategy {r} h =
      elim (Result-cases
        (fill_stop c settings t strategy (or_stop t.requested_stop_loss t.stop_loss))) [
          | inr (e, failed) ↦ cc (rw (failed, rebase_stop) at h)
          | inl (s, found) ↦
              elim (Result-cases (
                clamp_stop_loss c settings (side_of t.side) t.entry_price s.0 t.remaining_quantity
                  t.balance_at_entry)) [
                    | inr (e, failed) ↦ cc (rw (found, failed, rebase_stop) at h)
                    | inl (risk, clamped) ↦
                        elim (Bool-cases (is_some t.requested_stop_loss && risk.was_capped)) [
                          | inl unsafe ↦ cc (rw (found, clamped, unsafe, rebase_stop) at h)
                          | inr safe ↦
                              let same = rw (found, clamped, safe, rebase_stop) at h in
                              (
                                s,
                                risk,
                                found,
                                clamped,
                                safe,
                                sym (ap (λ (x : LiveTrade × List Note). x.0) (ok-injective same)),
                              )
                        ]
                  ]
        ]

and_right : (a b : Bool) → (a && b) ≡ false → a ≡ true → b ≡ false
and_right a b h e = ground arith

if_true : {A : Type 0} (a : Bool) (x y : A) → a ≡ true → (if a then x else y) ≡ x
if_true a x y e = rw e refl

fill_stop_requested :
    (c : Context) (settings : Settings) (t : LiveTrade) (strategy : TradeStrategy)
    (o stop : Option ℤ) (s : ℤ)
    → o ≡ some s
    → is_stop_side t s ≡ true
    → fill_stop c settings t strategy (or_stop o stop) ≡ ok (s, [])
unfolding fill_stop or_stop
fill_stop_requested c settings t strategy o stop s e side = rw (e, side, or_stop, fill_stop) refl

stop_side-positive : (t : LiveTrade) (s : ℤ) → is_stop_side t s ≡ true → pos 1 ≤ℤ s
unfolding is_stop_side
stop_side-positive t s h = ground arith

-- The requested stop `s` is kept, within the budget.
abbrev IsRequested : Context → Settings → LiveTrade → Option ℤ → ℤ → Type 0
IsRequested c settings t stop s =
    (stop ≡ some s)
    × IsWithin c settings (side_of t.side) t.entry_price s t.remaining_quantity t.balance_at_entry

rebase_stop-IsRequested :
    (c : Context) (settings : Settings) (t : LiveTrade) (strategy : TradeStrategy)
    {r : LiveTrade × List Note} (s : ℤ)
    → rebase_stop c settings t strategy ≡ ok r
    → t.requested_stop_loss ≡ some s
    → is_stop_side t s ≡ true
    → pos 1 ≤ℤ t.entry_price
    → pos 1 ≤ℤ t.remaining_quantity
    → pos 1 ≤ℤ t.balance_at_entry
    → IsRequested c settings t (r.0).stop_loss s
rebase_stop-IsRequested c settings t strategy {r} s h asked side he hq hb =
    let (u, risk, found, clamped, safe, after) = rebase_stop-eq-ok c settings t strategy h in
    let given = ap is_some asked in
    let same = ok-injective (
      sym found
      ∙ fill_stop_requested c settings t strategy t.requested_stop_loss t.stop_loss s asked side) in
    let stop : u.0 ≡ s = ap (λ (x : ℤ × List Note). x.0) same in
    (
      ap (λ (x : LiveTrade). x.stop_loss) after
          ∙ ap some (if_true (is_some t.requested_stop_loss) u.0 risk.stop_loss given ∙ stop),
      clamp-IsWithin c settings (side_of t.side) t.entry_price t.balance_at_entry s
          t.remaining_quantity
          (subst
            (λ (x : ℤ).
              clamp_stop_loss c settings (side_of t.side) t.entry_price x t.remaining_quantity
                t.balance_at_entry
              ≡ ok risk)
            stop clamped)
          (and_right (is_some t.requested_stop_loss) risk.was_capped safe given)
          (side_of-is_direction t.side) he (stop_side-positive t s side) hq hb,
    )

-- The trade's protection after the call.
pub record IsProtected (c : Context) (settings : Settings) (t after : LiveTrade) : Type 0 where
  pub positive : (pos 1 ≤ℤ t.entry_price) × (pos 1 ≤ℤ t.remaining_quantity)
  pub stopped : is_some after.stop_loss ≡ true
  pub targets : (is_empty after.take_profits ≡ false) × (after.targets_hit ≡ 0)
  pub requested :
      (s : ℤ)
      → t.requested_stop_loss ≡ some s
      → is_stop_side t s ≡ true
      → pos 1 ≤ℤ t.balance_at_entry
      → (after.stop_loss ≡ some s)
        × IsWithin c settings
            (side_of t.side)
            t.entry_price
            s
            t.remaining_quantity
            t.balance_at_entry

-- Protection is only rebuilt for a trade with a positive entry price and a positive rest, whether or not its
-- entry has filled. When the call returns, the trade has a stop and at least one target, with none counted
-- as hit. A requested stop above zero and on the losing side of the
-- entry price is kept, and loses no more than the settings allow when the balance is positive.
pub rebase-IsProtected :
    (c : Context) (settings : Settings) (t : LiveTrade) (strategy : TradeStrategy)
    (notes : List Note)
    → let result = rebase_trade_protection_after_entry_fill c settings t strategy in
      result.1 ≡ ok notes → IsProtected c settings t result.0
unfolding rebase_trade_protection_after_entry_fill
rebase-IsProtected c settings t strategy notes h =
    elim (Bool-cases (leb_ℤ t.entry_price zero_d || leb_ℤ t.remaining_quantity zero_d)) [
      | inl unfilled ↦ cc (rw (unfilled, rebase_trade_protection_after_entry_fill) at h)
      | inr filled ↦ elim (Result-cases (rebase_stop c settings t strategy)) [
        | inr (f, failed) ↦ cc (rw (filled, failed, rebase_trade_protection_after_entry_fill) at h)
        | inl ((stopped, stop_notes), moved) ↦
            let (_, _, _, _, _, after) = rebase_stop-eq-ok c settings t strategy moved in
            elim (Bool-cases (is_empty (rebase_targets c settings stopped strategy).0)) [
              | inl nothing ↦
                  cc (rw (filled, moved, nothing, rebase_trade_protection_after_entry_fill) at h)
              | inr some_left ↦
                  rw (filled, moved, some_left, rebase_trade_protection_after_entry_fill)
                    (record {
                      positive = (ground arith, ground arith);
                      stopped = ap (λ (x : LiveTrade). is_some x.stop_loss) after;
                      targets = (some_left, refl);
                      requested = λ s asked side hb.
                          rebase_stop-IsRequested c settings t strategy s moved asked side
                            (ground arith) (ground arith) hb;
                    })
            ]
      ]
    ]
