-- ===== src/LiveTrading/Coordinator/Capped.antt =====
-- What the symbol risk cap leaves of a new trade, next to the legs on its side.
use triak_trade.Base.{
  ◌≡◌, ap, sym, ◌∙◌, ◌⊎◌, inl, inr, true, Option-cases, Bool-cases, List, map, subst, arith, ok,
  Result-cases,
}
use triak_trade.Base.Int.{
  ℤ, pos, ◌*ℤ◌, ◌-ℤ◌, *ℤ_parts, eq_of_parts, abs_ℕ, ◌≤ℤ◌, ◌<ℤ◌, leb_ℤ, max_ℤ, int_laws,
}
use triak_trade.Base.Text.{Str}
use triak_trade.Decimal.Round.{unit}
use triak_trade.Decimal.{
  Context, round_over, sub, mul, div, percent, sum, zero_d, round_over_zero, round_over_mono,
}
use triak_trade.LiveTrading.Models.{LiveTrade}
use triak_trade.LiveTrading.Coordinator.Defs.{AccountTradeLeg, Coordinator}
use triak_trade.LiveTrading.Coordinator.Risk.{
  apply_symbol_risk_cap, available_risk, leg_stop_risk, stop_risk_per_unit, find_duplicate,
}
use triak_trade.LiveTrading.Coordinator.Select.{same_side_legs}
use triak_trade.LiveTrading.Coordinator.Open.{
  open_action, duplicate, AccountOpenDecision, decision, CloseHandler, Account,
  same_direction_blocks, finish_approval, approve, open_residual,
}
use triak_trade.LiveTrading.Coordinator.Decisions.{approve-IsApproved, apply_symbol_risk_cap-capped}

div_zero : (c : Context) (d : ℤ) → pos 1 ≤ℤ d → div c zero_d d ≡ zero_d
unfolding div
div_zero c d h =
    let none_left : zero_d *ℤ pos (unit c) ≡ pos 0 =
      eq_of_parts (zero_d *ℤ pos (unit c)) (pos 0)
        (omega (arith, *ℤ_parts zero_d (pos (unit c)))) in
    let positive : leb_ℤ (pos 1) d ≡ true = ground arith in
    rw (positive, none_left) (round_over_zero c (abs_ℕ d) (omega arith))

sub-le_zero : (c : Context) (a b : ℤ) → a ≤ℤ b → sub c a b ≤ℤ zero_d
unfolding sub
sub-le_zero c a b h =
    subst (λ (z : ℤ). round_over c (a -ℤ b) 1 ≤ℤ z) (round_over_zero c 1 (omega arith))
      (round_over_mono c (a -ℤ b) (pos 0) 1 (omega arith) (omega int_laws))

-- What the cap allows the account to lose on the symbol, and what the legs may already lose.
abbrev pub budget_of : Context → Coordinator → LiveTrade → ℤ
budget_of c s trade = percent c (mul c trade.balance_at_entry s.symbol_risk_cap_pct)

abbrev pub spent_by : Context → Coordinator → List AccountTradeLeg → ℤ
spent_by c s legs = sum c (map (leg_stop_risk c s) legs)

-- A quantity is within the cap: the legs leave something of the budget, a unit of the trade can lose something,
-- and the quantity is at most what is left over what a unit can lose.
pub record IsWithinCap (c : Context) (s : Coordinator) (trade : LiveTrade)
    (legs : List AccountTradeLeg) (quantity : ℤ) : Type 0 where
  pub left : spent_by c s legs <ℤ budget_of c s trade
  pub risky : pos 1 ≤ℤ stop_risk_per_unit c s trade.side trade.entry_price trade.stop_loss
  pub at_most :
      quantity
      ≤ℤ div c
          (sub c (budget_of c s trade) (spent_by c s legs))
          (stop_risk_per_unit c s trade.side trade.entry_price trade.stop_loss)

capped-IsWithinCap :
    (c : Context) (s : Coordinator) (trade : LiveTrade) (legs : List AccountTradeLeg) (q : ℤ)
    → pos 1 ≤ℤ s.symbol_risk_cap_pct
    → pos 1 ≤ℤ trade.balance_at_entry
    → apply_symbol_risk_cap c s trade legs ≡ ok q
    → pos 1 ≤ℤ q
    → IsWithinCap c s trade legs q
unfolding available_risk
capped-IsWithinCap c s trade legs q cap balance h positive =
    let (risky, bound) = apply_symbol_risk_cap-capped c s trade legs h cap balance in
    let unit_risk = stop_risk_per_unit c s trade.side trade.entry_price trade.stop_loss in
    let free = sub c (budget_of c s trade) (spent_by c s legs) in
    let nothing = div_zero c unit_risk risky in
    elim (Bool-cases (leb_ℤ free zero_d)) [
      | inl gone ↦
          let none_left : max_ℤ free zero_d ≡ zero_d = ground arith in
          absurd (let r = rw (none_left, nothing) at bound in omega arith)
      | inr some_left ↦
          let all : max_ℤ free zero_d ≡ free = ground arith in
          let spent = sub-le_zero c (budget_of c s trade) (spent_by c s legs) in
          record { left = ground arith; risky = risky; at_most = rw all at bound }
    ]

-- An approved quantity is the one that the cap gave.
finish_approval-quantity :
    (c : Context) (close : CloseHandler) (mode : Str) (original offset q : ℤ) (a : Account)
    {d : AccountOpenDecision} {a' : Account}
    → finish_approval c close mode original offset q a ≡ (ok d, a')
    → d.approved_quantity ≡ q
unfolding finish_approval decision
finish_approval-quantity c close mode original offset q a e = ground arith

approve-quantity :
    (c : Context) (close : CloseHandler) (mode : Str) (original offset : ℤ)
    (legs : List AccountTradeLeg) (a : Account) {d : AccountOpenDecision} {a' : Account}
    → approve c close mode original offset legs a ≡ (ok d, a')
    → apply_symbol_risk_cap c a.coordinator a.trade legs ≡ ok d.approved_quantity
unfolding approve
approve-quantity c close mode original offset legs a e =
    elim (Bool-cases (same_direction_blocks a.coordinator.same_direction_policy legs)) [
      | inl blocked ↦ cc (rw (approve, blocked) at e)
      | inr free ↦ elim (Result-cases (apply_symbol_risk_cap c a.coordinator a.trade legs)) [
        | inl (q, capped) ↦
            let same =
              finish_approval-quantity c close mode original offset q a
                (rw (approve, free, capped) at e) in
            capped ∙ ap ok (sym same)
        | inr (f, refused) ↦ cc (rw (approve, free, refused) at e)
      ]
    ]

-- Under a positive symbol risk cap and for a trade with a positive balance, once netting has left `a`, a decision
-- that is returned calls the trade a duplicate, or opens it within the cap: the risk of the legs on its side is
-- below the budget, a unit of the trade can lose something at its stop, and the approved quantity is at most the
-- rest of the budget over the loss of a unit.
pub open_residual-IsWithinCap :
    (c : Context) (close : CloseHandler) (mode : Str) (original offset : ℤ) (a : Account)
    {d : AccountOpenDecision} {a' : Account}
    → pos 1 ≤ℤ a.coordinator.symbol_risk_cap_pct
    → pos 1 ≤ℤ a.trade.balance_at_entry
    → open_residual c close mode original offset a ≡ (ok d, a')
    → (d.action ≡ duplicate)
      ⊎ ((d.action ≡ open_action)
          × (a'.trade.quantity ≡ d.approved_quantity)
          × IsWithinCap c a.coordinator a.trade
              (same_side_legs c mode a.trade a.coordinator)
              d.approved_quantity)
unfolding open_residual decision
open_residual-IsWithinCap c close mode original offset a {d} {a'} cap balance e =
    let legs = same_side_legs c mode a.trade a.coordinator in
    elim (Option-cases (find_duplicate c a.coordinator a.trade legs)) [
      | inr (leg, found) ↦ inl (let named = rw (found, open_residual) at e in ground arith)
      | inl missing ↦
          let run = rw (missing, open_residual) at e in
          let r = approve-IsApproved c close mode original offset legs a run in
          inr (
            r.action,
            r.written,
            capped-IsWithinCap c a.coordinator a.trade legs d.approved_quantity cap balance
                (approve-quantity c close mode original offset legs a run) r.positive,
          )
    ]
