-- ===== src/LiveTrading/Coordinator/Decisions.antt =====
-- What a decision on a new trade promises.
use triak_trade.Base.{
  ◌≡◌, ◌≢◌, sym, ◌⊎◌, inl, inr, Bool, true, false, Option, none, some, Option-cases, Bool-cases,
  List, [], ◌∷◌, subst, arith, Result, ok, err, Result-cases,
}
use triak_trade.Base.Int.{ℤ, pos, ◌≤ℤ◌, leb_ℤ, max_ℤ, eq_of_parts}
use triak_trade.Base.Text.{Str}
use triak_trade.Decimal.{Context, sub, div, zero_d}
use triak_trade.LiveTrading.Models.{LiveTrade}
use triak_trade.LiveTrading.Coordinator.Defs.{AccountTradeLeg, AccountPositionPolicy, Coordinator}
use triak_trade.LiveTrading.Coordinator.Queries.{bucket_block_reason}
use triak_trade.LiveTrading.Coordinator.Risk.{
  ConflictError, bucket_blocked, quantity_not_positive, apply_symbol_risk_cap, available_risk,
  stop_risk_per_unit, find_duplicate,
}
use triak_trade.LiveTrading.Coordinator.Select.{same_side_legs, opposite_legs}
use triak_trade.LiveTrading.Coordinator.Open.{
  open_action, netted, duplicate, AccountOpenDecision, decision, CloseHandler, Account, Action,
  ◌>>=◌, ◌>>◌, raise_if, set_quantity, same_direction_blocks, raise_blocked, finish_approval,
  approve, open_residual, after_netting, net_opposite_legs, unless_opposite, apply_policy,
  coordinate_open,
}
use triak_trade.LiveTrading.Coordinator.Blocks.{IsBlocked, IsBlocked-reason}

-- A trade of a positive quantity in a blocked bucket is refused with the text of the bucket's block, which
-- is not empty, and nothing changes: neither the trade nor the coordinator, and no close callback runs.
pub blocked_open :
    (c : Context) (close : CloseHandler) (mode : Str) (a : Account)
    → pos 1 ≤ℤ a.trade.quantity
    → IsBlocked a.trade mode a.coordinator
    → (reason : Str) × (bucket_block_reason a.trade mode a.coordinator ≡ some reason)
      × (reason ≢ [])
      × (coordinate_open c close mode a ≡ (err (bucket_blocked reason), a))
unfolding coordinate_open
blocked_open c close mode a h b =
    let (x, r, e) = IsBlocked-reason a.trade mode a.coordinator b in
    let positive : leb_ℤ a.trade.quantity zero_d ≡ false = ground arith in
    (x ∷ r, e, λ h. cc h, rw (positive, e))

-- The cap never enlarges a trade.
pub apply_symbol_risk_cap-le :
    (c : Context) (s : Coordinator) (trade : LiveTrade) (legs : List AccountTradeLeg) {q : ℤ}
    → apply_symbol_risk_cap c s trade legs ≡ ok q
    → q ≤ℤ trade.quantity
unfolding apply_symbol_risk_cap
apply_symbol_risk_cap-le c s trade legs e = ground arith

-- With a positive cap and balance, an approved quantity is at most what the free risk pays for.
pub apply_symbol_risk_cap-capped :
    (c : Context) (s : Coordinator) (trade : LiveTrade) (legs : List AccountTradeLeg) {q : ℤ}
    → apply_symbol_risk_cap c s trade legs ≡ ok q
    → pos 1 ≤ℤ s.symbol_risk_cap_pct
    → pos 1 ≤ℤ trade.balance_at_entry
    → let unit_risk = stop_risk_per_unit c s trade.side trade.entry_price trade.stop_loss in
      (pos 1 ≤ℤ unit_risk) × (q ≤ℤ div c (available_risk c s trade.balance_at_entry legs) unit_risk)
unfolding apply_symbol_risk_cap
apply_symbol_risk_cap-capped c s trade legs e has_cap balance =
    let same : max_ℤ trade.balance_at_entry zero_d ≡ trade.balance_at_entry = ground arith in
    let limited : leb_ℤ s.symbol_risk_cap_pct zero_d ≡ false = ground arith in
    let funded : leb_ℤ trade.balance_at_entry zero_d ≡ false = ground arith in
    let tested = rw (apply_symbol_risk_cap, same, limited, funded) at e in ground arith

-- An approval sets the trade's quantity to the approved one.
pub record IsApproved (original offset : ℤ) (a a' : Account) (d : AccountOpenDecision)
    : Type 0 where
  pub asked : d.original_quantity ≡ original
  pub netted_off : d.offset_quantity ≡ offset
  pub action : d.action ≡ open_action
  pub unnamed : d.duplicate_trade_id ≡ none
  pub positive : pos 1 ≤ℤ d.approved_quantity
  pub not_more : d.approved_quantity ≤ℤ a.trade.quantity
  pub written : a'.trade.quantity ≡ d.approved_quantity
  pub same_coordinator : a'.coordinator ≡ a.coordinator

finish_approval-IsApproved :
    (c : Context) (close : CloseHandler) (mode : Str) (original offset q : ℤ) (a : Account)
    {d : AccountOpenDecision} {a' : Account}
    → q ≤ℤ a.trade.quantity
    → finish_approval c close mode original offset q a ≡ (ok d, a')
    → IsApproved original offset a a' d
unfolding finish_approval decision
finish_approval-IsApproved c close mode original offset q a h e =
    ground (arith, eq_of_parts a.trade.quantity q)

pub approve-IsApproved :
    (c : Context) (close : CloseHandler) (mode : Str) (original offset : ℤ)
    (legs : List AccountTradeLeg) (a : Account) {d : AccountOpenDecision} {a' : Account}
    → approve c close mode original offset legs a ≡ (ok d, a')
    → IsApproved original offset a a' d
unfolding approve
approve-IsApproved c close mode original offset legs a e =
    elim (Bool-cases (same_direction_blocks a.coordinator.same_direction_policy legs)) [
      | inl blocked ↦ cc (rw (approve, blocked) at e)
      | inr free ↦ elim (Result-cases (apply_symbol_risk_cap c a.coordinator a.trade legs)) [
        | inl (q, capped) ↦
            let less = apply_symbol_risk_cap-le c a.coordinator a.trade legs capped in
            finish_approval-IsApproved c close mode original offset q a less
              (rw (approve, free, capped) at e)
        | inr (f, refused) ↦ cc (rw (approve, free, refused) at e)
      ]
    ]

-- What every decision says: how much was asked, and what became of it. `most` is the quantity that
-- was left to open.
pub record IsDecision (original offset most : ℤ) (a' : Account) (d : AccountOpenDecision)
    : Type 0 where
  pub asked : d.original_quantity ≡ original
  pub netted_off : d.offset_quantity ≡ offset
  pub outcome :
      ((d.action ≡ open_action)
        × (pos 1 ≤ℤ d.approved_quantity)
        × (d.approved_quantity ≤ℤ most)
        × (a'.trade.quantity ≡ d.approved_quantity))
      ⊎ ((d.action ≡ duplicate) × (d.approved_quantity ≡ pos 0))
      ⊎ ((d.action ≡ netted) × (d.approved_quantity ≡ pos 0))

open_residual-IsDecision :
    (c : Context) (close : CloseHandler) (mode : Str) (original offset : ℤ) (a : Account)
    {d : AccountOpenDecision} {a' : Account}
    → open_residual c close mode original offset a ≡ (ok d, a')
    → IsDecision original offset a.trade.quantity a' d
unfolding open_residual decision
open_residual-IsDecision c close mode original offset a e =
    let legs = same_side_legs c mode a.trade a.coordinator in
    elim (Option-cases (find_duplicate c a.coordinator a.trade legs)) [
      | inl none_found ↦
          let r =
            approve-IsApproved c close mode original offset legs a
              (rw (none_found, open_residual) at e) in
          record {
            asked = r.asked;
            netted_off = r.netted_off;
            outcome = inl (r.action, r.positive, r.not_more, r.written);
          }
      | inr (leg, found) ↦ let named = rw (found, open_residual) at e in ground arith
    ]

-- What is left to open: under the net policy the part that was not netted off.
abbrev pub most_left : Context → AccountPositionPolicy → ℤ → ℤ → ℤ
most_left c AccountPositionPolicy.net original offset = max_ℤ (sub c original offset) zero_d
most_left c _ original offset = original

-- A decision under a policy, with the offset of the netted legs.
abbrev pub Decides : Context → AccountPositionPolicy → ℤ → Account → AccountOpenDecision → Type 0
Decides c policy original a' d =
    IsDecision original d.offset_quantity (most_left c policy original d.offset_quantity) a' d

-- A decision with a known offset is one with its own.
own_offset :
    (c : Context) (policy : AccountPositionPolicy) (original offset : ℤ) {d : AccountOpenDecision}
    {a' : Account}
    → IsDecision original offset (most_left c policy original offset) a' d
    → Decides c policy original a' d
own_offset c policy original offset {d} {a'} r =
    subst (λ o. IsDecision original o (most_left c policy original o) a' d) (sym r.netted_off) r

net-Decides :
    (c : Context) (close : CloseHandler) (mode : Str) (original offset : ℤ) (a : Account)
    {d : AccountOpenDecision} {a' : Account}
    → after_netting c close mode original offset a ≡ (ok d, a')
    → Decides c AccountPositionPolicy.net original a' d
unfolding after_netting set_quantity decision
net-Decides c close mode original offset a e =
    elim (Bool-cases (leb_ℤ (max_ℤ (sub c original offset) zero_d) zero_d)) [
      | inl all_netted ↦ let done = rw (all_netted, after_netting) at e in ground arith
      | inr some_left ↦ own_offset c AccountPositionPolicy.net original offset (
          open_residual-IsDecision c close mode original offset
            (set_quantity (max_ℤ (sub c original offset) zero_d) a).1
            (rw (some_left, after_netting) at e))
    ]

residual-Decides :
    (c : Context) (close : CloseHandler) (mode : Str) (a : Account) {d : AccountOpenDecision}
    {a' : Account}
    → open_residual c close mode a.trade.quantity zero_d a ≡ (ok d, a')
    → IsDecision a.trade.quantity d.offset_quantity a.trade.quantity a' d
residual-Decides c close mode a {d} {a'} e =
    let r = open_residual-IsDecision c close mode a.trade.quantity zero_d a e in
    subst (λ o. IsDecision a.trade.quantity o a.trade.quantity a' d) (sym r.netted_off) r

unless_opposite-Decides :
    (c : Context) (close : CloseHandler) (mode : Str) (legs : List AccountTradeLeg) (a : Account)
    {d : AccountOpenDecision} {a' : Account}
    → unless_opposite c close mode a.trade.quantity legs a ≡ (ok d, a')
    → IsDecision a.trade.quantity d.offset_quantity a.trade.quantity a' d
unfolding unless_opposite
unless_opposite-Decides c close mode [] a e = residual-Decides c close mode a e
unless_opposite-Decides c close mode (_ ∷ _) a e = cc

-- The second of two steps ran from where the first returned.
bind-passed :
    {A B : Type 0} (m : Result ConflictError A × Account) (f : A → Action B) {d : B} {a' : Account}
    → ((λ a. m) >>= f) m.1 ≡ (ok d, a')
    → (x : A) × (f x m.1 ≡ (ok d, a'))
bind-passed (ok x, a1) f e = (x, e)
bind-passed (err _, a1) f e = cc

policy-Decides :
    (c : Context) (close : CloseHandler) (mode : Str) (policy : AccountPositionPolicy) (a : Account)
    {d : AccountOpenDecision} {a' : Account}
    → apply_policy c close mode policy a.trade.quantity a ≡ (ok d, a')
    → Decides c policy a.trade.quantity a' d
unfolding apply_policy
policy-Decides c close mode AccountPositionPolicy.hedge a e = residual-Decides c close mode a e
policy-Decides c close mode AccountPositionPolicy.block a e =
    unless_opposite-Decides c close mode (opposite_legs c mode a.trade a.coordinator) a e
policy-Decides c close mode AccountPositionPolicy.net a e =
    let (offset, ran) =
      bind-passed (net_opposite_legs c close mode a) (after_netting c close mode a.trade.quantity)
        e in
    net-Decides c close mode a.trade.quantity offset (net_opposite_legs c close mode a).1 ran

-- A step after a test ran only when the test let it.
raise_if-passed :
    {B : Type 0} (b : Bool) (f : ConflictError) (k : Action B) (a : Account) {d : B} {a' : Account}
    → (raise_if b f >> k) a ≡ (ok d, a')
    → k a ≡ (ok d, a')
raise_if-passed true f k a e = cc
raise_if-passed false f k a e = e

raise_blocked-passed :
    {B : Type 0} (reason : Option Str) (k : Action B) (a : Account) {d : B} {a' : Account}
    → (raise_blocked reason >> k) a ≡ (ok d, a')
    → k a ≡ (ok d, a')
unfolding raise_blocked
raise_blocked-passed none k a e = e
raise_blocked-passed (some []) k a e = e
raise_blocked-passed (some (_ ∷ _)) k a e = cc

-- A decision that is returned names the quantity that was asked for, and approves a positive
-- quantity, which it writes to the trade and which is no more than what was left after netting, or
-- else approves nothing, as a duplicate or as netted off.
pub coordinate_open-Decides :
    (c : Context) (close : CloseHandler) (mode : Str) (a : Account) {d : AccountOpenDecision}
    {a' : Account}
    → coordinate_open c close mode a ≡ (ok d, a')
    → Decides c a.coordinator.position_policy a.trade.quantity a' d
unfolding coordinate_open
coordinate_open-Decides c close mode a e =
    let policy = apply_policy c close mode a.coordinator.position_policy a.trade.quantity in
    let reason = bucket_block_reason a.trade mode a.coordinator in
    policy-Decides c close mode a.coordinator.position_policy a (
      raise_blocked-passed reason policy a (
        raise_if-passed (leb_ℤ a.trade.quantity zero_d) quantity_not_positive
          (raise_blocked reason >> policy) a e))
