-- ===== src/LiveTrading/Coordinator/Open.antt =====
-- `coordinate_open`: the decision on a new trade. The engine's close callback runs while the decision
-- is made, and may change the coordinator; it is a parameter, a function of the handle, the trade,
-- the quantity, the reason and the coordinator, and `none` is an exception that it raises. A decision
-- also writes the quantities of the trade, and what is written stays when a later step raises.
use triak_trade.Base.{
  ℕ, Bool, true, false, ◌||◌, if◌then◌else◌, Option, none, some, List, [], ◌∷◌, ◌++◌, Result, ok,
  err,
}
use triak_trade.Base.Int.{ℤ, leb_ℤ, ltb_ℤ, min_ℤ, max_ℤ}
use triak_trade.Base.Text.{Str, codes, str_eq}
use triak_trade.Decimal.{Context, add, sub, zero_d}
use triak_trade.LiveTrading.Models.{LiveTrade, waiting_entry}
use triak_trade.LiveTrading.Coordinator.Defs.{
  AccountTradeLeg, AccountPositionPolicy, SameDirectionPolicy, Coordinator,
}
use triak_trade.LiveTrading.Coordinator.Queries.{bucket_block_reason}
use triak_trade.LiveTrading.Coordinator.Select.{same_side_legs, opposite_legs}
use triak_trade.LiveTrading.Coordinator.Risk.{
  ConflictError, quantity_not_positive, opposite_exposure, opposite_pending, same_direction,
  no_quantity, handler_failed, bucket_blocked, no_owner_engine, not_reduced, apply_symbol_risk_cap,
  find_duplicate,
}

pub data OpenAction : Type 0 where
  open_action netted duplicate : OpenAction

-- `AccountOpenDecision`, without the texts of its notes.
pub record AccountOpenDecision : Type 0 where
  pub action : OpenAction
  pub original_quantity : ℤ
  pub approved_quantity : ℤ
  pub offset_quantity : ℤ
  pub duplicate_trade_id : Option Str

unfoldable pub should_open : AccountOpenDecision → Bool
should_open d = elim d.action [ open_action ↦ ltb_ℤ zero_d d.approved_quantity | _ ↦ false ]

abbrev pub CloseHandler : Type 0
CloseHandler = ℕ → Str → ℤ → Str → Coordinator → Option ℤ × Coordinator

-- What a step has to work on: the coordinator and the trade.
pub record Account : Type 0 where
  pub coordinator : Coordinator
  pub trade : LiveTrade

abbrev pub Action {ℓ} : Type ℓ → Type ℓ
Action A = Account → Result ConflictError A × Account

infixl 5 ◌>>=◌ ◌>>◌
abbrev pub ◌>>=◌ {ℓ κ} : {A : Type ℓ} {B : Type κ} → Action A → (A → Action B) → Action B
◌>>=◌ m f a = let (r, a') = m a in elim r [ ok x ↦ f x a' | err e ↦ (err e, a') ]

abbrev pub ◌>>◌ {ℓ} : {B : Type ℓ} → Action (Unit {0}) → Action B → Action B
m >> k = m >>= λ _. k

abbrev pub pure {ℓ} : {A : Type ℓ} → A → Action A
pure x a = (ok x, a)

abbrev pub raise_if : Bool → ConflictError → Action (Unit {0})
raise_if b e a = (if b then err e else ok tt, a)

abbrev pub lift {ℓ} : {A : Type ℓ} → Result ConflictError A → Action A
lift r a = (r, a)

abbrev pub gets {ℓ} : {A : Type ℓ} → (Account → A) → Action A
gets f a = (ok (f a), a)

-- `trade.quantity = q; trade.remaining_quantity = q`
unfoldable pub set_quantity : ℤ → Action (Unit {0})
set_quantity q a =
    (ok tt, record a { trade = record a.trade { quantity = q; remaining_quantity = q } })

unfoldable pub same_direction_blocks : SameDirectionPolicy → List AccountTradeLeg → Bool
same_direction_blocks SameDirectionPolicy.block (_ ∷ _) = true
same_direction_blocks _ _ = false

-- `if blocked_reason: raise …`; an empty text is false.
unfoldable pub raise_blocked : Option Str → Action (Unit {0})
raise_blocked (some (x ∷ reason)) = lift (err (bucket_blocked (x ∷ reason)))
raise_blocked (some []) = pure tt
raise_blocked none = pure tt

unfoldable pub decision : OpenAction → ℤ → ℤ → ℤ → Option Str → AccountOpenDecision
decision action original approved offset of = record {
  action = action;
  original_quantity = original;
  approved_quantity = approved;
  offset_quantity = offset;
  duplicate_trade_id = of;
}

module _ (c : Context) (close : CloseHandler) (mode : Str) where
  -- `await leg.close_handler(leg.trade_id, close_quantity, …)`
  unfoldable pub call_handler : AccountTradeLeg → ℤ → Action ℤ
  call_handler leg quantity a = elim leg.close_handler [
    | none ↦ (err (no_owner_engine leg.trade_id), a)
    | some h ↦
        let (executed, s) =
          close h leg.trade_id quantity (codes "netted_by_signal:" ++ a.trade.signal_id)
            a.coordinator in
        elim executed [
          | none ↦ (err handler_failed, record a { coordinator = s })
          | some q ↦ (ok q, record a { coordinator = s })
        ]
  ]

  -- Reduces one opposite leg, and returns the new offset.
  unfoldable pub net_leg : ℤ → ℤ → AccountTradeLeg → Action ℤ
  unfolding call_handler
  net_leg requested offset leg =
      let close_quantity = min_ℤ leg.remaining_quantity (sub c requested offset) in
      raise_if (str_eq leg.status waiting_entry || ltb_ℤ zero_d leg.pending_entry_quantity)
        opposite_pending
      >> (call_handler leg close_quantity >>= λ executed.
          raise_if (leb_ℤ executed zero_d) (not_reduced leg.trade_id)
          >> pure (add c offset (min_ℤ executed close_quantity)))

  -- The loop of `_net_opposite_legs`.
  unfoldable pub net_legs : ℤ → ℤ → List AccountTradeLeg → Action ℤ
  net_legs requested offset [] a = (ok offset, a)
  net_legs requested offset (leg ∷ legs) a =
      if leb_ℤ requested offset
      then (ok offset, a)
      else (net_leg requested offset leg >>= λ next. net_legs requested next legs) a

  unfoldable pub net_opposite_legs : Action ℤ
  net_opposite_legs a =
      net_legs a.trade.quantity zero_d (opposite_legs c mode a.trade a.coordinator) a

  -- The approved quantity is written to the trade where it is less than what was asked.
  unfoldable pub finish_approval : ℤ → ℤ → ℤ → Action AccountOpenDecision
  unfolding decision set_quantity
  finish_approval original offset approved a =
      (raise_if (leb_ℤ approved zero_d) no_quantity
          >> ((if ltb_ℤ approved a.trade.quantity then set_quantity approved else pure tt)
              >> pure (decision open_action original approved offset none)))
        a

  -- The same-direction policy and the risk cap.
  unfoldable pub approve : ℤ → ℤ → List AccountTradeLeg → Action AccountOpenDecision
  unfolding same_direction_blocks
  approve original offset legs a =
      (raise_if (same_direction_blocks a.coordinator.same_direction_policy legs) same_direction
          >> (lift (apply_symbol_risk_cap c a.coordinator a.trade legs)
              >>= finish_approval original offset))
        a

  -- The part of `coordinate_open` below the position policy.
  unfoldable pub open_residual : ℤ → ℤ → Action AccountOpenDecision
  unfolding decision
  open_residual original offset a =
      let legs = same_side_legs c mode a.trade a.coordinator in
      elim (find_duplicate c a.coordinator a.trade legs) [
        | some leg ↦ (ok (decision duplicate original zero_d offset (some leg.trade_id)), a)
        | none ↦ approve original offset legs a
      ]

  -- What is not netted off goes on as a smaller trade.
  unfoldable pub after_netting : ℤ → ℤ → Action AccountOpenDecision
  unfolding decision set_quantity
  after_netting original offset a =
      let residual = max_ℤ (sub c original offset) zero_d in
      (if leb_ℤ residual zero_d
          then pure (decision netted original zero_d offset none)
          else (set_quantity residual >> open_residual original offset))
        a

  -- Under the block policy no opposite leg may be open.
  unfoldable pub unless_opposite : ℤ → List AccountTradeLeg → Action AccountOpenDecision
  unless_opposite original [] a = open_residual original zero_d a
  unless_opposite original (_ ∷ _) a = (err opposite_exposure, a)

  -- What the position policy does with the opposite legs.
  unfoldable pub apply_policy : AccountPositionPolicy → ℤ → Action AccountOpenDecision
  apply_policy AccountPositionPolicy.hedge original a = open_residual original zero_d a
  apply_policy AccountPositionPolicy.block original a =
      unless_opposite original (opposite_legs c mode a.trade a.coordinator) a
  apply_policy AccountPositionPolicy.net original a =
      (net_opposite_legs >>= after_netting original) a

  unfoldable pub coordinate_open : Action AccountOpenDecision
  unfolding raise_blocked
  coordinate_open a =
      (raise_if (leb_ℤ a.trade.quantity zero_d) quantity_not_positive
          >> (raise_blocked (bucket_block_reason a.trade mode a.coordinator)
              >> apply_policy a.coordinator.position_policy a.trade.quantity))
        a
