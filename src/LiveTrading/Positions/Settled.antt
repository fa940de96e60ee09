-- ===== src/LiveTrading/Positions/Settled.antt =====
-- The lifecycle of a trade under the calls of the position manager.
use triak_trade.Base.{
  ℕ, ◌≡◌, refl, sym, subst, ◌⊎◌, inl, inr, Bool, true, false, Bool-cases, Option, none, some, List,
  [], ◌∷◌, arith, ok,
}
use triak_trade.Base.Int.{ℤ, pos, ◌≤ℤ◌, leb_ℤ, ltb_ℤ, eq_of_parts}
use triak_trade.Base.Text.{Str, str_in}
use triak_trade.Decimal.{Context, zero_d, quantize-le, zero_mul}
use triak_trade.LiveTrading.Models.{
  LiveTrade, MessageAttribution, is_active, is_open, partial_close, closed, model_post_init,
}
use triak_trade.LiveTrading.Positions.Targets.{Note}
use triak_trade.LiveTrading.Positions.Sizing.{
  Settings, PositionSizingResult, Trigger, create_trade, compute_position_sizing,
}
use triak_trade.LiveTrading.Positions.Sized.{compute_position_sizing-IsSized}
use triak_trade.Strategies.{TradeStrategy}
use triak_trade.Domain.{ParsedSignal}
use triak_trade.LiveTrading.Positions.Closing.{
  note_closing, close_quantity, book, settle, reduce, apply_partial_close, close_trade,
}
use triak_trade.LiveTrading.Positions.Lifecycle.{
  ManagerCall, set_stop, set_targets, set_leverage, mark, rebase, close_part, close_all, Ledger,
  ledger, ledger-add_attribution, manage, manage_all, ledger-manage, is_close,
}

-- A trade in the ledger is either active with something left, or closed with nothing left.
pub record IsSettled (l : Ledger) : Type 0 where
  pub outcome :
      ((is_active l.status ≡ true) × (pos 1 ≤ℤ l.remaining_quantity))
      ⊎ ((l.status ≡ closed) × (l.remaining_quantity ≡ zero_d))

pub ledger-note_closing :
    (now : ℕ) (action note : Str) (t : LiveTrade) (message : Option MessageAttribution) (pnl : ℤ)
    → ledger (note_closing now action note t message pnl).trade ≡ ledger t
unfolding note_closing
ledger-note_closing now action note t none pnl = refl
ledger-note_closing now action note t (some message) pnl = ledger-add_attribution now _ t

partial-is_active : is_active partial_close ≡ true
unfolding is_active str_in
partial-is_active = refl

pub closed-is_active : is_active closed ≡ false
unfolding is_active str_in
closed-is_active = refl

settle-IsSettled :
    (closed_at : ℕ) (price : ℤ) (reason : Str) (t : LiveTrade)
    → pos 0 ≤ℤ t.remaining_quantity
    → IsSettled (ledger (settle closed_at price reason t))
unfolding settle
settle-IsSettled closed_at price reason t h =
    elim (Bool-cases (ltb_ℤ zero_d t.remaining_quantity)) [
      | inl some_left ↦
          rw (some_left, settle) (record { outcome = inl (partial-is_active, ground arith) })
      | inr nothing ↦
          rw (nothing, settle)
            (record {
              outcome = inr (refl, eq_of_parts t.remaining_quantity zero_d (ground arith));
            })
    ]

-- Nothing is closed of a trade with nothing left.
pub close_quantity_zero :
    (c : Context) (t : LiveTrade) (f : ℤ)
    → t.remaining_quantity ≡ zero_d
    → leb_ℤ (close_quantity c t f) zero_d ≡ true
unfolding close_quantity
close_quantity_zero c t f nothing =
    let (q, same, less) = quantize-le c zero_d 0 (omega arith) (omega arith) in
    rw (nothing, zero_mul c f, same) (ground arith)

module _ (c : Context) (settings : Settings) (text : Note → Str) where
  partial-IsSettled :
      (closed_at now : ℕ) (t : LiveTrade) (fraction price : ℤ) (reason : Str) (fee : ℤ)
      (message : Option MessageAttribution) (is_tp_hit : Bool)
      → IsSettled (ledger t)
      → IsSettled (
          ledger
            (apply_partial_close c text closed_at now t fraction price reason fee message
              is_tp_hit).trade)
  unfolding apply_partial_close reduce
  partial-IsSettled closed_at now t f p reason fee message hit v =
      let quantity = close_quantity c t f in
      let reduced = reduce c (book c t p quantity fee) quantity hit in
      elim (Bool-cases (leb_ℤ quantity zero_d)) [
        | inl nothing ↦ rw (nothing, apply_partial_close) v
        | inr something ↦
            rw (something, apply_partial_close)
              (subst IsSettled
                (sym (ledger-note_closing now _ _ (settle closed_at p reason reduced) message _))
                (settle-IsSettled closed_at p reason reduced (ground arith)))
      ]

  close-IsSettled :
      (closed_at now : ℕ) (t : LiveTrade) (price : ℤ) (reason : Str) (fee : ℤ)
      (message : Option MessageAttribution)
      → IsSettled (ledger t)
      → IsSettled (ledger (close_trade c text closed_at now t price reason fee message).trade)
  unfolding close_trade
  close-IsSettled closed_at now t p reason fee message v = elim (Bool-cases (is_open t)) [
    | inr ended ↦ rw (ended, close_trade) v
    | inl running ↦
        rw (running, close_trade)
          (subst IsSettled (sym (ledger-note_closing now _ _ _ message _))
            (record { outcome = inr (refl, refl) }))
  ]

  same-IsSettled :
      (closed_at now : ℕ) (call : ManagerCall) (t : LiveTrade)
      → IsSettled (ledger t)
      → is_close call ≡ false
      → IsSettled (ledger (manage c settings text closed_at now call t))
  same-IsSettled closed_at now call t v other =
      subst IsSettled (sym (ledger-manage c settings text closed_at now call t other)) v

  manage-IsSettled :
      (closed_at now : ℕ) (call : ManagerCall) (t : LiveTrade)
      → IsSettled (ledger t)
      → IsSettled (ledger (manage c settings text closed_at now call t))
  unfolding manage is_close
  manage-IsSettled closed_at now (close_part f p reason fee message hit) t v =
      partial-IsSettled closed_at now t f p reason fee message hit v
  manage-IsSettled closed_at now (close_all p reason fee message) t v =
      close-IsSettled closed_at now t p reason fee message v
  manage-IsSettled closed_at now (set_stop s m b) t v =
      same-IsSettled closed_at now (set_stop s m b) t v refl
  manage-IsSettled closed_at now (set_targets ts m) t v =
      same-IsSettled closed_at now (set_targets ts m) t v refl
  manage-IsSettled closed_at now (set_leverage l m) t v =
      same-IsSettled closed_at now (set_leverage l m) t v refl
  manage-IsSettled closed_at now (mark p f) t v = same-IsSettled closed_at now (mark p f) t v refl
  manage-IsSettled closed_at now (rebase s) t v = same-IsSettled closed_at now (rebase s) t v refl

  pub manage_all-IsSettled :
      (calls : List (ℕ × ℕ × ManagerCall)) (t : LiveTrade)
      → IsSettled (ledger t)
      → IsSettled (ledger (manage_all c settings text calls t))
  unfolding manage_all
  manage_all-IsSettled [] t v = v
  manage_all-IsSettled ((closed_at, now, call) ∷ calls) t v =
      manage_all-IsSettled calls (manage c settings text closed_at now call t)
        (manage-IsSettled closed_at now call t v)

  create_trade-IsSettled :
      (trigger : Trigger) (signal : ParsedSignal) (r : PositionSizingResult)
      → pos 1 ≤ℤ r.quantity
      → IsSettled (ledger (create_trade text trigger signal r))
  unfolding create_trade model_post_init is_active str_in
  create_trade-IsSettled trigger signal r h = record { outcome = inl (ground arith, ground arith) }

-- A trade made from a sizing is, after any calls of the manager, active with something left or closed with
-- nothing left.
pub create_trade-manage_all-IsSettled :
    (c : Context) (settings : Settings) (risk_per_trade_pct : ℤ) (signal : ParsedSignal)
    (current_balance : ℤ) (strategy : Option TradeStrategy) {r : PositionSizingResult}
    (text : Note → Str) (trigger : Trigger) (calls : List (ℕ × ℕ × ManagerCall))
    → compute_position_sizing c settings risk_per_trade_pct signal current_balance strategy ≡ ok r
    → IsSettled (ledger (manage_all c settings text calls (create_trade text trigger signal r)))
create_trade-manage_all-IsSettled c settings risk signal b strategy {r} text trigger calls run =
    let (_, quantity, _) =
      (compute_position_sizing-IsSized c settings risk signal b strategy run).positive in
    manage_all-IsSettled c settings text calls (create_trade text trigger signal r)
      (create_trade-IsSettled c settings text trigger signal r quantity)
