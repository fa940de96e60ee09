-- ===== src/LiveTrading/Positions/Closed.antt =====
-- The end of a trade: how a close ends it, and that nothing changes it afterwards.
use triak_trade.Base.{ℕ, ◌≡◌, refl, sym, ap, ◌∙◌, subst, inl, inr, false, Option, List, [], ◌∷◌}
use triak_trade.Base.Int.{ℤ}
use triak_trade.Base.Text.{Str}
use triak_trade.Decimal.{Context, zero_d}
use triak_trade.LiveTrading.Models.{LiveTrade, MessageAttribution, is_active, is_open, closed}
use triak_trade.LiveTrading.Positions.Targets.{Note}
use triak_trade.LiveTrading.Positions.Sizing.{Settings}
use triak_trade.LiveTrading.Positions.Closing.{apply_partial_close, close_trade}
use triak_trade.LiveTrading.Positions.Lifecycle.{
  ManagerCall, set_stop, set_targets, set_leverage, mark, rebase, close_part, close_all, Ledger,
  ledger, manage, manage_all, ledger-manage, is_close,
}
use triak_trade.LiveTrading.Positions.Settled.{
  IsSettled, ledger-note_closing, closed-is_active, close_quantity_zero, manage_all-IsSettled,
}

-- Closed, with nothing left.
abbrev pub IsEnded : Ledger → Type 0
IsEnded l = (l.status ≡ closed) × (l.remaining_quantity ≡ zero_d)

module _ (c : Context) (settings : Settings) (text : Note → Str) where
  ended-is_open : (t : LiveTrade) → t.status ≡ closed → is_open t ≡ false
  unfolding is_open
  ended-is_open t e = ap is_active e ∙ closed-is_active

  manage-ended :
      (closed_at now : ℕ) (call : ManagerCall) (t : LiveTrade)
      → IsEnded (ledger t)
      → ledger (manage c settings text closed_at now call t) ≡ ledger t
  unfolding manage is_close apply_partial_close close_trade
  manage-ended closed_at now (close_part f p reason fee message hit) t (_, nothing) =
      rw (close_quantity_zero c t f nothing, apply_partial_close, manage) refl
  manage-ended closed_at now (close_all p reason fee message) t (status, _) =
      rw (ended-is_open t status, close_trade, manage) refl
  manage-ended closed_at now (set_stop s m b) t v =
      ledger-manage c settings text closed_at now (set_stop s m b) t refl
  manage-ended closed_at now (set_targets ts m) t v =
      ledger-manage c settings text closed_at now (set_targets ts m) t refl
  manage-ended closed_at now (set_leverage l m) t v =
      ledger-manage c settings text closed_at now (set_leverage l m) t refl
  manage-ended closed_at now (mark p f) t v =
      ledger-manage c settings text closed_at now (mark p f) t refl
  manage-ended closed_at now (rebase s) t v =
      ledger-manage c settings text closed_at now (rebase s) t refl

  -- No call changes the quantity, the profit, the fees or the exit of a trade that is closed with nothing
  -- left.
  pub manage_all-ended :
      (calls : List (ℕ × ℕ × ManagerCall)) (t : LiveTrade)
      → IsEnded (ledger t)
      → ledger (manage_all c settings text calls t) ≡ ledger t
  unfolding manage_all
  manage_all-ended [] t e = refl
  manage_all-ended ((closed_at, now, call) ∷ calls) t e =
      let step = manage-ended closed_at now call t e in
      manage_all-ended calls (manage c settings text closed_at now call t)
        (subst IsEnded (sym step) e)
      ∙ step

  -- Whatever the calls before it, a full close leaves a trade that was active with something left closed with
  -- nothing left.
  pub close_all-IsEnded :
      (calls : List (ℕ × ℕ × ManagerCall)) (closed_at now : ℕ) (price : ℤ) (reason : Str) (fee : ℤ)
      (message : Option MessageAttribution) (t : LiveTrade)
      → IsSettled (ledger t)
      → IsEnded (
          ledger (
            manage c settings text closed_at now
              (close_all price reason fee message)
              (manage_all c settings text calls t)))
  unfolding manage close_trade is_open
  close_all-IsEnded calls closed_at now p reason fee message t v =
      let t' = manage_all c settings text calls t in
      elim (manage_all-IsSettled c settings text calls t v).outcome [
        | inr ended ↦
            subst IsEnded
              (sym (manage-ended closed_at now (close_all p reason fee message) t' ended)) ended
        | inl (running, _) ↦
            rw (running, close_trade, manage)
              (subst IsEnded (sym (ledger-note_closing now _ _ _ message _)) (refl, refl))
      ]
