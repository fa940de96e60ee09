-- ===== src/LiveTrading/Coordinator/Duplicates.antt =====
-- A duplicate that a decision names is a leg that the rules for duplicates allow.
use triak_trade.Base.{◌≡◌, ◌⊎◌, true, false, none, some, All}
use triak_trade.Base.Int.{pos}
use triak_trade.Base.Text.{Str, str_eq}
use triak_trade.Decimal.{Context}
use triak_trade.LiveTrading.Models.{is_active}
use triak_trade.LiveTrading.Coordinator.Defs.{
  AccountTradeLeg, Coordinator, bucket, bucket_eq, bucket_for_trade,
}
use triak_trade.LiveTrading.Coordinator.Risk.{is_duplicate}
use triak_trade.LiveTrading.Coordinator.Select.{same_side_legs}
use triak_trade.LiveTrading.Coordinator.Open.{duplicate, open_action, AccountOpenDecision, Account}

-- A duplicate that is named is a leg of another trade in the same bucket, which is active and whose
-- time, entry price and stop are close.
pub record IsNamed (c : Context) (mode : Str) (a : Account) (d : AccountOpenDecision) : Type 0 where
  pub leg : AccountTradeLeg
  pub named : d.duplicate_trade_id ≡ some leg.trade_id
  pub same_bucket : bucket_eq (bucket leg) (bucket_for_trade a.trade mode) ≡ true
  pub other_trade : str_eq leg.trade_id a.trade.trade_id ≡ false
  pub is_active_leg : is_active leg.status ≡ true
  pub close_signal : is_duplicate c a.coordinator a.trade leg ≡ true

-- What a decision says of duplicates: it names one and nothing changed, or it opens the trade and there is none.
pub record IsJudged (c : Context) (mode : Str) (a a' : Account) (d : AccountOpenDecision)
    : Type 0 where
  pub outcome :
      ((d.action ≡ duplicate) × (a' ≡ a) × (d.approved_quantity ≡ pos 0) × IsNamed c mode a d)
      ⊎ ((d.action ≡ open_action)
          × (d.duplicate_trade_id ≡ none)
          × ((a.coordinator.duplicate_window_seconds ≡ 0)
              ⊎ All
                  (λ leg. is_duplicate c a.coordinator a.trade leg ≡ false)
                  (same_side_legs c mode a.trade a.coordinator)))
