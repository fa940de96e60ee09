-- ===== src/LiveTrading/Coordinator/Fills.antt =====
-- A fill belongs to the first trade that claims it, for good.
use triak_trade.Base.{
  ℕ, ◌≡◌, refl, ◌∙◌, inl, inr, ◌↔◌, Bool, true, Option, none, some, Option-cases, List, [], ◌∷◌,
  arith,
}
use triak_trade.Base.Text.{Str, str_eq_iff, str_eq_refl}
use triak_trade.Base.Dict.{str_Eq, lookup, lookup-insert}
use triak_trade.Decimal.{Context}
use triak_trade.LiveTrading.Models.{LiveTrade}
use triak_trade.LiveTrading.Coordinator.Defs.{
  AccountBucketKey, Coordinator, bucket_Eq, bucket_for_trade,
}
use triak_trade.LiveTrading.Coordinator.Claims.{block_bucket, claim_order, claim_orders}
use triak_trade.LiveTrading.Coordinator.Registry.{register_trade, unregister_trade}
use triak_trade.LiveTrading.Coordinator.Owners.{
  mark_order_owner, release_order_owner, block_trade_bucket, without_prefix, write_reasons,
  clear_trade_bucket_block, mark_fill_owner,
}
use triak_trade.LiveTrading.Coordinator.Queries.{fill_owner, fill_is_available}
use triak_trade.LiveTrading.Coordinator.Restore.{
  restore_fill_owner, restore_fill_owners, restore_leg, restore_one_trade,
}
use triak_trade.LiveTrading.Coordinator.Methods.{
  Call, register, unregister, mark_order, release, block_call, clear, mark_fill, restore, perform,
  perform_all,
}

-- The methods that are not about fills leave their owners alone.
claim_order-fills :
    (o t : Str) (key : AccountBucketKey) (s : Coordinator)
    → (claim_order o t key s).fill_owners ≡ s.fill_owners
unfolding claim_order
claim_order-fills o t key s = ground arith

claim_orders-fills :
    (os : List Str) (t : Str) (key : AccountBucketKey) (s : Coordinator)
    → (claim_orders os t key s).fill_owners ≡ s.fill_owners
unfolding claim_orders
claim_orders-fills [] t key s = refl
claim_orders-fills (o ∷ os) t key s =
    claim_orders-fills os t key (claim_order o t key s) ∙ claim_order-fills o t key s

register_trade-fills :
    (c : Context) (trade : LiveTrade) (mode : Str) (h : Option ℕ) (s : Coordinator)
    → (register_trade c trade mode h s).fill_owners ≡ s.fill_owners
unfolding register_trade
register_trade-fills c trade mode h s = claim_orders-fills _ _ _ _

mark_order_owner-fills :
    (o : Option Str) (trade : LiveTrade) (mode : Str) (s : Coordinator)
    → (mark_order_owner o trade mode s).fill_owners ≡ s.fill_owners
unfolding mark_order_owner claim_order
mark_order_owner-fills o trade mode s = ground arith

release_order_owner-fills :
    (o : Option Str) (t : Str) (s : Coordinator)
    → (release_order_owner o t s).fill_owners ≡ s.fill_owners
unfolding release_order_owner
release_order_owner-fills o t s = ground arith

write_reasons-fills :
    (key : AccountBucketKey) (rs : List Str) (s : Coordinator)
    → (write_reasons key rs s).fill_owners ≡ s.fill_owners
unfolding write_reasons
write_reasons-fills key [] s = refl
write_reasons-fills key (r ∷ rs) s = refl

clear-fills :
    (trade : LiveTrade) (mode : Str) (p : Option Str) (s : Coordinator)
    → (clear_trade_bucket_block trade mode p s).fill_owners ≡ s.fill_owners
unfolding clear_trade_bucket_block
clear-fills trade mode none s = refl
clear-fills trade mode (some p) s =
    let key = bucket_for_trade trade mode in
    elim (Option-cases (lookup key s.blocked_buckets)) [
      | inl none_known ↦ rw (none_known, clear_trade_bucket_block)
      | inr (rs, e) ↦
          rw (e, clear_trade_bucket_block) (write_reasons-fills key (without_prefix p rs) s)
    ]

-- One claim of a fill keeps every owner that is known.
restore_fill_owner-keeps :
    (g f owner : Str) (trade : LiveTrade) (s : Coordinator)
    → lookup f s.fill_owners ≡ some owner
    → lookup f (restore_fill_owner g trade s).fill_owners ≡ some owner
unfolding restore_fill_owner
restore_fill_owner-keeps g f owner trade s h =
    ground (arith, lookup-insert g f trade.trade_id s.fill_owners, str_eq_iff g f)

restore_fill_owners-keeps :
    (gs : List Str) (f owner : Str) (trade : LiveTrade) (s : Coordinator)
    → lookup f s.fill_owners ≡ some owner
    → lookup f (restore_fill_owners gs trade s).fill_owners ≡ some owner
unfolding restore_fill_owners
restore_fill_owners-keeps [] f owner trade s h = h
restore_fill_owners-keeps (g ∷ gs) f owner trade s h =
    restore_fill_owners-keeps gs f owner trade (restore_fill_owner g trade s)
      (restore_fill_owner-keeps g f owner trade s h)

mark_fill_owner-keeps :
    (g f owner : Str) (trade : LiveTrade) (mode : Str) (s : Coordinator)
    → lookup f s.fill_owners ≡ some owner
    → lookup f (mark_fill_owner g trade mode s).1.fill_owners ≡ some owner
unfolding mark_fill_owner block_bucket
mark_fill_owner-keeps g f owner trade mode s h =
    ground (arith, lookup-insert g f trade.trade_id s.fill_owners, str_eq_iff g f)

restore_one_trade-keeps :
    (c : Context) (trade : LiveTrade) (mode : Str) (live : Bool) (f owner : Str) (s : Coordinator)
    → lookup f s.fill_owners ≡ some owner
    → lookup f (restore_one_trade c trade mode live s).fill_owners ≡ some owner
unfolding restore_one_trade restore_leg block_trade_bucket block_bucket
restore_one_trade-keeps c trade mode live f owner s h = rw claim_orders-fills (
    restore_fill_owners-keeps trade.processed_exchange_fill_ids f owner trade _
      (ground (arith, register_trade-fills c trade mode none s)))

-- No call of a method changes the owner of a fill.
pub perform-keeps_fill :
    (c : Context) (m : Call) (f owner : Str) (s : Coordinator)
    → lookup f s.fill_owners ≡ some owner
    → lookup f (perform c m s).fill_owners ≡ some owner
unfolding perform unregister_trade block_trade_bucket block_bucket
perform-keeps_fill c (register trade mode handler) f owner s h =
    rw (register_trade-fills c trade mode handler s) h
perform-keeps_fill c (unregister t) f owner s h = h
perform-keeps_fill c (mark_order o trade mode) f owner s h =
    rw (mark_order_owner-fills o trade mode s) h
perform-keeps_fill c (release o t) f owner s h = rw (release_order_owner-fills o t s) h
perform-keeps_fill c (block_call trade mode reason) f owner s h = h
perform-keeps_fill c (clear trade mode p) f owner s h = rw (clear-fills trade mode p s) h
perform-keeps_fill c (mark_fill g trade mode) f owner s h =
    mark_fill_owner-keeps g f owner trade mode s h
perform-keeps_fill c (restore trade mode live) f owner s h =
    restore_one_trade-keeps c trade mode live f owner s h

-- In no history of calls does a fill that has an owner get another one.
pub perform_all-keeps_fill :
    (c : Context) (ms : List Call) (f owner : Str) (s : Coordinator)
    → fill_owner f s ≡ some owner
    → fill_owner f (perform_all c ms s) ≡ some owner
unfolding perform_all fill_owner
perform_all-keeps_fill c [] f owner s h = h
perform_all-keeps_fill c (m ∷ ms) f owner s h =
    perform_all-keeps_fill c ms f owner (perform c m s) (perform-keeps_fill c m f owner s h)

-- `mark_fill_owner` answers whether the fill is the trade's: it succeeds exactly when the fill was
-- available to the trade, and exactly when the trade owns it afterwards.
pub mark_fill_owner_lem :
    (f : Str) (trade : LiveTrade) (mode : Str) (s : Coordinator)
    → let (marked, s') = mark_fill_owner f trade mode s in
      (marked ≡ fill_is_available f trade.trade_id s)
      × ((marked ≡ true) ↔ (fill_owner f s' ≡ some trade.trade_id))
unfolding mark_fill_owner fill_is_available fill_owner block_bucket
mark_fill_owner_lem f trade mode s = elim (Option-cases (lookup f s.fill_owners)) [
  | inl free ↦
      let now = lookup-insert f f trade.trade_id s.fill_owners in
      (ground arith, (λ h. ground (arith, now, str_eq_refl f), λ h. ground arith))
  | inr (owner, e) ↦
      let same = str_eq_iff owner trade.trade_id in
      (ground arith, (λ h. ground (arith, same), λ h. ground (arith, same)))
]
