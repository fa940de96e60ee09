-- ===== src/LiveTrading/Coordinator/Owners.antt =====
-- The methods that write the owners of orders and fills and the blocked buckets.
use triak_trade.Base.{
  Bool, true, false, if◌then◌else◌, not, Option, none, some, List, [], ◌∷◌, keep,
}
use triak_trade.Base.Text.{Str, str_eq, starts_with}
use triak_trade.Base.Dict.{str_Eq, lookup, insert, erase}
use triak_trade.LiveTrading.Models.{LiveTrade}
use triak_trade.LiveTrading.Coordinator.Defs.{
  AccountBucketKey, AccountTradeLeg, Coordinator, bucket_for_trade, bucket_Eq,
}
use triak_trade.LiveTrading.Coordinator.Claims.{
  set_add, given, block_bucket, claim_order, fill_conflict,
}

-- What is written to the leg of a trade, if it has one.
update_leg : Str → (AccountTradeLeg → AccountTradeLeg) → Coordinator → Coordinator
update_leg trade_id f s = elim (lookup trade_id s.legs) [
  | none ↦ s
  | some leg ↦ record s { legs = insert trade_id (f leg) s.legs }
]

unfoldable pub mark_order_owner : Option Str → LiveTrade → Str → Coordinator → Coordinator
unfolding update_leg
mark_order_owner order_id trade mode s = elim (given order_id) [
  | [] ↦ s
  | o ∷ _ ↦
      update_leg trade.trade_id (λ leg. record leg { order_ids = set_add o leg.order_ids })
        (claim_order o trade.trade_id (bucket_for_trade trade mode) s)
]

release_owner : Str → Str → Coordinator → Coordinator
release_owner order_id trade_id s = elim (lookup order_id s.order_owners) [
  | none ↦ s
  | some owner ↦
      if str_eq owner trade_id then record s { order_owners = erase order_id s.order_owners } else s
]

unfoldable pub release_order_owner : Option Str → Str → Coordinator → Coordinator
unfolding update_leg release_owner
release_order_owner order_id trade_id s = elim (given order_id) [
  | [] ↦ s
  | o ∷ _ ↦
      update_leg trade_id
        (λ leg. record leg { order_ids = keep (λ x. not (str_eq x o)) leg.order_ids })
        (release_owner o trade_id s)
]

unfoldable pub block_trade_bucket : LiveTrade → Str → Str → Coordinator → Coordinator
block_trade_bucket trade mode reason = block_bucket (bucket_for_trade trade mode) reason

unfoldable pub without_prefix : Str → List Str → List Str
without_prefix p = keep (λ reason. not (starts_with reason p))

-- A set of reasons that becomes empty is removed.
unfoldable pub write_reasons : AccountBucketKey → List Str → Coordinator → Coordinator
write_reasons key [] s = record s { blocked_buckets = erase key s.blocked_buckets }
write_reasons key (r ∷ rs) s = record s { blocked_buckets = insert key (r ∷ rs) s.blocked_buckets }

unfoldable pub clear_trade_bucket_block : LiveTrade → Str → Option Str → Coordinator → Coordinator
clear_trade_bucket_block trade mode none s = record s {
  blocked_buckets = erase (bucket_for_trade trade mode) s.blocked_buckets;
}
clear_trade_bucket_block trade mode (some prefix) s =
    let key = bucket_for_trade trade mode in
    elim (lookup key s.blocked_buckets) [
      | none ↦ s
      | some reasons ↦ write_reasons key (without_prefix prefix reasons) s
    ]

unfoldable pub mark_fill_owner : Str → LiveTrade → Str → Coordinator → Bool × Coordinator
unfolding fill_conflict
mark_fill_owner fill_id trade mode s = elim (lookup fill_id s.fill_owners) [
  | some owner ↦
      if str_eq owner trade.trade_id
      then (true, s)
      else (false, block_bucket (bucket_for_trade trade mode) (fill_conflict fill_id owner) s)
  | none ↦ (true, record s { fill_owners = insert fill_id trade.trade_id s.fill_owners })
]
