-- ===== src/LiveTrading/Coordinator/Persist.antt =====
-- A blocked bucket stays blocked in every history of calls that does not clear it, and takes no trade.
use triak_trade.Base.{
  ℕ, ◌≤◌, ◌≡◌, refl, ◌∙◌, inl, inr, Bool, Option, none, some, Option-cases, List, [], ◌∷◌, All,
  arith,
}
use native.Mathlib.Nat.{le_trans}
use triak_trade.Base.Text.{Str}
use triak_trade.Base.Dict.{str_Eq, lookup, lookup-insert, lookup-erase}
use triak_trade.Decimal.{Context}
use triak_trade.LiveTrading.Models.{LiveTrade}
use triak_trade.LiveTrading.Coordinator.Defs.{
  AccountBucketKey, Coordinator, bucket_Eq, bucket_eq_iff, bucket_for_trade,
}
use triak_trade.LiveTrading.Coordinator.Claims.{
  set_add, trade_order_ids, reasons_of, block_bucket, claim_order, claim_orders, given,
  order_conflict, fill_conflict,
}
use triak_trade.LiveTrading.Coordinator.Registry.{register_trade, unregister_trade}
use triak_trade.LiveTrading.Coordinator.Owners.{
  mark_order_owner, release_order_owner, block_trade_bucket, without_prefix, write_reasons,
  clear_trade_bucket_block, mark_fill_owner,
}
use triak_trade.LiveTrading.Coordinator.Restore.{
  restore_fill_owner, restore_fill_owners, restore_leg, stopped_reason, restore_one_trade,
}
use triak_trade.LiveTrading.Coordinator.Methods.{
  Call, register, unregister, mark_order, release, block_call, clear, mark_fill, restore, perform,
  perform_all,
}
use triak_trade.LiveTrading.Coordinator.Blocks.{size, set_add-ge, IsBlocked}

-- How many code points the reasons of a bucket have.
abbrev weight : AccountBucketKey → Coordinator → ℕ
weight key s = size (reasons_of (lookup key s.blocked_buckets))

block_bucket-weight :
    (key k : AccountBucketKey) (reason : Str) (s : Coordinator)
    → weight key s ≤ weight key (block_bucket k reason s)
unfolding block_bucket
block_bucket-weight key k reason s =
    let known = reasons_of (lookup k s.blocked_buckets) in
    ground (
      arith,
      lookup-insert k key (set_add reason known) s.blocked_buckets,
      bucket_eq_iff k key,
      set_add-ge reason known,
    )

claim_order-weight :
    (key k : AccountBucketKey) (o t : Str) (s : Coordinator)
    → weight key s ≤ weight key (claim_order o t k s)
unfolding claim_order
claim_order-weight key k o t s = elim (Option-cases (lookup o s.order_owners)) [
  | inl free ↦ ground arith
  | inr (owner, e) ↦ ground (arith, block_bucket-weight key k (order_conflict o owner t) s)
]

claim_orders-weight :
    (key k : AccountBucketKey) (os : List Str) (t : Str) (s : Coordinator)
    → weight key s ≤ weight key (claim_orders os t k s)
unfolding claim_orders
claim_orders-weight key k [] t s = omega arith
claim_orders-weight key k (o ∷ os) t s =
    omega
      (arith, claim_order-weight key k o t s, claim_orders-weight key k os t (claim_order o t k s))

register_trade-weight :
    (c : Context) (key : AccountBucketKey) (trade : LiveTrade) (mode : Str) (h : Option ℕ)
    (s : Coordinator)
    → weight key s ≤ weight key (register_trade c trade mode h s)
unfolding register_trade
register_trade-weight c key trade mode h s = claim_orders-weight key _ _ _ _

mark_order_owner-weight :
    (key : AccountBucketKey) (o : Option Str) (trade : LiveTrade) (mode : Str) (s : Coordinator)
    → weight key s ≤ weight key (mark_order_owner o trade mode s)
unfolding mark_order_owner given
mark_order_owner-weight key none trade mode s = omega arith
mark_order_owner-weight key (some []) trade mode s = omega arith
mark_order_owner-weight key (some (x ∷ o)) trade mode s =
    ground (arith, claim_order-weight key (bucket_for_trade trade mode) (x ∷ o) trade.trade_id s)

release_order_owner-blocked :
    (o : Option Str) (t : Str) (s : Coordinator)
    → (release_order_owner o t s).blocked_buckets ≡ s.blocked_buckets
unfolding release_order_owner
release_order_owner-blocked o t s = ground arith

restore_fill_owners-blocked :
    (fs : List Str) (trade : LiveTrade) (s : Coordinator)
    → (restore_fill_owners fs trade s).blocked_buckets ≡ s.blocked_buckets
unfolding restore_fill_owners restore_fill_owner
restore_fill_owners-blocked [] trade s = refl
restore_fill_owners-blocked (f ∷ fs) trade s =
    restore_fill_owners-blocked fs trade (restore_fill_owner f trade s) ∙ ground arith

mark_fill_owner-weight :
    (key : AccountBucketKey) (f : Str) (trade : LiveTrade) (mode : Str) (s : Coordinator)
    → weight key s ≤ weight key (mark_fill_owner f trade mode s).1
unfolding mark_fill_owner
mark_fill_owner-weight key f trade mode s = elim (Option-cases (lookup f s.fill_owners)) [
  | inl free ↦ ground arith
  | inr (owner, e) ↦
      ground
        (arith, block_bucket-weight key (bucket_for_trade trade mode) (fill_conflict f owner) s)
]

restore_leg-weight :
    (c : Context) (key : AccountBucketKey) (trade : LiveTrade) (mode : Str) (live : Bool)
    (s : Coordinator)
    → weight key s ≤ weight key (restore_leg c trade mode live s)
unfolding restore_leg block_trade_bucket
restore_leg-weight c key trade mode live s = ground (
  arith,
  register_trade-weight c key trade mode none s,
  block_bucket-weight key (bucket_for_trade trade mode) (stopped_reason trade) s,
)

restore_fill_owners-weight :
    (key : AccountBucketKey) (fs : List Str) (trade : LiveTrade) (s : Coordinator)
    → weight key s ≤ weight key (restore_fill_owners fs trade s)
restore_fill_owners-weight key fs trade s = rw restore_fill_owners-blocked (omega arith)

restore_one_trade-weight :
    (c : Context) (key : AccountBucketKey) (trade : LiveTrade) (mode : Str) (live : Bool)
    (s : Coordinator)
    → weight key s ≤ weight key (restore_one_trade c trade mode live s)
unfolding restore_one_trade
restore_one_trade-weight c key trade mode live s =
    let started = restore_leg c trade mode live s in
    let fills = trade.processed_exchange_fill_ids in
    le_trans (restore_leg-weight c key trade mode live s) (
      le_trans (restore_fill_owners-weight key fills trade started) (
        claim_orders-weight key (bucket_for_trade trade mode) (trade_order_ids trade) trade.trade_id
          (restore_fill_owners fills trade started)))

-- The call clears the bucket.
abbrev pub Clears : AccountBucketKey → Call → Type 0
Clears key (clear trade mode p) = bucket_for_trade trade mode ≡ key
Clears key _ = ⊥

write_reasons-weight :
    (key k : AccountBucketKey) (rs : List Str) (s : Coordinator)
    → ¬ (k ≡ key)
    → weight key s ≤ weight key (write_reasons k rs s)
unfolding write_reasons
write_reasons-weight key k [] s n =
    ground (arith, lookup-erase k key s.blocked_buckets, bucket_eq_iff k key)
write_reasons-weight key k (r ∷ rs) s n =
    ground (arith, lookup-insert k key (r ∷ rs) s.blocked_buckets, bucket_eq_iff k key)

clear-weight :
    (key : AccountBucketKey) (trade : LiveTrade) (mode : Str) (p : Option Str) (s : Coordinator)
    → ¬ (bucket_for_trade trade mode ≡ key)
    → weight key s ≤ weight key (clear_trade_bucket_block trade mode p s)
unfolding clear_trade_bucket_block
clear-weight key trade mode none s n =
    let k = bucket_for_trade trade mode in
    ground (arith, lookup-erase k key s.blocked_buckets, bucket_eq_iff k key)
clear-weight key trade mode (some p) s n =
    let k = bucket_for_trade trade mode in
    elim (Option-cases (lookup k s.blocked_buckets)) [
      | inl none_known ↦ rw (none_known, clear_trade_bucket_block) (omega arith)
      | inr (rs, e) ↦
          rw (e, clear_trade_bucket_block) (write_reasons-weight key k (without_prefix p rs) s n)
    ]

-- No call but one that clears the bucket shortens its reasons.
perform-weight :
    (c : Context) (m : Call) (key : AccountBucketKey) (s : Coordinator)
    → ¬ Clears key m
    → weight key s ≤ weight key (perform c m s)
unfolding perform unregister_trade block_trade_bucket
perform-weight c (register trade mode handler) key s n =
    register_trade-weight c key trade mode handler s
perform-weight c (unregister t) key s n = omega arith
perform-weight c (mark_order o trade mode) key s n = mark_order_owner-weight key o trade mode s
perform-weight c (release o t) key s n = rw release_order_owner-blocked (omega arith)
perform-weight c (block_call trade mode reason) key s n =
    block_bucket-weight key (bucket_for_trade trade mode) reason s
perform-weight c (clear trade mode p) key s n = clear-weight key trade mode p s n
perform-weight c (mark_fill f trade mode) key s n = mark_fill_owner-weight key f trade mode s
perform-weight c (restore trade mode live) key s n =
    restore_one_trade-weight c key trade mode live s

-- A blocked bucket stays blocked in every history of calls that does not clear it.
pub perform_all-IsBlocked :
    (c : Context) (ms : List Call) (trade : LiveTrade) (mode : Str) (s : Coordinator)
    → IsBlocked trade mode s
    → All (λ m. ¬ Clears (bucket_for_trade trade mode) m) ms
    → IsBlocked trade mode (perform_all c ms s)
unfolding perform_all
perform_all-IsBlocked c [] trade mode s b n = b
perform_all-IsBlocked c (m ∷ ms) trade mode s b (n, ns) =
    let more = perform-weight c m (bucket_for_trade trade mode) s n in
    perform_all-IsBlocked c ms trade mode (perform c m s) (omega arith) ns
