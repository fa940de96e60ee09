-- ===== src/LiveTrading/Coordinator/Orders.antt =====
-- An order has one owner at a time, and only its owner gives it up.
use triak_trade.Base.{
  ℕ, ◌≡◌, ◌≢◌, refl, ◌∙◌, ◌⊎◌, inl, inr, Bool, false, Option, none, some, Option-cases, List, [],
  ◌∷◌, All, arith,
}
use triak_trade.Base.Text.{Str, str_eq_iff}
use triak_trade.Base.Dict.{str_Eq, lookup, lookup-insert, lookup-erase}
use triak_trade.Decimal.{Context}
use triak_trade.LiveTrading.Models.{LiveTrade}
use triak_trade.LiveTrading.Coordinator.Defs.{
  AccountBucketKey, Coordinator, bucket_Eq, bucket_for_trade,
}
use triak_trade.LiveTrading.Coordinator.Claims.{block_bucket, claim_order, claim_orders, given}
use triak_trade.LiveTrading.Coordinator.Registry.{register_trade, unregister_trade}
use triak_trade.LiveTrading.Coordinator.Owners.{
  mark_order_owner, release_order_owner, block_trade_bucket, without_prefix, write_reasons,
  clear_trade_bucket_block, mark_fill_owner,
}
use triak_trade.LiveTrading.Coordinator.Queries.{order_is_available}
use triak_trade.LiveTrading.Coordinator.Restore.{
  restore_fill_owner, restore_fill_owners, restore_leg, restore_one_trade,
}
use triak_trade.LiveTrading.Coordinator.Methods.{
  Call, register, unregister, mark_order, release, block_call, clear, mark_fill, restore, perform,
  perform_all,
}

-- `w` owns the order `o`.
abbrev pub Owns : Str → Str → Coordinator → Type 0
Owns o w s = lookup o s.order_owners ≡ some w

claim_order-Owns :
    (q t : Str) (key : AccountBucketKey) (o w : Str) (s : Coordinator)
    → Owns o w s
    → Owns o w (claim_order q t key s)
unfolding claim_order block_bucket
claim_order-Owns q t key o w s h = elim (Option-cases (lookup q s.order_owners)) [
  | inl free ↦ ground (arith, lookup-insert q o t s.order_owners, str_eq_iff q o)
  | inr (v, e) ↦ ground (arith, lookup-insert q o t s.order_owners, str_eq_iff q o, str_eq_iff v t)
]

claim_orders-Owns :
    (qs : List Str) (t : Str) (key : AccountBucketKey) (o w : Str) (s : Coordinator)
    → Owns o w s
    → Owns o w (claim_orders qs t key s)
unfolding claim_orders
claim_orders-Owns [] t key o w s h = h
claim_orders-Owns (q ∷ qs) t key o w s h =
    claim_orders-Owns qs t key o w (claim_order q t key s) (claim_order-Owns q t key o w s h)

register_trade-Owns :
    (c : Context) (trade : LiveTrade) (mode : Str) (h : Option ℕ) (o w : Str) (s : Coordinator)
    → Owns o w s
    → Owns o w (register_trade c trade mode h s)
unfolding register_trade
register_trade-Owns c trade mode h o w s e = claim_orders-Owns _ _ _ o w _ e

mark_order_owner-Owns :
    (q : Option Str) (trade : LiveTrade) (mode : Str) (o w : Str) (s : Coordinator)
    → Owns o w s
    → Owns o w (mark_order_owner q trade mode s)
unfolding mark_order_owner given
mark_order_owner-Owns none trade mode o w s h = h
mark_order_owner-Owns (some []) trade mode o w s h = h
mark_order_owner-Owns (some (x ∷ q)) trade mode o w s h =
    ground (arith, claim_order-Owns (x ∷ q) trade.trade_id (bucket_for_trade trade mode) o w s)

restore_fill_owners-orders :
    (fs : List Str) (trade : LiveTrade) (s : Coordinator)
    → (restore_fill_owners fs trade s).order_owners ≡ s.order_owners
unfolding restore_fill_owners restore_fill_owner
restore_fill_owners-orders [] trade s = refl
restore_fill_owners-orders (f ∷ fs) trade s =
    restore_fill_owners-orders fs trade (restore_fill_owner f trade s) ∙ ground arith

write_reasons-orders :
    (key : AccountBucketKey) (rs : List Str) (s : Coordinator)
    → (write_reasons key rs s).order_owners ≡ s.order_owners
unfolding write_reasons
write_reasons-orders key [] s = refl
write_reasons-orders key (r ∷ rs) s = refl

clear-orders :
    (trade : LiveTrade) (mode : Str) (p : Option Str) (s : Coordinator)
    → (clear_trade_bucket_block trade mode p s).order_owners ≡ s.order_owners
unfolding clear_trade_bucket_block
clear-orders trade mode none s = refl
clear-orders trade mode (some p) s =
    let key = bucket_for_trade trade mode in
    elim (Option-cases (lookup key s.blocked_buckets)) [
      | inl none_known ↦ rw (none_known, clear_trade_bucket_block)
      | inr (rs, e) ↦
          rw (e, clear_trade_bucket_block) (write_reasons-orders key (without_prefix p rs) s)
    ]

restore_one_trade-Owns :
    (c : Context) (trade : LiveTrade) (mode : Str) (live : Bool) (o w : Str) (s : Coordinator)
    → Owns o w s
    → Owns o w (restore_one_trade c trade mode live s)
unfolding restore_one_trade restore_leg block_trade_bucket block_bucket
restore_one_trade-Owns c trade mode live o w s h =
    claim_orders-Owns _ _ _ o w _
      (rw restore_fill_owners-orders (ground (arith, register_trade-Owns c trade mode none o w s)))

release_order_owner-Owns :
    (q : Option Str) (t o w : Str) (s : Coordinator)
    → Owns o w s
    → Owns o w (release_order_owner q t s) ⊎ ((q ≡ some o) × (t ≡ w))
unfolding release_order_owner given
release_order_owner-Owns none t o w s h = inl h
release_order_owner-Owns (some []) t o w s h = inl h
release_order_owner-Owns (some (x ∷ q)) t o w s h =
    elim (Option-cases (lookup (x ∷ q) s.order_owners)) [
      | inl free ↦ ground arith
      | inr (v, e) ↦
          ground
            (arith, lookup-erase (x ∷ q) o s.order_owners, str_eq_iff (x ∷ q) o, str_eq_iff v t)
    ]

-- A call leaves an order with its owner, unless it is the release of that order by that owner.
pub perform-Owns :
    (c : Context) (m : Call) (o w : Str) (s : Coordinator)
    → Owns o w s
    → m ≢ release (some o) w
    → Owns o w (perform c m s)
unfolding perform unregister_trade block_trade_bucket block_bucket mark_fill_owner
perform-Owns c (register trade mode handler) o w s h n =
    register_trade-Owns c trade mode handler o w s h
perform-Owns c (unregister t) o w s h n = h
perform-Owns c (mark_order q trade mode) o w s h n = mark_order_owner-Owns q trade mode o w s h
perform-Owns c (release q t) o w s h n = elim (release_order_owner-Owns q t o w s h) [
  | inl kept ↦ kept
  | inr (e, f) ↦ absurd (n (cc))
]
perform-Owns c (block_call trade mode reason) o w s h n = h
perform-Owns c (clear trade mode p) o w s h n = rw (clear-orders trade mode p s) h
perform-Owns c (mark_fill g trade mode) o w s h n = ground arith
perform-Owns c (restore trade mode live) o w s h n =
    restore_one_trade-Owns c trade mode live o w s h

Owns-unavailable :
    (o w t : Str) (s : Coordinator)
    → Owns o w s
    → o ≢ []
    → t ≢ w
    → order_is_available (some o) t s ≡ false
unfolding order_is_available given
Owns-unavailable [] w t s h n d = absurd (n refl)
Owns-unavailable (x ∷ o) w t s h n d = ground (arith, str_eq_iff w t)

-- In a history of calls in which its owner does not release it, an order with a nonempty identifier
-- keeps its owner, and so it is not available to any other trade.
pub perform_all-Owns :
    (c : Context) (ms : List Call) (o w t : Str) (s : Coordinator)
    → Owns o w s
    → All (λ m. m ≢ release (some o) w) ms
    → o ≢ []
    → t ≢ w
    → Owns o w (perform_all c ms s) × (order_is_available (some o) t (perform_all c ms s) ≡ false)
unfolding perform_all
perform_all-Owns c [] o w t s h n ne d = (h, Owns-unavailable o w t s h ne d)
perform_all-Owns c (m ∷ ms) o w t s h (n, ns) ne d =
    perform_all-Owns c ms o w t (perform c m s) (perform-Owns c m o w s h n) ns ne d
