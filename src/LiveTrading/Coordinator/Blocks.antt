-- ===== src/LiveTrading/Coordinator/Blocks.antt =====
-- A conflict about the owner of a fill or an order blocks the bucket of the trade that lost it, and a
-- blocked bucket takes no new trade until the block is cleared.
use triak_trade.Base.{
  ℕ, ◌+◌, ◌≤◌, ◌<◌, ◌≡◌, refl, ap, sym, inl, inr, true, false, some, Option-cases, Bool-cases, List,
  [], ◌∷◌, ◌++◌, length, length-append, arith,
}
use mathlib.Core.Bool.{false≢true}
use triak_trade.Base.Text.{Str, codes, str_eq, str_eq_iff, str_in}
use triak_trade.Base.Dict.{str_Eq, eqb_self, lookup, lookup-insert}
use triak_trade.LiveTrading.Models.{LiveTrade}
use triak_trade.LiveTrading.Coordinator.Defs.{Coordinator, bucket_Eq, bucket_for_trade}
use triak_trade.LiveTrading.Coordinator.Claims.{
  set_add, reasons_of, block_bucket, claim_order, order_conflict, fill_conflict, given,
}
use triak_trade.LiveTrading.Coordinator.Owners.{mark_order_owner, mark_fill_owner}
use triak_trade.LiveTrading.Coordinator.Queries.{
  bucket_block_reason, show_reasons, sorted, insert_sorted, join, fill_is_available,
  order_is_available,
}

-- The code points of all texts of a list.
unfoldable pub size : List Str → ℕ
size [] = 0
size (x ∷ xs) = length x + size xs

size-insert_sorted : (x : Str) (ys : List Str) → size (insert_sorted x ys) ≡ length x + size ys
unfolding size insert_sorted
size-insert_sorted x [] = refl
size-insert_sorted x (y ∷ ys) = ground (arith, size-insert_sorted x ys)

size-sorted : (xs : List Str) → size (sorted xs) ≡ size xs
unfolding size sorted
size-sorted [] = refl
size-sorted (x ∷ xs) = omega (arith, size-insert_sorted x (sorted xs), size-sorted xs)

size-le-join : (xs : List Str) → size xs ≤ length (join xs)
unfolding size join
size-le-join [] = omega arith
size-le-join (x ∷ []) = omega arith
size-le-join (x ∷ y ∷ ys) = omega (
  arith,
  size-le-join (y ∷ ys),
  length-append x (codes "; " ++ join (y ∷ ys)),
  length-append (codes "; ") (join (y ∷ ys)),
)

str_in-size : (x : Str) (xs : List Str) → str_in x xs ≡ true → length x ≤ size xs
unfolding str_in size
str_in-size x [] h = cc
str_in-size x (y ∷ ys) h = elim (Bool-cases (str_eq x y)) [
  | inl e ↦ omega (arith, ap length ((str_eq_iff x y).0 e))
  | inr e ↦ omega (arith, str_in-size x ys (rw e at h))
]

size-append : (xs ys : List Str) → size (xs ++ ys) ≡ size xs + size ys
unfolding size
size-append [] ys = omega arith
size-append (x ∷ xs) ys = omega (arith, size-append xs ys)

le-size-set_add : (x : Str) (xs : List Str) → length x ≤ size (set_add x xs)
unfolding set_add size
le-size-set_add x xs = elim (Bool-cases (str_in x xs)) [
  | inl h ↦ ground (arith, str_in-size x xs h)
  | inr h ↦ ground (arith, size-append xs (x ∷ []))
]

pub set_add-ge : (x : Str) (xs : List Str) → size xs ≤ size (set_add x xs)
unfolding set_add
set_add-ge x xs = ground (arith, size-append xs (x ∷ []))

-- The bucket of the trade is blocked, for a reason that is not an empty text.
abbrev pub IsBlocked : LiveTrade → Str → Coordinator → Type 0
IsBlocked trade mode s =
    0 < size (reasons_of (lookup (bucket_for_trade trade mode) s.blocked_buckets))

first_point : (text : Str) → 0 < length text → (x : ℕ) × (r : Str) × (text ≡ x ∷ r)
first_point [] h = absurd (omega arith)
first_point (x ∷ r) h = (x, r, refl)

shown :
    (reasons : List Str)
    → 0 < size reasons
    → (x : ℕ) × (r : Str) × (show_reasons reasons ≡ some (x ∷ r))
unfolding show_reasons size
shown [] h = absurd (omega arith)
shown (q ∷ qs) h =
    let (x, r, e) =
      first_point (join (sorted (q ∷ qs)))
        (omega (arith, size-le-join (sorted (q ∷ qs)), size-sorted (q ∷ qs))) in
    (x, r, ap some e)

-- A blocked bucket has a reason to show.
pub IsBlocked-reason :
    (trade : LiveTrade) (mode : Str) (s : Coordinator)
    → IsBlocked trade mode s
    → (x : ℕ) × (r : Str) × (bucket_block_reason trade mode s ≡ some (x ∷ r))
unfolding bucket_block_reason
IsBlocked-reason trade mode s b =
    shown (reasons_of (lookup (bucket_for_trade trade mode) s.blocked_buckets)) b

pub block_bucket-IsBlocked :
    (trade : LiveTrade) (mode reason : Str) (s : Coordinator)
    → 0 < length reason
    → IsBlocked trade mode (block_bucket (bucket_for_trade trade mode) reason s)
unfolding block_bucket
block_bucket-IsBlocked trade mode reason s h =
    let key = bucket_for_trade trade mode in
    let known = reasons_of (lookup key s.blocked_buckets) in
    rw (lookup-insert key key (set_add reason known) s.blocked_buckets, eqb_self key)
      (omega (arith, le-size-set_add reason known))

fill_conflict_size : (f owner : Str) → 0 < length (fill_conflict f owner)
unfolding fill_conflict
fill_conflict_size f owner = omega arith

order_conflict_size : (o owner t : Str) → 0 < length (order_conflict o owner t)
unfolding order_conflict
order_conflict_size o owner t = omega arith

-- A fill that another trade owns blocks the bucket of the trade that asks for it.
pub fill_conflict-IsBlocked :
    (f : Str) (trade : LiveTrade) (mode : Str) (s : Coordinator)
    → fill_is_available f trade.trade_id s ≡ false
    → IsBlocked trade mode (mark_fill_owner f trade mode s).1
unfolding mark_fill_owner fill_is_available
fill_conflict-IsBlocked f trade mode s h = elim (Option-cases (lookup f s.fill_owners)) [
  | inl free ↦ absurd (false≢true (sym (rw (free, fill_is_available) at h)))
  | inr (owner, e) ↦
      let other : str_eq owner trade.trade_id ≡ false = ground arith in
      rw (e, mark_fill_owner, other)
        (block_bucket-IsBlocked trade mode (fill_conflict f owner) s (fill_conflict_size f owner))
]

claim_order-IsBlocked :
    (o : Str) (trade : LiveTrade) (mode : Str) (s : Coordinator)
    → order_is_available (some o) trade.trade_id s ≡ false
    → IsBlocked trade mode (claim_order o trade.trade_id (bucket_for_trade trade mode) s)
unfolding claim_order order_is_available given
claim_order-IsBlocked [] trade mode s h = cc
claim_order-IsBlocked (x ∷ o) trade mode s h = elim (Option-cases (lookup (x ∷ o) s.order_owners)) [
  | inl free ↦ absurd (false≢true (sym (rw (free, order_is_available) at h)))
  | inr (owner, e) ↦
      let other : str_eq owner trade.trade_id ≡ false = ground arith in
      rw (e, claim_order, other)
        (block_bucket-IsBlocked trade mode (order_conflict (x ∷ o) owner trade.trade_id) s
          (order_conflict_size (x ∷ o) owner trade.trade_id))
]

empty_is_available : (t : Str) (s : Coordinator) → order_is_available (some []) t s ≡ true
unfolding order_is_available given
empty_is_available t s = refl

pub mark_order_owner-blocked :
    (x : ℕ) (o : Str) (trade : LiveTrade) (mode : Str) (s : Coordinator)
    → (mark_order_owner (some (x ∷ o)) trade mode s).blocked_buckets
      ≡ (claim_order (x ∷ o) trade.trade_id (bucket_for_trade trade mode) s).blocked_buckets
unfolding mark_order_owner given
mark_order_owner-blocked x o trade mode s = ground arith

-- An order that another trade owns blocks the bucket of the trade that asks for it.
pub order_conflict-IsBlocked :
    (o : Str) (trade : LiveTrade) (mode : Str) (s : Coordinator)
    → order_is_available (some o) trade.trade_id s ≡ false
    → IsBlocked trade mode (mark_order_owner (some o) trade mode s)
order_conflict-IsBlocked [] trade mode s h = cc (empty_is_available trade.trade_id s)
order_conflict-IsBlocked (x ∷ o) trade mode s h =
    rw mark_order_owner-blocked (claim_order-IsBlocked (x ∷ o) trade mode s h)
