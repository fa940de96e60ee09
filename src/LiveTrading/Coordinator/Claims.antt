-- ===== src/LiveTrading/Coordinator/Claims.antt =====
-- The identifiers of a trade's orders, the owner of an order, and the reasons that block a bucket. A
-- Python set is a list without repetitions, in the order in which its items were added.
use triak_trade.Base.{if◌then◌else◌, Option, none, some, List, [], ◌∷◌, ◌++◌}
use triak_trade.Base.Text.{Str, codes, str_eq, str_in}
use triak_trade.Base.Dict.{str_Eq, lookup, insert}
use triak_trade.LiveTrading.Models.{LiveTrade}
use triak_trade.LiveTrading.Coordinator.Defs.{AccountBucketKey, Coordinator, bucket_Eq}

-- `s.add(x)`
unfoldable pub set_add : Str → List Str → List Str
set_add x s = if str_in x s then s else s ++ x ∷ []

-- `set(items)`
unfoldable pub to_set : List Str → List Str
to_set [] = []
to_set (x ∷ xs) = let rest = to_set xs in if str_in x rest then rest else x ∷ rest

-- An identifier that is neither `None` nor empty.
unfoldable pub given : Option Str → List Str
given none = []
given (some []) = []
given (some (x ∷ s)) = (x ∷ s) ∷ []

abbrev given_all {ℓ} : {A : Type ℓ} → (A → Option Str) → List A → List Str
given_all f [] = []
given_all f (x ∷ xs) = given (f x) ++ given_all f xs

-- `_trade_order_ids`
unfoldable pub trade_order_ids : LiveTrade → List Str
unfolding given
trade_order_ids trade =
    given trade.entry_order_id
    ++ (given_all (λ p. p.order_id) trade.entry_order_plan
        ++ (given trade.sl_order_id
            ++ (given_all some trade.tp_order_ids
                ++ given_all (λ p. p.order_id) trade.tp_order_plan)))

-- The set of a bucket, empty if there is none.
abbrev pub reasons_of : Option (List Str) → List Str
reasons_of none = []
reasons_of (some reasons) = reasons

-- `self._blocked_buckets.setdefault(key, set()).add(reason)`
unfoldable pub block_bucket : AccountBucketKey → Str → Coordinator → Coordinator
block_bucket key reason s = record s {
  blocked_buckets =
      insert key (set_add reason (reasons_of (lookup key s.blocked_buckets))) s.blocked_buckets;
}

unfoldable pub order_conflict : Str → Str → Str → Str
order_conflict order_id owner trade_id =
    codes "exchange order "
    ++ (order_id ++ (codes " has multiple logical owners: " ++ (owner ++ (codes ", " ++ trade_id))))

unfoldable pub fill_conflict : Str → Str → Str
fill_conflict fill_id owner =
    codes "exchange fill " ++ (fill_id ++ (codes " is already owned by trade " ++ owner))

-- `_claim_order_locked`
unfoldable pub claim_order : Str → Str → AccountBucketKey → Coordinator → Coordinator
unfolding block_bucket order_conflict
claim_order order_id trade_id key s =
    let claimed = record s { order_owners = insert order_id trade_id s.order_owners } in
    elim (lookup order_id s.order_owners) [
      | none ↦ claimed
      | some owner ↦
          if str_eq owner trade_id
          then claimed
          else block_bucket key (order_conflict order_id owner trade_id) s
    ]

unfoldable pub claim_orders : List Str → Str → AccountBucketKey → Coordinator → Coordinator
unfolding claim_order
claim_orders [] trade_id key s = s
claim_orders (o ∷ os) trade_id key s = claim_orders os trade_id key (claim_order o trade_id key s)
