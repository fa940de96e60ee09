-- ===== src/LiveTrading/Coordinator/Queries.antt =====
-- The methods that only read the state.
use triak_trade.Base.{
  Bool, true, false, ◌&&◌, ◌||◌, if◌then◌else◌, not, Option, none, some, List, [], ◌∷◌, ◌++◌, map,
  keep, ltb, ◌==◌,
}
use triak_trade.Base.Int.{ℤ, ltb_ℤ}
use triak_trade.Base.Text.{Str, codes, str_eq, upper, lower}
use triak_trade.Base.Dict.{str_Eq, lookup, values}
use triak_trade.Decimal.{Context, sum, zero_d}
use triak_trade.LiveTrading.Models.{LiveTrade, is_active}
use triak_trade.LiveTrading.Coordinator.Defs.{
  AccountBucketKey, AccountTradeLeg, Coordinator, bucket, bucket_eq, bucket_for_trade,
  reserved_quantity, bucket_Eq,
}
use triak_trade.LiveTrading.Coordinator.Claims.{reasons_of, given}

unfoldable pub order_is_owned_by : Option Str → Str → Coordinator → Bool
order_is_owned_by order_id trade_id s = elim (given order_id) [
  | [] ↦ false
  | o ∷ _ ↦ elim (lookup o s.order_owners) [ none ↦ false | some owner ↦ str_eq owner trade_id ]
]

unfoldable pub order_is_available : Option Str → Str → Coordinator → Bool
order_is_available order_id trade_id s = elim (given order_id) [
  | [] ↦ true
  | o ∷ _ ↦ elim (lookup o s.order_owners) [ none ↦ true | some owner ↦ str_eq owner trade_id ]
]

unfoldable pub fill_is_available : Str → Str → Coordinator → Bool
fill_is_available fill_id trade_id s = elim (lookup fill_id s.fill_owners) [
  | none ↦ true
  | some owner ↦ str_eq owner trade_id
]

unfoldable pub fill_owner : Str → Coordinator → Option Str
fill_owner fill_id s = lookup fill_id s.fill_owners

unfoldable pub bucket_logical_quantity : Context → Str → Str → Str → Option Str → Coordinator → ℤ
bucket_logical_quantity c mode symbol side exclude s =
    let key : AccountBucketKey = record {
      trading_mode = mode;
      symbol = upper symbol;
      side = lower side;
    } in
    sum c (
      map (reserved_quantity c) (
        keep
          (λ leg. bucket_eq (bucket leg) key && not (excluded leg exclude) && is_active leg.status)
          (values s.legs)))
  where
    excluded : AccountTradeLeg → Option Str → Bool
    excluded leg none = false
    excluded leg (some t) = str_eq leg.trade_id t

unfoldable pub has_other_open_legs : Context → LiveTrade → Str → Coordinator → Bool
has_other_open_legs c trade mode s =
    ltb_ℤ zero_d (bucket_logical_quantity c mode trade.symbol trade.side (some trade.trade_id) s)

-- Python's order of texts, and `sorted`.
unfoldable pub str_leb : Str → Str → Bool
str_leb [] t = true
str_leb (a ∷ s) [] = false
str_leb (a ∷ s) (b ∷ t) = ltb a b || (a == b && str_leb s t)

unfoldable pub insert_sorted : Str → List Str → List Str
insert_sorted x [] = x ∷ []
insert_sorted x (y ∷ ys) =
    let rest = insert_sorted x ys in if str_leb x y then x ∷ y ∷ ys else y ∷ rest

unfoldable pub sorted : List Str → List Str
unfolding str_leb insert_sorted
sorted [] = []
sorted (x ∷ xs) = insert_sorted x (sorted xs)

-- `"; ".join(items)`
unfoldable pub join : List Str → Str
join [] = []
join (x ∷ []) = x
join (x ∷ y ∷ ys) = x ++ (codes "; " ++ join (y ∷ ys))

unfoldable pub show_reasons : List Str → Option Str
unfolding sorted join
show_reasons [] = none
show_reasons (r ∷ rs) = some (join (sorted (r ∷ rs)))

unfoldable pub bucket_block_reason : LiveTrade → Str → Coordinator → Option Str
bucket_block_reason trade mode s =
    show_reasons (reasons_of (lookup (bucket_for_trade trade mode) s.blocked_buckets))
