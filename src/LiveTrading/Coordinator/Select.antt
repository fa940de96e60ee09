-- ===== src/LiveTrading/Coordinator/Select.antt =====
-- The legs on the side of a trade and on the opposite side.
use triak_trade.Base.{Bool, ◌&&◌, ◌||◌, not, if◌then◌else◌, ltb, ◌==◌, List, [], ◌∷◌, keep}
use triak_trade.Base.Int.{ltb_ℤ}
use triak_trade.Base.Text.{Str, codes, str_eq, upper, lower}
use triak_trade.Base.Dict.{values}
use triak_trade.Decimal.{Context, zero_d}
use triak_trade.LiveTrading.Models.{LiveTrade, is_active}
use triak_trade.LiveTrading.Coordinator.Defs.{
  AccountBucketKey, AccountTradeLeg, Coordinator, bucket, bucket_eq, bucket_for_trade,
  reserved_quantity,
}
use triak_trade.LiveTrading.Coordinator.Queries.{str_leb}

-- The condition of `_same_side_legs`.
unfoldable pub is_same_side : Context → Str → LiveTrade → AccountTradeLeg → Bool
is_same_side c mode trade leg =
    bucket_eq (bucket leg) (bucket_for_trade trade mode)
    && (not (str_eq leg.trade_id trade.trade_id)
        && (ltb_ℤ zero_d (reserved_quantity c leg) && is_active leg.status))

-- `_same_side_legs`
unfoldable pub same_side_legs : Context → Str → LiveTrade → Coordinator → List AccountTradeLeg
same_side_legs c mode trade s = keep (is_same_side c mode trade) (values s.legs)

unfoldable pub opposite_bucket : Str → LiveTrade → AccountBucketKey
opposite_bucket mode trade = record {
  trading_mode = mode;
  symbol = upper trade.symbol;
  side = if str_eq (lower trade.side) (codes "long") then codes "short" else codes "long";
}

-- `sorted(…, key=lambda item: (item.opened_at, item.trade_id))`
unfoldable pub earlier : AccountTradeLeg → AccountTradeLeg → Bool
earlier a b =
    ltb a.opened_at b.opened_at || (a.opened_at == b.opened_at && str_leb a.trade_id b.trade_id)

unfoldable pub insert_leg : AccountTradeLeg → List AccountTradeLeg → List AccountTradeLeg
insert_leg x [] = x ∷ []
insert_leg x (y ∷ ys) = let rest = insert_leg x ys in if earlier x y then x ∷ y ∷ ys else y ∷ rest

unfoldable pub sort_legs : List AccountTradeLeg → List AccountTradeLeg
sort_legs [] = []
sort_legs (x ∷ xs) = insert_leg x (sort_legs xs)

-- `_opposite_legs`
unfoldable pub opposite_legs : Context → Str → LiveTrade → Coordinator → List AccountTradeLeg
unfolding sort_legs insert_leg earlier opposite_bucket
opposite_legs c mode trade s = sort_legs (
    keep
      (λ leg.
        bucket_eq (bucket leg) (opposite_bucket mode trade)
        && (ltb_ℤ zero_d (reserved_quantity c leg) && is_active leg.status))
      (values s.legs))
