-- ===== src/LiveTrading/Positions/Targets.antt =====
-- The helpers on targets and entries of position_manager.py.
use triak_trade.Base.{
  ℕ, ◌-◌, Bool, true, false, not, ◌&&◌, ◌||◌, if◌then◌else◌, Option, none, some, List, [], ◌∷◌, any,
  length, keep,
}
use triak_trade.Base.Int.{ℤ, leb_ℤ, ltb_ℤ, eqb_ℤ, min_ℤ, max_ℤ, abs_ℤ}
use triak_trade.Base.Text.{Str, codes, str_eq}
use triak_trade.Decimal.{Context, of_ℕ, add, sub, mul, div, percent, quantize, zero_d}
use triak_trade.Domain.{TradeSide, is_long, ParsedSignal}

-- The notes of the module, with the values that their texts show.
pub data Note : Type 0 where
  tp1_min_profit_pct tp1_min_profit_floor : ℤ → Note
  tp1_min_profit_removed tp1_min_profit_replaced_all : ℕ → Note
  leverage_clamped : ℕ → ℕ → Note
  leverage_updated : ℕ → Note
  allocation_pct : ℤ → Note
  synthetic_stop_strategy : Str → Note
  synthetic_stop_pct : ℤ → Note
  synthetic_stop_risk_budget_exhausted_by_fees : Note
  synthetic_stop_qty_capped : ℤ → ℤ → Note
  synthetic_stop_risk_capped : ℤ → ℤ → ℤ → Note
  quantity_risk_capped : ℤ → ℤ → ℤ → Note
  synthetic_stop_loss_risk_capped : ℤ → ℤ → ℤ → Note
  tp_direction_filtered : ℕ → Note
  synthetic_take_profits_strategy : List ℤ → Note
  entry_fill : Note → Note
  entry_fill_synthetic_stop : Str → ℤ → Note
  entry_fill_stop_capped : ℤ → ℤ → ℤ → Note
  entry_fill_tp_direction_filtered : ℕ → Note
  entry_fill_default_take_profits : List ℤ → Note
  stop_moved_to_entry stop_updated : ℤ → Note
  stop_update_rejected : ℤ → ℤ → ℤ → Note
  take_profits_ignored : Note
  take_profits_updated : List ℤ → Note
  partial_closed : ℤ → ℤ → ℤ → Note
  fully_closed : ℤ → ℤ → Note

abbrev pub long_text : Str
long_text = codes "long"

abbrev pub short_text : Str
short_text = codes "short"

-- `side == "long"`
unfoldable pub is_long_text : Str → Bool
is_long_text side = str_eq side long_text

-- `TradeSide.LONG if trade.side == "long" else TradeSide.SHORT`
unfoldable pub side_of : Str → TradeSide
unfolding is_long_text
side_of side = if is_long_text side then TradeSide.long else TradeSide.short

-- `"long" if side.is_long else "short"`
unfoldable pub side_text : TradeSide → Str
side_text side = if is_long side then long_text else short_text

-- On the losing side of the entry, or at it.
unfoldable pub on_wrong_side : Bool → ℤ → ℤ → Bool
on_wrong_side long entry_price tp = if long then leb_ℤ tp entry_price else leb_ℤ entry_price tp

-- `abs(entry_price - stop_loss) * Decimal("50")`
unfoldable pub max_distance_of : Context → ℤ → Option ℤ → Option ℤ
max_distance_of c entry_price none = none
max_distance_of c entry_price (some stop) =
    some (mul c (abs_ℤ (sub c entry_price stop)) (of_ℕ c 50))

unfoldable pub is_too_far : Context → ℤ → Option ℤ → ℤ → Bool
is_too_far c entry_price none tp = false
is_too_far c entry_price (some distance) tp =
    ltb_ℤ zero_d distance && ltb_ℤ distance (abs_ℤ (sub c entry_price tp))

-- The tests of the loop but the last: whether the target is used unless it was seen.
unfoldable pub is_valid_target : Context → Bool → ℤ → Option ℤ → ℤ → Bool
is_valid_target c long entry_price max_distance tp = not (
    leb_ℤ tp zero_d
    || (on_wrong_side long entry_price tp || is_too_far c entry_price max_distance tp))

-- The loop, with the targets seen.
unfoldable pub collect : (ℤ → Bool) → List ℤ → List ℤ → List ℤ
collect valid seen [] = []
collect valid seen (tp ∷ tps) =
    let used = collect valid (tp ∷ seen) tps in
    let skipped = collect valid seen tps in
    if valid tp && not (any (eqb_ℤ tp) seen) then tp ∷ used else skipped

-- The order of the targets of a long trade, and of a short one.
unfoldable pub is_before : Bool → ℤ → ℤ → Bool
is_before long a b = if long then leb_ℤ a b else leb_ℤ b a

unfoldable pub insert_target : Bool → ℤ → List ℤ → List ℤ
insert_target long x [] = x ∷ []
insert_target long x (y ∷ ys) =
    let rest = insert_target long x ys in if is_before long x y then x ∷ y ∷ ys else y ∷ rest

-- `sort(reverse=not is_long)`
unfoldable pub sort_targets : Bool → List ℤ → List ℤ
sort_targets long [] = []
sort_targets long (x ∷ xs) = insert_target long x (sort_targets long xs)

unfoldable pub sanitize_take_profits : Context → List ℤ → Str → ℤ → Option ℤ → List ℤ
sanitize_take_profits c take_profits side entry_price stop_loss =
    let long = is_long_text side in
    let max_distance = max_distance_of c entry_price stop_loss in
    sort_targets long (collect (is_valid_target c long entry_price max_distance) [] take_profits)

-- `==` of two lists.
unfoldable pub same_prices : List ℤ → List ℤ → Bool
same_prices [] [] = true
same_prices (x ∷ xs) (y ∷ ys) = eqb_ℤ x y && same_prices xs ys
same_prices _ _ = false

-- `threshold`
unfoldable pub floor_price : Context → Bool → ℤ → ℤ → ℤ
floor_price c long entry_price min_profit_pct =
    let share = percent c min_profit_pct in
    quantize c (mul c entry_price (if long then add c (of_ℕ c 1) share else sub c (of_ℕ c 1) share))

unfoldable pub meets_floor : Bool → ℤ → ℤ → Bool
meets_floor long threshold tp = if long then leb_ℤ threshold tp else leb_ℤ tp threshold

-- The targets after the threshold was applied, and the last note.
unfoldable pub or_floor : List ℤ → ℤ → List ℤ → List ℤ × Note
or_floor take_profits threshold [] =
    (threshold ∷ [], Note.tp1_min_profit_replaced_all (length take_profits))
or_floor take_profits threshold (t ∷ ts) =
    (t ∷ ts, Note.tp1_min_profit_removed (length take_profits - length (t ∷ ts)))

unfoldable pub is_empty : List ℤ → Bool
is_empty [] = true
is_empty (_ ∷ _) = false

unfoldable pub enforce_minimum_first_take_profit :
    Context → List ℤ → Bool → ℤ → ℤ → List ℤ × List Note
unfolding or_floor
enforce_minimum_first_take_profit c take_profits long entry_price min_profit_pct =
    let threshold = floor_price c long entry_price min_profit_pct in
    let adjusted = keep (meets_floor long threshold) take_profits in
    let (kept, last) = or_floor take_profits threshold adjusted in
    if is_empty take_profits || (leb_ℤ entry_price zero_d || leb_ℤ min_profit_pct zero_d)
    then (take_profits, [])
    else if same_prices adjusted take_profits
    then (take_profits, [])
    else (
      kept,
      Note.tp1_min_profit_pct min_profit_pct ∷ Note.tp1_min_profit_floor threshold ∷ last ∷ [],
    )

-- The middle of two bounds, or the one that is given.
unfoldable pub entry_of : Context → Option ℤ → Option ℤ → Option ℤ
entry_of c (some high) (some low) = some (quantize c (div c (add c high low) (of_ℕ c 2)))
entry_of c (some high) none = some high
entry_of c none low = low

unfoldable pub resolve_entry_price : Context → ParsedSignal → Option ℤ
resolve_entry_price c signal = entry_of c signal.entry_high signal.entry_low

unfoldable pub synthetic_stop : Context → TradeSide → ℤ → ℤ → ℤ
synthetic_stop c side entry_price stop_pct =
    let dist = percent c (mul c entry_price stop_pct) in
    if is_long side
    then quantize c (sub c entry_price dist)
    else quantize c (add c entry_price dist)

unfoldable pub allocation_pct_for_signal : Context → ℤ → ℤ → ℤ → ℤ → ℤ
allocation_pct_for_signal c allocation_factor_pct leverage min_allocation_pct max_allocation_pct =
    let raw_pct = div c allocation_factor_pct (max_ℤ leverage (of_ℕ c 1)) in
    let floor_pct = max_ℤ min_allocation_pct zero_d in
    let ceiling_pct = max_ℤ max_allocation_pct floor_pct in
    min_ℤ (max_ℤ raw_pct floor_pct) ceiling_pct
