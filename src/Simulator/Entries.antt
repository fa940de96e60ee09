-- ===== src/Simulator/Entries.antt =====
-- The entry of a signal: `_find_entry_execution`, over the candles of the signal's symbol.
use triak_trade.Base.{
  ℕ, zero, suc, ◌<◌, ◌≡◌, ◌≢◌, refl, sym, ap, subst, ◌⊎◌, inl, inr, leb, Bool, true, false, not,
  ◌&&◌, if◌then◌else◌, Bool-cases, Option, Option-cases, none, some, List, [], ◌∷◌, get_elem?,
  arith,
}
use triak_trade.Base.Int.{ℤ, ◌≤ℤ◌, leb_ℤ}
use triak_trade.Decimal.{Context, of_ℕ, add, div}
use triak_trade.Domain.{EntryType}
use triak_trade.Domain.Records.{Candle}

unfoldable pub is_market : EntryType → Bool
is_market EntryType.market = true
is_market _ = false

-- The first candle that passes a test.
unfoldable pub first_candle : (Candle → Bool) → List Candle → Option Candle
first_candle test [] = none
first_candle test (k ∷ ks) = let rest = first_candle test ks in if test k then some k else rest

unfoldable pub opens_at_or_after : ℕ → Candle → Bool
opens_at_or_after signal_time k = leb signal_time k.open_time

-- It closes after the signal, and its range meets the entry's.
unfoldable pub touches : ℕ → ℤ → ℤ → Candle → Bool
touches signal_time entry_low entry_high k =
    not (leb k.close_time signal_time) && (leb_ℤ k.low entry_high && leb_ℤ entry_low k.high)

-- The price and the time of the entry.
unfoldable pub open_of : Option Candle → Option (ℤ × ℕ)
open_of none = none
open_of (some k) = some (k.open_price, k.open_time)

unfoldable pub at_price : ℤ → Option Candle → Option (ℤ × ℕ)
at_price price none = none
at_price price (some k) = some (price, k.open_time)

unfoldable pub first_candle_open_after : ℕ → List Candle → Option ℤ
first_candle_open_after ts candles = elim (first_candle (opens_at_or_after ts) candles) [
  | none ↦ none
  | some k ↦ some k.open_price
]

-- The entry within bounds, or the next open without a lower one.
unfoldable pub bounded_entry : Context → Option ℤ → Option ℤ → ℕ → List Candle → Option (ℤ × ℕ)
bounded_entry c (some low) (some high) signal_time candles =
    at_price (div c (add c low high) (of_ℕ c 2))
      (first_candle (touches signal_time low high) candles)
bounded_entry c (some low) none signal_time candles =
    at_price low (first_candle (touches signal_time low low) candles)
bounded_entry c none high signal_time candles =
    open_of (first_candle (opens_at_or_after signal_time) candles)

unfoldable pub find_entry_execution :
    Context → EntryType → Option ℤ → Option ℤ → ℕ → List Candle → Option (ℤ × ℕ)
find_entry_execution c entry_type entry_low entry_high signal_time candles =
    if is_market entry_type
    then open_of (first_candle (opens_at_or_after signal_time) candles)
    else bounded_entry c entry_low entry_high signal_time candles

-- A candle at a position that passes the test, the first that does.
pub record IsFirstCandle (test : Candle → Bool) (candles : List Candle) (k : Candle) : Type 0 where
  pub index : ℕ
  pub there : get_elem? candles index ≡ some k
  pub passes : test k ≡ true
  pub earlier : (j : ℕ) → j < index → (u : Candle) → get_elem? candles j ≡ some u → test u ≡ false

some-injective : {A : Type 0} {a b : A} → ◌≡◌ {A = Option A} (some a) (some b) → a ≡ b
some-injective {a = a} h = ap (λ o. elim o [ some x ↦ x | none ↦ a ]) h

not_before :
    (test : Candle → Bool) (x : Candle) (xs : List Candle)
    → test x ≡ false
    → (index : ℕ) → ((j : ℕ) → j < index → (u : Candle) → get_elem? xs j ≡ some u → test u ≡ false)
    → (j : ℕ) → j < suc index
    → (u : Candle) → get_elem? (x ∷ xs) j ≡ some u
    → test u ≡ false
not_before test x xs missed index h zero less u at =
    subst (λ (v : Candle). test v ≡ false) (some-injective at) missed
not_before test x xs missed index h (suc j) less u at = h j (omega arith) u at

first_candle-IsFirstCandle :
    (test : Candle → Bool) (ks : List Candle) (k : Candle)
    → first_candle test ks ≡ some k
    → IsFirstCandle test ks k
unfolding first_candle
first_candle-IsFirstCandle test [] k h = cc
first_candle-IsFirstCandle test (x ∷ xs) k h = elim (Bool-cases (test x)) [
  | inl hit ↦
      let same : x ≡ k = some-injective (rw (hit, first_candle) at h) in
      record {
        index = 0;
        there = ap some same;
        passes = subst (λ (u : Candle). test u ≡ true) same hit;
        earlier = λ j less u at. absurd (omega arith);
      }
  | inr missed ↦
      let r = first_candle-IsFirstCandle test xs k (rw (missed, first_candle) at h) in
      record {
        index = suc r.index;
        there = r.there;
        passes = r.passes;
        earlier = λ j less u at. not_before test x xs missed r.index r.earlier j less u at;
      }
]

-- How an entry at a price and a time came about: for a market entry, or without a lower bound, at the open of the
-- first candle from the signal on, and else at the price of the bounds in the first candle that closes after the
-- signal and meets them.
pub record IsExecution (c : Context) (kind : EntryType) (low high : Option ℤ) (signal_time : ℕ)
    (candles : List Candle) (price : ℤ) (time : ℕ) : Type 0 where
  pub candle : Candle
  pub opened : time ≡ candle.open_time
  pub outcome :
      (((kind ≡ EntryType.market) ⊎ (low ≡ none))
        × (price ≡ candle.open_price)
        × IsFirstCandle (opens_at_or_after signal_time) candles candle)
      ⊎ ((l : ℤ) × (kind ≢ EntryType.market)
          × (low ≡ some l)
          × (high ≡ none)
          × (price ≡ l)
          × (candle.low ≤ℤ price)
          × (price ≤ℤ candle.high)
          × (signal_time < candle.close_time)
          × IsFirstCandle (touches signal_time l l) candles candle)
      ⊎ ((l : ℤ) × (h : ℤ) × (kind ≢ EntryType.market)
          × (low ≡ some l)
          × (high ≡ some h)
          × (price ≡ div c (add c l h) (of_ℕ c 2))
          × (candle.low ≤ℤ h)
          × (l ≤ℤ candle.high)
          × (signal_time < candle.close_time)
          × IsFirstCandle (touches signal_time l h) candles candle)

opened-IsExecution :
    (c : Context) (kind : EntryType) (low high : Option ℤ) (t : ℕ) (ks : List Candle) {price : ℤ}
    {time : ℕ}
    → (kind ≡ EntryType.market) ⊎ (low ≡ none)
    → open_of (first_candle (opens_at_or_after t) ks) ≡ some (price, time)
    → IsExecution c kind low high t ks price time
unfolding open_of
opened-IsExecution c kind low high t ks {price} {time} why h =
    elim (Option-cases (first_candle (opens_at_or_after t) ks)) [
      | inl missing ↦ cc (rw missing at h)
      | inr (k, found) ↦
          let same = some-injective (rw found at h) in
          record {
            candle = k;
            opened = sym (ap (λ (x : ℤ × ℕ). x.1) same);
            outcome = inl (
              why,
              sym (ap (λ (x : ℤ × ℕ). x.0) same),
              first_candle-IsFirstCandle (opens_at_or_after t) ks k found,
            );
          }
    ]

touch_parts :
    (t : ℕ) (l h : ℤ) (k : Candle)
    → touches t l h k ≡ true
    → (k.low ≤ℤ h) × (l ≤ℤ k.high) × (t < k.close_time)
unfolding touches
touch_parts t l h k e = ground arith

bounded-IsExecution :
    (c : Context) (kind : EntryType) (low high : Option ℤ) (t : ℕ) (ks : List Candle) {price : ℤ}
    {time : ℕ}
    → kind ≢ EntryType.market
    → bounded_entry c low high t ks ≡ some (price, time)
    → IsExecution c kind low high t ks price time
unfolding bounded_entry at_price
bounded-IsExecution c kind none high t ks other e =
    opened-IsExecution c kind none high t ks (inr refl) e
bounded-IsExecution c kind (some l) none t ks {price} {time} other e =
    elim (Option-cases (first_candle (touches t l l) ks)) [
      | inl missing ↦ cc (rw missing at e)
      | inr (k, found) ↦
          let same = some-injective (rw found at e) in
          let at_l : price ≡ l = sym (ap (λ (x : ℤ × ℕ). x.0) same) in
          let first = first_candle-IsFirstCandle (touches t l l) ks k found in
          let (low, high, later) = touch_parts t l l k first.passes in
          record {
            candle = k;
            opened = sym (ap (λ (x : ℤ × ℕ). x.1) same);
            outcome =
                inr (inl (l, other, refl, refl, at_l, rw at_l low, rw at_l high, later, first));
          }
    ]
bounded-IsExecution c kind (some l) (some h) t ks {price} {time} other e =
    elim (Option-cases (first_candle (touches t l h) ks)) [
      | inl missing ↦ cc (rw missing at e)
      | inr (k, found) ↦
          let same = some-injective (rw found at e) in
          let first = first_candle-IsFirstCandle (touches t l h) ks k found in
          let (low, high, later) = touch_parts t l h k first.passes in
          record {
            candle = k;
            opened = sym (ap (λ (x : ℤ × ℕ). x.1) same);
            outcome = inr (
                inr (
                  l,
                  h,
                  other,
                  refl,
                  refl,
                  sym (ap (λ (x : ℤ × ℕ). x.0) same),
                  low,
                  high,
                  later,
                  first,
                ));
          }
    ]

is_market-true : (kind : EntryType) → is_market kind ≡ true → kind ≡ EntryType.market
unfolding is_market
is_market-true EntryType.market h = refl
is_market-true EntryType.limit h = cc
is_market-true EntryType.range h = cc
is_market-true EntryType.trigger h = cc
is_market-true EntryType.unknown_entry h = cc

is_market-false : (kind : EntryType) → is_market kind ≡ false → kind ≢ EntryType.market
unfolding is_market
is_market-false kind h e = let k : is_market kind ≡ true = rw e refl in cc (h, k)

-- A market entry, and one without a lower bound, happens at the open of the first candle that opens at or after
-- the signal. Any other happens with only a lower bound at that price, within the range of the first candle
-- that reaches it and closes after the signal, and with both bounds at their middle, when the first candle that
-- closes after the signal and meets them does.
pub find_entry_execution-IsExecution :
    (c : Context) (entry_type : EntryType) (entry_low entry_high : Option ℤ) (signal_time : ℕ)
    (candles : List Candle) {price : ℤ} {time : ℕ}
    → find_entry_execution c entry_type entry_low entry_high signal_time candles
      ≡ some (price, time)
    → IsExecution c entry_type entry_low entry_high signal_time candles price time
unfolding find_entry_execution
find_entry_execution-IsExecution c kind low high t ks h = elim (Bool-cases (is_market kind)) [
  | inl at_market ↦
      opened-IsExecution c kind low high t ks (inl (is_market-true kind at_market))
        (rw at_market at h)
  | inr bounded ↦
      bounded-IsExecution c kind low high t ks (is_market-false kind bounded) (rw bounded at h)
]
