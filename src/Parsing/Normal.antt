-- ===== src/Parsing/Normal.antt =====
-- The normalization of a signal for execution.
use triak_trade.Base.{
  ◌≡◌, ◌≢◌, ◌↔◌, ◌⊎◌, ℕ, Option-cases, refl, inl, inr, true, false, Bool-cases, Option, none, some,
  List, arith,
}
use triak_trade.Base.Int.{ℤ}
use triak_trade.Decimal.{Context}
use triak_trade.Domain.{TradeSide, long, short, buy, sell, unknown_side, EntryType, ParsedSignal}
use triak_trade.Parsing.Sides.{infer_trade_side_from_price_geometry, decide_side, entry_bounds}
use triak_trade.Parsing.Evidence.{long_evidence, short_evidence, infer-IsEvident}
use triak_trade.Parsing.Validator.{
  normal_entry_type, normal_side, normalize_for_execution, replace_side, entry_reference,
  is_open_action, is_open_side, is_positive,
}

normal_entry_type-twice :
    (t : EntryType) (low high : Option ℤ)
    → normal_entry_type (normal_entry_type t low high) low high ≡ normal_entry_type t low high
unfolding normal_entry_type
normal_entry_type-twice EntryType.unknown_entry none none = refl
normal_entry_type-twice EntryType.unknown_entry none (some h) = refl
normal_entry_type-twice EntryType.unknown_entry (some l) h = refl
normal_entry_type-twice EntryType.market l h = refl
normal_entry_type-twice EntryType.limit l h = refl
normal_entry_type-twice EntryType.range l h = refl
normal_entry_type-twice EntryType.trigger l h = refl

replace_side-twice :
    (side inferred : TradeSide)
    → replace_side (replace_side side inferred) inferred ≡ replace_side side inferred
unfolding replace_side
replace_side-twice side long = refl
replace_side-twice side short = refl
replace_side-twice side buy = refl
replace_side-twice side sell = refl
replace_side-twice side unknown_side = refl

normal_side-twice :
    (c : Context) (s : ParsedSignal)
    → normal_side c (record s {
      side = normal_side c s;
      entry_type = normal_entry_type s.entry_type s.entry_low s.entry_high;
    })
      ≡ normal_side c s
unfolding normal_side
normal_side-twice c s = ground (
  arith,
  replace_side-twice s.side
      (infer_trade_side_from_price_geometry s.entry_low s.entry_high s.stop_loss
        s.take_profits).side,
)

-- Normalizing a normalized signal changes nothing, and reports the same error.
pub normalize_for_execution-twice :
    (c : Context) (s : ParsedSignal)
    → normalize_for_execution c (normalize_for_execution c s).0 ≡ normalize_for_execution c s
unfolding normalize_for_execution
normalize_for_execution-twice c s = elim (Bool-cases (is_open_action s.action)) [
  | inl opens ↦
      rw
        (
          opens,
          normalize_for_execution,
          normal_side-twice c s,
          normal_entry_type-twice s.entry_type s.entry_low s.entry_high,
        )
        (rw opens refl)
  | inr other ↦ rw (other, normalize_for_execution) (rw other refl)
]

-- What the normalized side is, for a side that may be replaced.
pub record IsInferred (b : ℤ × ℤ) (stop : Option ℤ) (targets : List ℤ) (given side : TradeSide)
    : Type 0 where
  pub long_side :
      (side ≡ long)
      ↔ ((long_evidence b stop targets ≡ true) × (short_evidence b stop targets ≡ false))
  pub short_side :
      (side ≡ short)
      ↔ ((short_evidence b stop targets ≡ true) × (long_evidence b stop targets ≡ false))
  pub otherwise : side ≢ long → side ≢ short → side ≡ given

-- A direction is read off the replaced side exactly as off the inferred one.
replace_side-long :
    (side inferred : TradeSide)
    → is_open_side side ≡ true
    → (replace_side side inferred ≡ long) ↔ (inferred ≡ long)
unfolding replace_side is_open_side
replace_side-long side long h = (λ e. e, λ e. e)
replace_side-long side short h = (λ e. e, λ e. e)
replace_side-long side buy h = (λ e. e, λ e. e)
replace_side-long side sell h = (λ e. e, λ e. e)
replace_side-long long unknown_side h = cc
replace_side-long short unknown_side h = cc
replace_side-long buy unknown_side h = (λ e. cc e, λ e. cc e)
replace_side-long sell unknown_side h = (λ e. cc e, λ e. cc e)
replace_side-long unknown_side unknown_side h = (λ e. e, λ e. e)

replace_side-short :
    (side inferred : TradeSide)
    → is_open_side side ≡ true
    → (replace_side side inferred ≡ short) ↔ (inferred ≡ short)
unfolding replace_side is_open_side
replace_side-short side long h = (λ e. e, λ e. e)
replace_side-short side short h = (λ e. e, λ e. e)
replace_side-short side buy h = (λ e. e, λ e. e)
replace_side-short side sell h = (λ e. e, λ e. e)
replace_side-short long unknown_side h = cc
replace_side-short short unknown_side h = cc
replace_side-short buy unknown_side h = (λ e. cc e, λ e. cc e)
replace_side-short sell unknown_side h = (λ e. cc e, λ e. cc e)
replace_side-short unknown_side unknown_side h = (λ e. e, λ e. e)

-- The inference never gives BUY or SELL.
abbrev IsKnown : TradeSide → Type 0
IsKnown side = (side ≡ long) ⊎ (side ≡ short) ⊎ (side ≡ unknown_side)

decide_side-IsKnown : (side : TradeSide) (m n : ℕ) → IsKnown (decide_side side m n).side
unfolding decide_side
decide_side-IsKnown long m n = ground arith
decide_side-IsKnown short m n = ground arith
decide_side-IsKnown buy m n = ground arith
decide_side-IsKnown sell m n = ground arith
decide_side-IsKnown unknown_side m n = ground arith

infer-IsKnown :
    (low high stop : Option ℤ) (targets : List ℤ)
    → IsKnown (infer_trade_side_from_price_geometry low high stop targets).side
unfolding infer_trade_side_from_price_geometry
infer-IsKnown low high stop targets = elim (Option-cases (entry_bounds low high)) [
  | inl missing ↦ rw (missing, infer_trade_side_from_price_geometry) (inr (inr refl))
  | inr (b, found) ↦ rw (found, infer_trade_side_from_price_geometry) (decide_side-IsKnown _ _ _)
]

replaced-kept :
    (side inferred : TradeSide)
    → IsKnown inferred
    → replace_side side inferred ≢ long
    → replace_side side inferred ≢ short
    → replace_side side inferred ≡ side
unfolding replace_side
replaced-kept side long known h k = absurd (h refl)
replaced-kept side short known h k = absurd (k refl)
replaced-kept side buy known h k = elim known [
  | inl e ↦ cc e
  | inr (inl e) ↦ cc e
  | inr (inr e) ↦ cc e
]
replaced-kept side sell known h k = elim known [
  | inl e ↦ cc e
  | inr (inl e) ↦ cc e
  | inr (inr e) ↦ cc e
]
replaced-kept side unknown_side known h k = refl

open-IsInferred :
    (c : Context) (s : ParsedSignal) {b : ℤ × ℤ}
    → is_open_action s.action ≡ true
    → is_open_side s.side ≡ true
    → is_positive (entry_reference c s.entry_low s.entry_high) ≡ true
    → entry_bounds s.entry_low s.entry_high ≡ some b
    → IsInferred b s.stop_loss s.take_profits s.side (normalize_for_execution c s).0.side
unfolding normalize_for_execution normal_side
open-IsInferred c s {b} opens free positive bounded =
    let evident = infer-IsEvident s.entry_low s.entry_high s.stop_loss s.take_profits bounded in
    let inferred =
      (infer_trade_side_from_price_geometry s.entry_low s.entry_high s.stop_loss
        s.take_profits).side in
    let as_long = replace_side-long s.side inferred free in
    let as_short = replace_side-short s.side inferred free in
    rw (opens, positive, free, normalize_for_execution, normal_side)
      (record {
        long_side = (λ e. evident.0.0 (as_long.0 e), λ e. as_long.1 (evident.0.1 e));
        short_side = (λ e. evident.1.0 (as_short.0 e), λ e. as_short.1 (evident.1.1 e));
        otherwise =
            replaced-kept s.side inferred
              (infer-IsKnown s.entry_low s.entry_high s.stop_loss s.take_profits);
      })

-- LONG and SHORT are the sides that are not replaced.
is_open_side-true : (side : TradeSide) → is_open_side side ≡ true → (side ≢ long) × (side ≢ short)
unfolding is_open_side
is_open_side-true long h = cc
is_open_side-true short h = cc
is_open_side-true buy h = (λ e. cc e, λ e. cc e)
is_open_side-true sell h = (λ e. cc e, λ e. cc e)
is_open_side-true unknown_side h = (λ e. cc e, λ e. cc e)

is_open_side-false : (side : TradeSide) → is_open_side side ≡ false → (side ≡ long) ⊎ (side ≡ short)
unfolding is_open_side
is_open_side-false long h = inl refl
is_open_side-false short h = inr refl
is_open_side-false buy h = cc
is_open_side-false sell h = cc
is_open_side-false unknown_side h = cc

-- An OPEN signal whose reference price is positive keeps its side when that is LONG or SHORT. Any other side is
-- normalized to LONG exactly when the stop and the targets give evidence for a long trade and none for a short
-- one, to SHORT exactly in the mirrored case, and is kept otherwise.
pub normalize_for_execution-IsInferred :
    (c : Context) (s : ParsedSignal) {b : ℤ × ℤ}
    → is_open_action s.action ≡ true
    → is_positive (entry_reference c s.entry_low s.entry_high) ≡ true
    → entry_bounds s.entry_low s.entry_high ≡ some b
    → let side = (normalize_for_execution c s).0.side in
      (((s.side ≡ long) ⊎ (s.side ≡ short)) × (side ≡ s.side))
      ⊎ ((s.side ≢ long) × (s.side ≢ short) × IsInferred b s.stop_loss s.take_profits s.side side)
unfolding normalize_for_execution normal_side
normalize_for_execution-IsInferred c s {b} opens positive bounded =
    elim (Bool-cases (is_open_side s.side)) [
      | inl free ↦
          let (not_long, not_short) = is_open_side-true s.side free in
          inr (not_long, not_short, open-IsInferred c s opens free positive bounded)
      | inr fixed ↦ inl (
        is_open_side-false s.side fixed,
        rw (opens, positive, fixed, normalize_for_execution, normal_side) refl,
      )
    ]
