-- ===== src/Parsing/Ranges.antt =====
-- What the constructor of a signal accepts and refuses.
use triak_trade.Base.{
  ℕ, zero, suc, ◌≤◌, ◌≡◌, refl, true, false, Bool-cases, ◌⊎◌, inl, inr, Option, none, some, arith,
  ok, err,
}
use mathlib.Core.Option
use mathlib.Core.Option.{some-injective}
use triak_trade.Base.Int.{ℤ, pos, negsuc, ◌≤ℤ◌, ◌<ℤ◌, ltb_ℤ}
use triak_trade.Decimal.{Context, of_ℕ}
use triak_trade.Domain.{ParsedSignal}
use triak_trade.Domain.Records.{
  FieldError, confidence_range, leverage_not_positive, validate_signal, validate_leverage,
  sorted_range, out_of_range,
}
use triak_trade.Parsing.Validator.{bad_range}

sorted_range-bad_range :
    (low high : Option ℤ) → bad_range (sorted_range low high).0 (sorted_range low high).1 ≡ false
unfolding sorted_range bad_range
sorted_range-bad_range none none = refl
sorted_range-bad_range none (some h) = refl
sorted_range-bad_range (some l) none = refl
sorted_range-bad_range (some l) (some h) = ground arith

-- What an accepted signal satisfies, for the leverage and the fields that were given. Its bounds are those that
-- were given, in order.
pub record IsAccepted (c : Context) (leverage : Option ℤ) (given s : ParsedSignal) : Type 0 where
  pub confidence_low : pos 0 ≤ℤ s.confidence
  pub confidence_high : s.confidence ≤ℤ of_ℕ c 1
  pub same_confidence : s.confidence ≡ given.confidence
  pub same_leverage : leverage ≡ Option.map pos s.leverage
  pub leveraged : (n : ℕ) → s.leverage ≡ some n → 1 ≤ n
  pub bounds :
      ((s.entry_low ≡ given.entry_low) × (s.entry_high ≡ given.entry_high))
      ⊎ ((s.entry_low ≡ given.entry_high) × (s.entry_high ≡ given.entry_low))
  pub ordered : (low high : ℤ) → s.entry_low ≡ some low → s.entry_high ≡ some high → low ≤ℤ high
  pub range : bad_range s.entry_low s.entry_high ≡ false

-- Why a signal is refused.
pub data IsRefused (c : Context) (leverage : Option ℤ) (given : ParsedSignal) : Type 0 where
  unsure : (given.confidence <ℤ pos 0) ⊎ (of_ℕ c 1 <ℤ given.confidence) → IsRefused c leverage given
  unleveraged : (n : ℤ) → leverage ≡ some n → n ≤ℤ pos 0 → IsRefused c leverage given

validate_leverage-cases :
    (leverage : Option ℤ)
    → ((given : Option ℕ) × (validate_leverage leverage ≡ ok given)
        × (leverage ≡ Option.map pos given)
        × ((n : ℕ) → given ≡ some n → 1 ≤ n))
      ⊎ ((n : ℤ) × (e : FieldError) × (leverage ≡ some n)
          × (n ≤ℤ pos 0)
          × (validate_leverage leverage ≡ err e))
unfolding validate_leverage
validate_leverage-cases none = inl (none, refl, refl, λ n h. cc h)
validate_leverage-cases (some (pos zero)) =
    inr (pos 0, leverage_not_positive, refl, omega arith, refl)
validate_leverage-cases (some (pos (suc k))) =
    inl (some (suc k), refl, refl, λ n h. let same = some-injective _ _ h in omega arith)
validate_leverage-cases (some (negsuc k)) =
    inr (negsuc k, leverage_not_positive, refl, omega arith, refl)

sorted_range-bounds :
    (low high : Option ℤ)
    → let range = sorted_range low high in
      ((range.0 ≡ low) × (range.1 ≡ high)) ⊎ ((range.0 ≡ high) × (range.1 ≡ low))
unfolding sorted_range
sorted_range-bounds none high = inl (refl, refl)
sorted_range-bounds (some l) none = inl (refl, refl)
sorted_range-bounds (some l) (some h) = elim (Bool-cases (ltb_ℤ h l)) [
  | inl swapped ↦ rw (swapped, sorted_range) (inr (refl, refl))
  | inr kept ↦ rw (kept, sorted_range) (inl (refl, refl))
]

sorted_range-ordered :
    (low high : Option ℤ) (l h : ℤ)
    → (sorted_range low high).0 ≡ some l
    → (sorted_range low high).1 ≡ some h
    → l ≤ℤ h
unfolding sorted_range
sorted_range-ordered none high l h e f = cc e
sorted_range-ordered (some a) none l h e f = cc f
sorted_range-ordered (some a) (some b) l h e f = elim (Bool-cases (ltb_ℤ b a)) [
  | inl swapped ↦
      let first = some-injective _ _ (rw (swapped, sorted_range) at e) in
      let second = some-injective _ _ (rw (swapped, sorted_range) at f) in ground arith
  | inr kept ↦
      let first = some-injective _ _ (rw (kept, sorted_range) at e) in
      let second = some-injective _ _ (rw (kept, sorted_range) at f) in ground arith
]

sorted-IsAccepted :
    (c : Context) (leverage : Option ℤ) (accepted : Option ℕ) (s : ParsedSignal)
    → out_of_range c s.confidence ≡ false
    → leverage ≡ Option.map pos accepted
    → ((n : ℕ) → accepted ≡ some n → 1 ≤ n)
    → let range = sorted_range s.entry_low s.entry_high in
      IsAccepted c leverage s
        (record s { leverage = accepted; entry_low = range.0; entry_high = range.1 })
unfolding out_of_range
sorted-IsAccepted c leverage accepted s sure same positive = record {
  confidence_low = ground arith;
  confidence_high = ground arith;
  same_confidence = refl;
  same_leverage = same;
  leveraged = positive;
  bounds = sorted_range-bounds s.entry_low s.entry_high;
  ordered = sorted_range-ordered s.entry_low s.entry_high;
  range = sorted_range-bad_range s.entry_low s.entry_high;
}

unsure_of :
    (c : Context) (confidence : ℤ)
    → out_of_range c confidence ≡ true
    → (confidence <ℤ pos 0) ⊎ (of_ℕ c 1 <ℤ confidence)
unfolding out_of_range
unsure_of c confidence h = ground arith

-- The constructor of a signal either accepts, and then the confidence is between zero and one, the leverage is
-- the given one and positive, the bounds are the given ones in order and the entry range passes the validator's
-- check; or it refuses, and then the confidence is not between zero and one, or a leverage of zero or below was
-- given.
pub validate_signal-IsAccepted :
    (c : Context) (leverage : Option ℤ) (given : ParsedSignal)
    → ((s : ParsedSignal) × (validate_signal c leverage given ≡ ok s)
        × IsAccepted c leverage given s)
      ⊎ ((e : FieldError) × (validate_signal c leverage given ≡ err e) × IsRefused c leverage given)
unfolding validate_signal
validate_signal-IsAccepted c leverage given = elim (Bool-cases (out_of_range c given.confidence)) [
  | inl refused ↦ inr (
    confidence_range,
    rw (refused, validate_signal) refl,
    unsure (unsure_of c given.confidence refused),
  )
  | inr sure ↦ elim (validate_leverage-cases leverage) [
    | inl (accepted, passed, same, positive) ↦ inl (
      _,
      rw (sure, passed, validate_signal) refl,
      sorted-IsAccepted c leverage accepted given sure same positive,
    )
    | inr (n, e, named, low, failed) ↦
        inr (e, rw (sure, failed, validate_signal) refl, unleveraged n named low)
  ]
]
