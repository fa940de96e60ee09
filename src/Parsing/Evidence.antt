-- ===== src/Parsing/Evidence.antt =====
-- The inferred side is the one that all the evidence points to.
use triak_trade.Base.{
  ℕ, ◌≡◌, refl, sym, ◌||◌, ◌↔◌, Bool, true, false, ltb, Option, none, some, List, [], ◌∷◌, any,
  arith,
}
use triak_trade.Base.Int.{ℤ, ◌≤ℤ◌, ltb_ℤ}
use triak_trade.Domain.{long, short}
use triak_trade.Parsing.Sides.{
  entry_bounds, stop_side, count, decide_side, infer_trade_side_from_price_geometry,
}

-- The stop is given and lies below, or above, the bound.
abbrev pub stop_below : ℤ → Option ℤ → Bool
stop_below lower none = false
stop_below lower (some stop) = ltb_ℤ stop lower

abbrev pub stop_above : ℤ → Option ℤ → Bool
stop_above upper none = false
stop_above upper (some stop) = ltb_ℤ upper stop

-- What speaks for a long and for a short trade.
abbrev pub long_evidence : ℤ × ℤ → Option ℤ → List ℤ → Bool
long_evidence b stop targets = stop_below b.0 stop || any (λ value. ltb_ℤ b.1 value) targets

abbrev pub short_evidence : ℤ × ℤ → Option ℤ → List ℤ → Bool
short_evidence b stop targets = stop_above b.1 stop || any (λ value. ltb_ℤ value b.0) targets

count-any : (p : ℤ → Bool) (xs : List ℤ) → ltb 0 (count p xs) ≡ any p xs
unfolding count
count-any p [] = refl
count-any p (x ∷ xs) = ground (arith, count-any p xs)

decide_side-long :
    (l u : ℤ) (stop : Option ℤ) (m n : ℕ)
    → l ≤ℤ u
    → ((decide_side (stop_side l u stop) m n).side ≡ long)
      ↔ (((stop_below l stop || ltb 0 m) ≡ true) × ((stop_above u stop || ltb 0 n) ≡ false))
unfolding decide_side stop_side
decide_side-long l u none m n h = (λ e. ground arith, λ e. ground arith)
decide_side-long l u (some s) m n h = (λ e. ground arith, λ e. ground arith)

decide_side-short :
    (l u : ℤ) (stop : Option ℤ) (m n : ℕ)
    → l ≤ℤ u
    → ((decide_side (stop_side l u stop) m n).side ≡ short)
      ↔ (((stop_above u stop || ltb 0 n) ≡ true) × ((stop_below l stop || ltb 0 m) ≡ false))
unfolding decide_side stop_side
decide_side-short l u none m n h = (λ e. ground arith, λ e. ground arith)
decide_side-short l u (some s) m n h = (λ e. ground arith, λ e. ground arith)

entry_bounds-ordered :
    (low high : Option ℤ) {b : ℤ × ℤ} → entry_bounds low high ≡ some b → b.0 ≤ℤ b.1
unfolding entry_bounds
entry_bounds-ordered none none e = cc
entry_bounds-ordered none (some h) e = ground arith
entry_bounds-ordered (some l) none e = ground arith
entry_bounds-ordered (some l) (some h) e = ground arith

-- With a reference price, the inferred side is long exactly when something speaks for a long trade
-- and nothing for a short one, and short exactly in the mirrored case.
pub infer-IsEvident :
    (low high stop : Option ℤ) (targets : List ℤ) {b : ℤ × ℤ}
    → entry_bounds low high ≡ some b
    → let side = (infer_trade_side_from_price_geometry low high stop targets).side in
      ((side ≡ long)
        ↔ ((long_evidence b stop targets ≡ true) × (short_evidence b stop targets ≡ false)))
      × ((side ≡ short)
          ↔ ((short_evidence b stop targets ≡ true) × (long_evidence b stop targets ≡ false)))
unfolding infer_trade_side_from_price_geometry
infer-IsEvident low high stop targets {b} e =
    let ordered = entry_bounds-ordered low high e in
    let above = count-any (λ value. ltb_ℤ b.1 value) targets in
    let below = count-any (λ value. ltb_ℤ value b.0) targets in
    rw (e, infer_trade_side_from_price_geometry, sym above, sym below)
      (
        decide_side-long b.0 b.1 stop (count (λ value. ltb_ℤ b.1 value) targets)
            (count (λ value. ltb_ℤ value b.0) targets) ordered,
        decide_side-short b.0 b.1 stop (count (λ value. ltb_ℤ b.1 value) targets)
            (count (λ value. ltb_ℤ value b.0) targets) ordered,
      )
