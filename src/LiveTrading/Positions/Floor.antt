-- ===== src/LiveTrading/Positions/Floor.antt =====
-- What `_enforce_minimum_first_take_profit` returns.
use triak_trade.Base.{
  ◌≡◌, refl, sym, subst, ◌⊎◌, inl, inr, Bool, true, false, ◌||◌, Bool-cases, List, [], ◌∷◌, All,
  All-map, keep, keep-All, arith,
}
use triak_trade.Base.Int.{ℤ, pos, ◌≤ℤ◌, leb_ℤ, eq_of_parts}
use triak_trade.Decimal.{Context, zero_d}
use triak_trade.LiveTrading.Positions.Targets.{
  same_prices, floor_price, meets_floor, or_floor, is_empty, enforce_minimum_first_take_profit,
}

-- At least as far from the entry as the threshold.
abbrev pub Meets : Bool → ℤ → ℤ → Type 0
Meets true threshold tp = threshold ≤ℤ tp
Meets false threshold tp = tp ≤ℤ threshold

-- The targets that are kept are those that meet the threshold, or the threshold itself when none does.
pub record IsFloored (long : Bool) (threshold : ℤ) (asked targets : List ℤ) : Type 0 where
  pub meets : All (Meets long threshold) targets
  pub kept :
      (targets ≡ keep (meets_floor long threshold) asked)
      ⊎ ((keep (meets_floor long threshold) asked ≡ []) × (targets ≡ threshold ∷ []))
  pub some_left : is_empty targets ≡ false

Meets-All :
    (long : Bool) (threshold : ℤ) (xs : List ℤ)
    → All (λ x. meets_floor long threshold x ≡ true) xs
    → All (Meets long threshold) xs
unfolding meets_floor
Meets-All true threshold xs = All-map (λ x h. ground arith) xs
Meets-All false threshold xs = All-map (λ x h. ground arith) xs

Meets-refl : (long : Bool) (t : ℤ) → Meets long t t
Meets-refl true t = omega arith
Meets-refl false t = omega arith

same_prices_eq : (xs ys : List ℤ) → same_prices xs ys ≡ true → xs ≡ ys
unfolding same_prices
same_prices_eq [] [] h = refl
same_prices_eq (x ∷ xs) (y ∷ ys) h =
    let e : x ≡ y = eq_of_parts x y (ground arith) in
    let es = same_prices_eq xs ys (ground arith) in cc
same_prices_eq [] (y ∷ ys) h = cc
same_prices_eq (x ∷ xs) [] h = cc

or_floor-IsFloored :
    (long : Bool) (threshold : ℤ) (asked adjusted : List ℤ)
    → adjusted ≡ keep (meets_floor long threshold) asked
    → All (Meets long threshold) adjusted
    → IsFloored long threshold asked (or_floor asked threshold adjusted).0
unfolding or_floor is_empty
or_floor-IsFloored long threshold asked [] e m = record {
  meets = (Meets-refl long threshold, tt);
  kept = inr (sym e, refl);
  some_left = refl;
}
or_floor-IsFloored long threshold asked (t ∷ ts) e m = record {
  meets = m;
  kept = inl e;
  some_left = refl;
}

kept-IsFloored :
    (long : Bool) (threshold : ℤ) (asked : List ℤ)
    → is_empty asked ≡ false
    → keep (meets_floor long threshold) asked ≡ asked
    → All (Meets long threshold) (keep (meets_floor long threshold) asked)
    → IsFloored long threshold asked asked
kept-IsFloored long threshold asked n e m = record {
  meets = subst (All (Meets long threshold)) e m;
  kept = inl (sym e);
  some_left = n;
}

-- With targets, a positive entry price and a positive minimum profit, every target that is returned is at
-- least that far from the entry, at least one is, and those asked for that are far enough stay.
pub enforce_minimum_first_take_profit-IsFloored :
    (c : Context) (take_profits : List ℤ) (long : Bool) (entry_price min_profit_pct : ℤ)
    → is_empty take_profits ≡ false
    → pos 1 ≤ℤ entry_price
    → pos 1 ≤ℤ min_profit_pct
    → IsFloored long
        (floor_price c long entry_price min_profit_pct)
        take_profits
        (enforce_minimum_first_take_profit c take_profits long entry_price min_profit_pct).0
unfolding enforce_minimum_first_take_profit
enforce_minimum_first_take_profit-IsFloored c tps long e pct n he hp =
    let threshold = floor_price c long e pct in
    let adjusted = keep (meets_floor long threshold) tps in
    let meets = Meets-All long threshold adjusted (keep-All (meets_floor long threshold) tps) in
    let usable : (is_empty tps || (leb_ℤ e zero_d || leb_ℤ pct zero_d)) ≡ false = ground arith in
    elim (Bool-cases (same_prices adjusted tps)) [
      | inl same ↦
          rw (usable, same, enforce_minimum_first_take_profit)
            (kept-IsFloored long threshold tps n (same_prices_eq adjusted tps same) meets)
      | inr changed ↦
          rw (usable, changed, enforce_minimum_first_take_profit)
            (or_floor-IsFloored long threshold tps adjusted refl meets)
    ]
