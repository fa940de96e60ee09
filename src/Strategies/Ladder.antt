-- ===== src/Strategies/Ladder.antt =====
-- The targets that a strategy makes for a signal without any.
use triak_trade.Base.{
  ◌≡◌, ◌≢◌, inl, inr, true, false, ◌||◌, Bool-cases, List, [], ◌∷◌, ◌++◌, any, All, All-append,
  arith,
}
use triak_trade.Base.Int.{ℤ, pos, ◌≤ℤ◌, leb_ℤ, eqb_ℤ}
use triak_trade.Decimal.{
  Context, of_ℕ, mul, div, percent, zero_d, IsRepresented, sub-le, le-add, mul_nonneg, div_nonneg,
  of_ℕ_positive,
}
use triak_trade.Domain.{TradeSide, is_short}
use triak_trade.Strategies.Default.{
  RiskParameters, profit_steps, target_at, ladder_from, synthetic_take_profits_of,
}

-- Not on the losing side of the entry.
abbrev pub IsTarget : TradeSide → ℤ → ℤ → Type 0
IsTarget side entry_price t =
    (is_short side ≡ true → t ≤ℤ entry_price) × (is_short side ≡ false → entry_price ≤ℤ t)

-- No price occurs twice.
abbrev pub Distinct : List ℤ → Type 0
Distinct [] = Unit
Distinct (x ∷ xs) = All (λ y. y ≢ x) xs × Distinct xs

pub record IsLadder (side : TradeSide) (entry_price : ℤ) (ts : List ℤ) : Type 0 where
  pub sides : All (IsTarget side entry_price) ts
  pub distinct : Distinct ts

module _ (c : Context) (side : TradeSide) (entry_price notional quantity : ℤ)
    (r : IsRepresented c entry_price) (positive : pos 0 ≤ℤ notional)
    (some_left : pos 1 ≤ℤ quantity) where
  target_at-IsTarget :
      (step : ℤ)
      → pos 0 ≤ℤ step
      → IsTarget side entry_price (target_at c side entry_price notional quantity step)
  unfolding target_at percent
  target_at-IsTarget step h =
      let profit =
        div_nonneg c (mul c notional step) (of_ℕ c 100) (mul_nonneg c notional step positive h)
          (of_ℕ_positive c 100 (omega arith)) in
      let move = div_nonneg c (percent c (mul c notional step)) quantity profit some_left in
      let up = le-add c entry_price (div c (percent c (mul c notional step)) quantity) r move in
      let down = sub-le c entry_price (div c (percent c (mul c notional step)) quantity) r move in
      (λ s. ground arith, λ l. ground arith)

  new-Distinct :
      (t : ℤ) (ts : List ℤ)
      → any (λ u. eqb_ℤ u t) ts ≡ false
      → Distinct ts
      → Distinct (ts ++ t ∷ [])
  new-Distinct t [] e d = (tt, tt)
  new-Distinct t (x ∷ xs) e (d, ds) = (
    All-append (λ y. y ≢ x) xs (t ∷ []) d ((λ same. ground arith), tt),
    new-Distinct t xs (ground arith) ds,
  )

  ladder_from-IsLadder :
      (ts steps : List ℤ)
      → IsLadder side entry_price ts
      → IsLadder side entry_price (ladder_from c side entry_price notional quantity ts steps)
  unfolding ladder_from
  ladder_from-IsLadder ts [] l = l
  ladder_from-IsLadder ts (step ∷ steps) l =
      let t = target_at c side entry_price notional quantity step in
      elim (Bool-cases (leb_ℤ step zero_d || any (λ u. eqb_ℤ u t) ts)) [
        | inl known ↦ rw known (ladder_from-IsLadder ts steps l)
        | inr new ↦ rw new (
            ladder_from-IsLadder (ts ++ t ∷ []) steps (record {
              sides =
                  All-append (IsTarget side entry_price) ts (t ∷ []) l.sides
                    (target_at-IsTarget step (ground arith), tt);
              distinct = new-Distinct t ts (ground arith) l.distinct;
            }))
      ]

-- The targets of the default strategy are distinct and none is on the losing side of the entry.
pub synthetic_take_profits_of-IsLadder :
    (c : Context) (p : RiskParameters) (side : TradeSide) (entry_price notional : ℤ)
    → IsRepresented c entry_price
    → IsLadder side entry_price (synthetic_take_profits_of c p side entry_price notional)
unfolding synthetic_take_profits_of
synthetic_take_profits_of-IsLadder c p side e n r =
    let empty : IsLadder side e [] = record { sides = tt; distinct = tt } in
    elim (Bool-cases (leb_ℤ e zero_d || leb_ℤ n zero_d)) [
      | inl bad ↦ rw (bad, synthetic_take_profits_of) empty
      | inr good ↦ elim (Bool-cases (leb_ℤ (div c n e) zero_d)) [
        | inl none_left ↦ rw (good, none_left, synthetic_take_profits_of) empty
        | inr some_left ↦
            rw (good, some_left, synthetic_take_profits_of)
              (ladder_from-IsLadder c side e n (div c n e) r (ground arith) (ground arith) []
                (profit_steps c p.synthetic_tp_profit_pct_steps) empty)
      ]
    ]
