-- ===== src/TakeProfit/Exact.antt =====
-- The orders for given units: their targets, their quantities, and the sum of these.
use triak_trade.Base.{
  ℕ, suc, ◌+◌, ◌-◌, ◌*◌, ◌^◌, ◌≤◌, ◌<◌, ◌≡◌, refl, ap, List, [], ◌∷◌, map, length, All, arith,
}
use triak_trade.Base.Int.{ℤ, pos, ◌≤ℤ◌}
use triak_trade.Decimal.{
  Context, of_ℕ, mul, sum, sum_from, mul_mono, mul_units, of_ℕ_mono, add_units,
}
use triak_trade.Decimal.Round.{limit}
use triak_trade.TakeProfit.{TakeProfitCandidate, PlannedTakeProfitOrder, allocate}
use triak_trade.TakeProfit.Shares.{shares, total, orders_for}

pub length-shares :
    (minimum remaining : ℕ) (ps : List ℕ) → length (shares minimum remaining ps) ≡ length ps
unfolding shares
length-shares minimum remaining [] = refl
length-shares minimum remaining (p ∷ ps) =
    ap suc (length-shares minimum (remaining - allocate minimum remaining (suc (length ps)) p) ps)

abbrev pub quantities : List PlannedTakeProfitOrder → List ℤ
quantities = map (λ o. o.contract_quantity)

module _ (c : Context) (step : ℤ) where
  -- One order for each target, at its price.
  pub orders_for-targets :
      (ks : List TakeProfitCandidate) (us : List ℕ)
      → length us ≡ length ks
      → (length (orders_for c step ks us) ≡ length ks)
        × (map (λ o. o.target_index) (orders_for c step ks us) ≡ map (λ k. k.target_index) ks)
        × (map (λ o. o.price) (orders_for c step ks us) ≡ map (λ k. k.price) ks)
  unfolding orders_for
  orders_for-targets [] us e = (refl, refl, refl)
  orders_for-targets (k ∷ ks) [] e = absurd (omega arith)
  orders_for-targets (k ∷ ks) (u ∷ us) e =
      let (l, t, p) = orders_for-targets ks us (omega arith) in
      (ap suc l, ap (λ ts. k.target_index ∷ ts) t, ap (λ ps. k.price ∷ ps) p)

  -- Shares of at least the minimum are quantities of at least the minimum.
  pub orders_for-minimum :
      (minimum : ℕ) (ks : List TakeProfitCandidate) (us : List ℕ)
      → pos 0 ≤ℤ step
      → All (λ u. minimum ≤ u) us
      → All (λ o. mul c (of_ℕ c minimum) step ≤ℤ o.contract_quantity) (orders_for c step ks us)
  unfolding orders_for
  orders_for-minimum minimum [] us s h = tt
  orders_for-minimum minimum (k ∷ ks) [] s h = tt
  orders_for-minimum minimum (k ∷ ks) (u ∷ us) s (h, hs) = (
    mul_mono c (of_ℕ c minimum) (of_ℕ c u) step (of_ℕ_mono c h) s,
    orders_for-minimum minimum ks us s hs,
  )

-- The quantities of the orders add up exactly while they have at most `prec` digits.
sum_from-exact :
    (c : Context) (z j acc : ℕ) (ks : List TakeProfitCandidate) (us : List ℕ)
    → length us ≡ length ks
    → (acc + total us) * z < limit c
    → sum_from c (pos (acc * z * 10 ^ j)) (quantities (orders_for c (pos (z * 10 ^ j)) ks us))
      ≡ pos ((acc + total us) * z * 10 ^ j)
unfolding orders_for sum_from total
sum_from-exact c z j acc [] [] e h = let same : acc + 0 ≡ acc = omega arith in rw same
sum_from-exact c z j acc [] (u ∷ us) e h = absurd (omega arith)
sum_from-exact c z j acc (k ∷ ks) [] e h = absurd (omega arith)
sum_from-exact c z j acc (k ∷ ks) (u ∷ us) e h =
    let more : (acc + (u + total us)) * z ≡ acc * z + u * z + total us * z = omega arith in
    let next : acc * z + u * z ≡ (acc + u) * z = omega arith in
    let regroup : acc + (u + total us) ≡ acc + u + total us = omega arith in
    rw
      (
        mul_units c u z j (omega arith),
        add_units c (acc * z) (u * z) j (omega arith),
        next,
        regroup,
      )
      (sum_from-exact c z j (acc + u) ks us (omega arith) (rw regroup at h))

pub sum-exact :
    (c : Context) (z j : ℕ) (ks : List TakeProfitCandidate) (us : List ℕ)
    → length us ≡ length ks
    → total us * z < limit c
    → sum c (quantities (orders_for c (pos (z * 10 ^ j)) ks us)) ≡ pos (total us * z * 10 ^ j)
unfolding sum
sum-exact c z j ks us e h =
    let start : 0 * z * 10 ^ j ≡ 0 = omega arith in
    let same : 0 + total us ≡ total us = omega arith in
    rw (start, same) at (sum_from-exact c z j 0 ks us e (rw same h))
