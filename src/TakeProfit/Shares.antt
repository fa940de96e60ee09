-- ===== src/TakeProfit/Shares.antt =====
-- The loop of the planner shares out all the units, with at least the minimum for each target.
use triak_trade.Base.{
  ℕ, zero, suc, ◌+◌, ◌-◌, ◌*◌, ◌≤◌, ◌<◌, min, max, ◌≡◌, refl, false, ltb, List, [], ◌∷◌, ◌++◌, map,
  length, All, ok, arith, ap, ◌∙◌, length-append,
}
use triak_trade.Base.Int.{ℤ}
use triak_trade.Decimal.{Context, of_ℕ, mul}
use triak_trade.TakeProfit.{
  TakeProfitCandidate, PlannedTakeProfitOrder, floor_step_units, allocate, allocate_all,
}

-- The units of each order, given the preferred units.
unfoldable pub shares : ℕ → ℕ → List ℕ → List ℕ
shares minimum remaining [] = []
shares minimum remaining (p ∷ ps) =
    let units = allocate minimum remaining (suc (length ps)) p in
    units ∷ shares minimum (remaining - units) ps

unfoldable pub total : List ℕ → ℕ
total [] = 0
total (u ∷ us) = u + total us

allocate_more :
    (minimum remaining n p : ℕ)
    → allocate minimum remaining (suc (suc n)) p ≡ min (remaining - suc n * minimum) (max minimum p)
unfolding allocate
allocate_more minimum remaining n p =
    let others : suc (suc n) - 1 ≡ suc n = omega arith in rw others (ground arith)

allocate_last : (minimum remaining p : ℕ) → allocate minimum remaining 1 p ≡ remaining
unfolding allocate
allocate_last minimum remaining p = refl

allocate_bounds :
    (minimum remaining n preferred : ℕ)
    → suc n * minimum ≤ remaining
    → let units = allocate minimum remaining (suc n) preferred in
      (minimum ≤ units) × (units ≤ remaining) × (n * minimum ≤ remaining - units)
allocate_bounds minimum remaining zero preferred h = rw allocate_last (omega arith)
allocate_bounds minimum remaining (suc n) preferred h = rw allocate_more (omega arith)

-- Enough units for the minimum of each target are shared out completely, each target with its
-- minimum.
pub shares_lem :
    (minimum remaining p : ℕ) (ps : List ℕ)
    → suc (length ps) * minimum ≤ remaining
    → (total (shares minimum remaining (p ∷ ps)) ≡ remaining)
      × All (λ u. minimum ≤ u) (shares minimum remaining (p ∷ ps))
unfolding shares total
shares_lem minimum remaining p [] h =
    let (low, _, _) = allocate_bounds minimum remaining 0 p h in
    (omega (arith, allocate_last minimum remaining p), (low, tt))
shares_lem minimum remaining p (q ∷ ps) h =
    let units = allocate minimum remaining (suc (suc (length ps))) p in
    let (low, high, left) = allocate_bounds minimum remaining (suc (length ps)) p h in
    let (sum, rest) = shares_lem minimum (remaining - units) q ps left in (omega arith, (low, rest))

mul-le-total :
    (minimum : ℕ) (ps : List ℕ) → All (λ u. minimum ≤ u) ps → length ps * minimum ≤ total ps
unfolding total
mul-le-total minimum [] h = omega arith
mul-le-total minimum (p ∷ ps) (h, hs) = omega (arith, mul-le-total minimum ps hs)

first_preferred :
    (minimum remaining n p : ℕ)
    → minimum ≤ p
    → p + suc n * minimum ≤ remaining
    → allocate minimum remaining (suc (suc n)) p ≡ p
first_preferred minimum remaining n p h fits = rw allocate_more (omega arith)

-- The preferred units of all targets but the last are kept where they are at least the minimum and
-- leave it for the last one.
pub shares_preferred :
    (minimum remaining last : ℕ) (ps : List ℕ)
    → All (λ u. minimum ≤ u) ps
    → total ps + minimum ≤ remaining
    → shares minimum remaining (ps ++ last ∷ []) ≡ ps ++ (remaining - total ps) ∷ []
unfolding shares total
shares_preferred minimum remaining last [] h fits =
    let whole : remaining - 0 ≡ remaining = omega arith in
    rw (whole, allocate_last minimum remaining last)
shares_preferred minimum remaining last (p ∷ ps) (h, hs) fits =
    let count : length (ps ++ last ∷ []) ≡ suc (length ps) =
      omega (arith, length-append ps (last ∷ [])) in
    let all = mul-le-total minimum ps hs in
    let kept = first_preferred minimum remaining (length ps) p h (omega arith) in
    let rest = shares_preferred minimum (remaining - p) last ps hs (omega arith) in
    let left : remaining - p - total ps ≡ remaining - (p + total ps) = omega arith in
    rw (count, kept, rest, left)

-- The preferred units of the candidates, and the orders for given units.
unfoldable pub preferred_units : Context → ℤ → List TakeProfitCandidate → List ℕ
preferred_units c step =
    map (λ candidate. floor_step_units c candidate.preferred_contract_quantity step)

unfoldable pub orders_for :
    Context → ℤ → List TakeProfitCandidate → List ℕ → List PlannedTakeProfitOrder
orders_for c step [] us = []
orders_for c step (candidate ∷ candidates) [] = []
orders_for c step (candidate ∷ candidates) (u ∷ us) =
    record {
      target_index = candidate.target_index;
      price = candidate.price;
      contract_quantity = mul c (of_ℕ c u) step;
    }
    ∷ orders_for c step candidates us

pub length-preferred_units :
    (c : Context) (step : ℤ) (ks : List TakeProfitCandidate)
    → length (preferred_units c step ks) ≡ length ks
unfolding preferred_units
length-preferred_units c step [] = refl
length-preferred_units c step (k ∷ ks) = ap suc (length-preferred_units c step ks)

-- One round of the loop, when the rest of it ends with `left` units.
loop_step :
    (c : Context) (step : ℤ) (minimum maximum position remaining left : ℕ) (k : TakeProfitCandidate)
    (ks : List TakeProfitCandidate)
    → maximum - position ≡ suc (length ks)
    → suc (length ks) * minimum ≤ remaining
    → let p = floor_step_units c k.preferred_contract_quantity step in
      let units = allocate minimum remaining (suc (length ks)) p in
      allocate_all c step minimum maximum (position + 1) (remaining - units) ks
        ≡ ok (
          orders_for c step ks (shares minimum (remaining - units) (preferred_units c step ks)),
          left,
        )
      → allocate_all c step minimum maximum position remaining (k ∷ ks)
        ≡ ok (
          orders_for c step (k ∷ ks) (shares minimum remaining (preferred_units c step (k ∷ ks))),
          left,
        )
unfolding allocate_all shares orders_for preferred_units
loop_step c step minimum maximum position remaining left k ks count h rest =
    let p = floor_step_units c k.preferred_contract_quantity step in
    let low = (allocate_bounds minimum remaining (length ks) p h).0 in
    let enough : ltb (allocate minimum remaining (suc (length ks)) p) minimum ≡ false =
      ground arith in
    rw (count, length-preferred_units c step ks, enough, rest)

allocate_all-nil :
    (c : Context) (step : ℤ) (minimum maximum position remaining : ℕ)
    → allocate_all c step minimum maximum position remaining []
      ≡ ok (orders_for c step [] (shares minimum remaining (preferred_units c step [])), remaining)
unfolding allocate_all orders_for
allocate_all-nil c step minimum maximum position remaining = refl

-- The loop makes one order for each selected candidate, of its share, and leaves nothing.
pub allocate_all_lem :
    (c : Context) (step : ℤ) (minimum maximum position remaining : ℕ) (k : TakeProfitCandidate)
    (ks : List TakeProfitCandidate)
    → position + suc (length ks) ≡ maximum
    → suc (length ks) * minimum ≤ remaining
    → allocate_all c step minimum maximum position remaining (k ∷ ks)
      ≡ ok (
        orders_for c step (k ∷ ks) (shares minimum remaining (preferred_units c step (k ∷ ks))),
        0,
      )
allocate_all_lem c step minimum maximum position remaining k [] e h =
    let p = floor_step_units c k.preferred_contract_quantity step in
    let units = allocate minimum remaining 1 p in
    let nothing : remaining - units ≡ 0 = omega (arith, allocate_last minimum remaining p) in
    loop_step c step minimum maximum position remaining 0 k [] (omega arith) h (
      allocate_all-nil c step minimum maximum (position + 1) (remaining - units)
      ∙ ap
          (λ (n : ℕ). ok (
            orders_for c step [] (shares minimum (remaining - units) (preferred_units c step [])),
            n,
          ))
          nothing)
allocate_all_lem c step minimum maximum position remaining k (k' ∷ ks) e h =
    let p = floor_step_units c k.preferred_contract_quantity step in
    let units = allocate minimum remaining (suc (suc (length ks))) p in
    let (_, _, left) = allocate_bounds minimum remaining (suc (length ks)) p h in
    loop_step c step minimum maximum position remaining 0 k (k' ∷ ks) (omega arith) h (
      allocate_all_lem c step minimum maximum (position + 1) (remaining - units) k' ks (omega arith)
        left)

-- The shares of the selected candidates.
pub shares_selected :
    (c : Context) (step : ℤ) (minimum remaining : ℕ) (ks : List TakeProfitCandidate)
    → 0 < length ks
    → length ks * minimum ≤ remaining
    → let us = shares minimum remaining (preferred_units c step ks) in
      (total us ≡ remaining) × All (λ u. minimum ≤ u) us
unfolding preferred_units
shares_selected c step minimum remaining [] p h = absurd (omega arith)
shares_selected c step minimum remaining (k ∷ ks) p h =
    shares_lem minimum remaining (floor_step_units c k.preferred_contract_quantity step)
      (preferred_units c step ks) (rw (length-preferred_units c step ks) h)
