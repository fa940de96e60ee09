-- ===== src/Decimal/Monotone.antt =====
-- Rounding is monotone, and leaves a number with few enough digits alone.
use triak_trade.Base.{ℕ, ◌*◌, ◌/◌, ◌^◌, ◌≤◌, ◌<◌, ◌≡◌, inl, inr, arith, ap}
use native.Mathlib.Nat.{
  le-div_iff_mul-le, div-lt_iff_lt-mul, div-div-eq-div-mul, mul-le-mul, mul-le-mul_left,
  mul-le-mul_right, mul-div_cancel, mul-lt-mul_of_pos_right, mul_assoc, le_trans,
}
use triak_trade.Decimal.Round.{
  Context, limit, quantum, quantum_pos, quantum_bound, quantum-apart, quantum-tight, limit_tenth,
  nearest, nearest_bounds, nearest_mono, nearest_exact, round_ratio, div_mono, pow_pos,
  quantum-divides,
}

-- A rounded number stays below the first number with a digit more.
rounded-le_limit :
    (c : Context) (a den : ℕ) → 0 < den → round_ratio c a den ≤ limit c * quantum c (a / den)
unfolding round_ratio
rounded-le_limit c a den hd =
    let m = quantum c (a / den) in
    let few : a / den / m < limit c =
      (div-lt_iff_lt-mul (quantum_pos c (a / den))).1 (quantum_bound c (a / den)) in
    let few' : a / (den * m) < limit c = rw (← div-div-eq-div-mul a den m) few in
    mul-le-mul_right m (let b = (nearest_bounds a (den * m)).1 in omega arith)

-- It is no less than its first digit.
limit-le_rounded :
    (c : Context) (b den t : ℕ)
    → limit c ≡ 10 * t
    → limit c * quantum c (b / den) ≤ 10 * (b / den)
    → t * quantum c (b / den) ≤ round_ratio c b den
unfolding round_ratio
limit-le_rounded c b den t e h =
    let m = quantum c (b / den) in
    let down : t * m ≤ b / den = omega (arith, ap (λ (x : ℕ). x * m) e, mul_assoc 10 t m) in
    let digits : t ≤ b / den / m = (le-div_iff_mul-le (quantum_pos c (b / den))).1 down in
    let digits' : t ≤ b / (den * m) = rw (← div-div-eq-div-mul b den m) digits in
    mul-le-mul_right m (le_trans digits' (nearest_bounds b (den * m)).0)

same_place :
    (c : Context) (a b den : ℕ)
    → 0 < den
    → a ≤ b
    → quantum c (a / den) ≡ quantum c (b / den)
    → round_ratio c a den ≤ round_ratio c b den
unfolding round_ratio
same_place c a b den hd h same =
    let m = quantum c (b / den) in
    let p : 1 * 1 ≤ den * m = mul-le-mul hd (quantum_pos c (b / den)) in
    rw same (mul-le-mul_right m (nearest_mono a b (den * m) p h))

-- Rounding to the digits of a context is monotone.
pub round_ratio_mono :
    (c : Context) (a b den : ℕ) → 0 < den → a ≤ b → round_ratio c a den ≤ round_ratio c b den
round_ratio_mono c a b den hd h = elim (quantum-apart c (a / den) (b / den) (div_mono a b hd h)) [
  | inl same ↦ same_place c a b den hd h same
  | inr apart ↦ elim (quantum-tight c (b / den)) [
    | inl one ↦ absurd (let p = quantum_pos c (a / den) in omega arith)
    | inr tight ↦
        let (t, e) = limit_tenth c in
        let low = limit-le_rounded c b den t e tight in
        let high = rounded-le_limit c a den hd in
        let step : t * (10 * quantum c (a / den)) ≤ t * quantum c (b / den) =
          mul-le-mul_left t apart in
        omega (arith, ap (λ (x : ℕ). x * quantum c (a / den)) e)
  ]
]

exact_at : (y p m t den : ℕ) → 0 < den * m → p ≡ m * t → nearest (y * p * den) (den * m) * m ≡ y * p
exact_at y p m t den hd e =
    let regroup : y * p * den ≡ y * t * (den * m) = rw e (omega arith) in
    rw (regroup, nearest_exact (y * t) (den * m) hd, e) (omega arith)

-- A number of at most `prec` digits from some place of the decimal point on is left alone.
pub round_ratio_exact :
    (c : Context) (y j den : ℕ)
    → 0 < den
    → y < limit c
    → round_ratio c (y * 10 ^ j * den) den ≡ y * 10 ^ j
unfolding round_ratio
round_ratio_exact c y j den hd h =
    let n = y * 10 ^ j in
    let small : n < limit c * 10 ^ j = mul-lt-mul_of_pos_right h (pow_pos j) in
    let (t, e) = quantum-divides c n j small in
    let p : 1 * 1 ≤ den * quantum c n = mul-le-mul hd (quantum_pos c n) in
    rw (mul-div_cancel n hd) (exact_at y (10 ^ j) (quantum c n) t den p e)
