-- ===== src/Decimal/Laws.antt =====
-- Laws of the operators: signs, monotonicity, and where they are exact.
use triak_trade.Base.{
  ℕ, zero, suc, ap, ◌+◌, ◌-◌, ◌*◌, ◌^◌, ◌≤◌, ◌<◌, ◌≡◌, List, [], ◌∷◌, arith, All,
}
use triak_trade.Base.Int.{
  ℤ, pos, negsuc, ◌+ℤ◌, ◌-ℤ◌, ◌*ℤ◌, ◌≤ℤ◌, ◌<ℤ◌, neg, abs_ℕ, int_laws, *ℤ_parts, pos-*ℤ, pos-+ℤ,
  neg_parts,
}
use native.Mathlib.Nat.{mul-le-mul_right, div-mul-le_self, lt-div-mul-add}
use triak_trade.Decimal.Round.{
  Context, unit, unit_pos, limit, limit_pos, round_ratio, quantum, quantum_pos,
}
use triak_trade.Decimal.Monotone.{round_ratio_mono, round_ratio_exact}
use triak_trade.Decimal.Ops.{
  zero_d, sum_from, round_over, of_ℕ, add, sub, mul, div, sum, next_plus, next_minus, ceiling,
  floor,
}

pub round_over_mono :
    (c : Context) (a b : ℤ) (den : ℕ) → 0 < den → a ≤ℤ b → round_over c a den ≤ℤ round_over c b den
unfolding round_over neg
round_over_mono c (pos a) (pos b) den hd h = ground (arith, round_ratio_mono c a b den hd)
round_over_mono c (pos a) (negsuc b) den hd h = absurd (omega arith)
round_over_mono c (negsuc a) (pos b) den hd h = ground arith
round_over_mono c (negsuc a) (negsuc b) den hd h =
    ground (arith, round_ratio_mono c (suc b) (suc a) den hd)

round_ratio_zero : (c : Context) (den : ℕ) → 0 < den → round_ratio c 0 den ≡ 0
round_ratio_zero c den hd =
    let none_left : 0 * 10 ^ 0 * den ≡ 0 = omega arith in
    rw none_left at (round_ratio_exact c 0 0 den hd (limit_pos c))

pub round_over_zero : (c : Context) (den : ℕ) → 0 < den → round_over c (pos 0) den ≡ pos 0
unfolding round_over
round_over_zero c den hd = rw (round_ratio_zero c den hd)

pub round_over_nonneg : (c : Context) (a : ℤ) (den : ℕ) → pos 0 ≤ℤ a → pos 0 ≤ℤ round_over c a den
unfolding round_over
round_over_nonneg c (pos n) den h = omega arith
round_over_nonneg c (negsuc n) den h = absurd (omega arith)

-- An integer number of units with at most `prec` digits is left alone.
pub round_over_exact :
    (c : Context) (y j : ℕ) → y < limit c → round_over c (pos (y * 10 ^ j)) 1 ≡ pos (y * 10 ^ j)
unfolding round_over
round_over_exact c y j h =
    let same : y * 10 ^ j * 1 ≡ y * 10 ^ j = omega arith in
    ap pos (rw same at (round_ratio_exact c y j 1 (omega arith) h))

-- Addition is monotone and keeps signs.
pub add_mono : (c : Context) (a b x y : ℤ) → a ≤ℤ b → x ≤ℤ y → add c a x ≤ℤ add c b y
unfolding add
add_mono c a b x y h k = round_over_mono c (a +ℤ x) (b +ℤ y) 1 (omega arith) (omega int_laws)

pub add_nonneg : (c : Context) (a b : ℤ) → pos 0 ≤ℤ a → pos 0 ≤ℤ b → pos 0 ≤ℤ add c a b
unfolding add
add_nonneg c a b h k = round_over_nonneg c (a +ℤ b) 1 (omega int_laws)

pub sub_nonneg : (c : Context) (a b : ℤ) → b ≤ℤ a → pos 0 ≤ℤ sub c a b
unfolding sub
sub_nonneg c a b h = round_over_nonneg c (a -ℤ b) 1 (omega int_laws)

sum_from_nonneg :
    (c : Context) (acc : ℤ) (xs : List ℤ)
    → pos 0 ≤ℤ acc
    → All (λ x. pos 0 ≤ℤ x) xs
    → pos 0 ≤ℤ sum_from c acc xs
unfolding sum_from
sum_from_nonneg c acc [] a h = a
sum_from_nonneg c acc (x ∷ xs) a (h, hs) =
    sum_from_nonneg c (add c acc x) xs (add_nonneg c acc x a h) hs

pub sum_nonneg : (c : Context) (xs : List ℤ) → All (λ x. pos 0 ≤ℤ x) xs → pos 0 ≤ℤ sum c xs
unfolding sum
sum_nonneg c xs h = sum_from_nonneg c zero_d xs (omega arith) h

pub *ℤ_nonneg : (a b : ℤ) → pos 0 ≤ℤ a → pos 0 ≤ℤ b → pos 0 ≤ℤ a *ℤ b
unfolding ◌*ℤ◌
*ℤ_nonneg (pos a) (pos b) h k = ground arith
*ℤ_nonneg (negsuc a) b h k = absurd (omega arith)
*ℤ_nonneg (pos a) (negsuc b) h k = absurd (omega arith)

pub mul_nonneg : (c : Context) (a b : ℤ) → pos 0 ≤ℤ a → pos 0 ≤ℤ b → pos 0 ≤ℤ mul c a b
unfolding mul
mul_nonneg c a b h k = round_over_nonneg c (a *ℤ b) (unit c) (*ℤ_nonneg a b h k)

pub div_nonneg : (c : Context) (a b : ℤ) → pos 0 ≤ℤ a → pos 1 ≤ℤ b → pos 0 ≤ℤ div c a b
unfolding div
div_nonneg c a (pos (suc b)) h k =
    ground (arith, round_over_nonneg c (a *ℤ pos (unit c)) (suc b), *ℤ_nonneg a (pos (unit c)) h)
div_nonneg c a (pos zero) h k = absurd (omega arith)
div_nonneg c a (negsuc b) h k = absurd (omega arith)

-- `next_plus` moves up and `next_minus` moves down.
pub lt-next_plus : (c : Context) (x : ℤ) → x <ℤ next_plus c x
unfolding next_plus ceiling floor neg
lt-next_plus c (pos n) =
    let p = quantum_pos c (n + 1) in
    omega (
      arith,
      div-mul-le_self (n + 1 + (quantum c (n + 1) - 1)) (quantum c (n + 1)),
      lt-div-mul-add {a = n + 1 + (quantum c (n + 1) - 1)} p,
    )
lt-next_plus c (negsuc n) = ground (arith, div-mul-le_self n (quantum c n))

pub next_minus-lt : (c : Context) (x : ℤ) → next_minus c x <ℤ x
unfolding next_minus
next_minus-lt c x =
    omega (arith, lt-next_plus c (neg x), neg_parts x, neg_parts (next_plus c (neg x)))

pub *ℤ_mono : (a b s : ℤ) → a ≤ℤ b → pos 0 ≤ℤ s → a *ℤ s ≤ℤ b *ℤ s
*ℤ_mono a b (pos s) h k =
    omega (arith, mul-le-mul_right s h, *ℤ_parts a (pos s), *ℤ_parts b (pos s))
*ℤ_mono a b (negsuc s) h k = absurd (omega arith)

pub mul_mono : (c : Context) (a b s : ℤ) → a ≤ℤ b → pos 0 ≤ℤ s → mul c a s ≤ℤ mul c b s
unfolding mul
mul_mono c a b s h k = round_over_mono c (a *ℤ s) (b *ℤ s) (unit c) (unit_pos c) (*ℤ_mono a b s h k)

pub div_mono : (c : Context) (a b s : ℤ) → a ≤ℤ b → pos 1 ≤ℤ s → div c a s ≤ℤ div c b s
unfolding div
div_mono c a b s h k = ground (
  arith,
  round_over_mono c (a *ℤ pos (unit c)) (b *ℤ pos (unit c)) (abs_ℕ s),
  *ℤ_mono a b (pos (unit c)) h,
)

-- A whole number of steps, and a sum of such, is exact while it has at most `prec` digits.
pub mul_units :
    (c : Context) (u z j : ℕ)
    → u * z < limit c
    → mul c (of_ℕ c u) (pos (z * 10 ^ j)) ≡ pos (u * z * 10 ^ j)
unfolding mul of_ℕ round_over
mul_units c u z j h =
    let regroup : u * unit c * (z * 10 ^ j) ≡ u * z * 10 ^ j * unit c = omega arith in
    rw (pos-*ℤ, regroup) (ap pos (round_ratio_exact c (u * z) j (unit c) (unit_pos c) h))

pub add_units :
    (c : Context) (a b j : ℕ)
    → a + b < limit c
    → add c (pos (a * 10 ^ j)) (pos (b * 10 ^ j)) ≡ pos ((a + b) * 10 ^ j)
unfolding add
add_units c a b j h =
    let regroup : a * 10 ^ j + b * 10 ^ j ≡ (a + b) * 10 ^ j = omega arith in
    rw (pos-+ℤ, regroup) (round_over_exact c (a + b) j h)

pub of_ℕ_mono : (c : Context) {a b : ℕ} → a ≤ b → of_ℕ c a ≤ℤ of_ℕ c b
unfolding of_ℕ
of_ℕ_mono c h = omega (arith, mul-le-mul_right (unit c) h)
