-- ===== src/Decimal/Exact.antt =====
-- Numbers that need no rounding: one over itself, represented numbers, and the grid of the eighth
-- decimal place.
use triak_trade.Base.{ℕ, suc, ap, ◌+◌, ◌-◌, ◌*◌, ◌^◌, ◌≤◌, ◌<◌, ◌≡◌, refl, ◌∙◌, arith, subst, true}
use triak_trade.Base.Int.{
  ℤ, pos, negsuc, ◌+ℤ◌, ◌-ℤ◌, ◌*ℤ◌, ◌≤ℤ◌, leb_ℤ, int_laws, pos-*ℤ, eq_of_parts, -ℤ_parts, *ℤ_parts,
}
use native.Mathlib.Nat.{mul-le-mul, pow-suc}
use triak_trade.Decimal.Round.{
  Context, unit, unit_pos, limit, limit_pos, limit_tenth, round_ratio, nearest, nearest_mono,
  nearest_exact, pow_pos,
}
use triak_trade.Decimal.Monotone.{round_ratio_exact}
use triak_trade.Decimal.Ops.{zero_d, round_over, of_ℕ, add, sub, mul, div, tick, quantize, place}
use triak_trade.Decimal.Laws.{round_over_mono, round_over_zero, round_over_exact, *ℤ_mono}

pub limit_one : (c : Context) → 1 < limit c
limit_one c = omega (arith, limit_pos c, (limit_tenth c).1)

pub of_ℕ_nonneg : (c : Context) (n : ℕ) → pos 0 ≤ℤ of_ℕ c n
unfolding of_ℕ
of_ℕ_nonneg c n = omega arith

pub of_ℕ_positive : (c : Context) (b : ℕ) → 0 < b → pos 1 ≤ℤ of_ℕ c b
unfolding of_ℕ
of_ℕ_positive c b p = let q : 1 * 1 ≤ b * unit c = mul-le-mul p (unit_pos c) in omega arith

pub div-pos :
    (c : Context) (a d : ℕ) → 0 < d → div c (pos a) (pos d) ≡ pos (round_ratio c (a * unit c) d)
unfolding div round_over
div-pos c a d p =
    let positive : leb_ℤ (pos 1) (pos d) ≡ true = ground arith in
    let same : d + 0 ≡ d = omega arith in rw (positive, pos-*ℤ, same) refl

pub div_self : (c : Context) (b : ℕ) → 0 < b → div c (of_ℕ c b) (of_ℕ c b) ≡ of_ℕ c 1
unfolding of_ℕ unit
div_self c b p =
    let p' : 0 < b * 10 ^ c.scale = mul-le-mul p (unit_pos c) in
    let regroup : b * 10 ^ c.scale * 10 ^ c.scale ≡ 1 * 10 ^ c.scale * (b * 10 ^ c.scale) =
      omega arith in
    div-pos c (b * 10 ^ c.scale) (b * 10 ^ c.scale) p'
    ∙ ap (λ n. pos (round_ratio c n (b * 10 ^ c.scale))) regroup
    ∙ ap pos (round_ratio_exact c 1 c.scale (b * 10 ^ c.scale) p' (limit_one c))

pub sub_mono : (c : Context) (a b x y : ℤ) → a ≤ℤ b → y ≤ℤ x → sub c a x ≤ℤ sub c b y
unfolding sub
sub_mono c a b x y h k = round_over_mono c (a -ℤ x) (b -ℤ y) 1 (omega arith) (omega int_laws)

-- A number with at most `prec` digits and an exponent: every result of an operation that is not
-- negative is one.
pub record IsRepresented (c : Context) (x : ℤ) : Type 0 where
  pub digits : ℕ
  pub exponent : ℕ
  pub short : digits < limit c
  pub value : x ≡ pos (digits * 10 ^ exponent)

pub represented-rounded : (c : Context) (x : ℤ) → IsRepresented c x → round_over c x 1 ≡ x
represented-rounded c x r = rw r.value (round_over_exact c r.digits r.exponent r.short)

pub sub-le : (c : Context) (x d : ℤ) → IsRepresented c x → pos 0 ≤ℤ d → sub c x d ≤ℤ x
unfolding sub
sub-le c x d r h =
    subst (λ y. round_over c (x -ℤ d) 1 ≤ℤ y) (represented-rounded c x r)
      (round_over_mono c (x -ℤ d) x 1 (omega arith) (omega int_laws))

pub le-add : (c : Context) (x d : ℤ) → IsRepresented c x → pos 0 ≤ℤ d → x ≤ℤ add c x d
unfolding add
le-add c x d r h =
    subst (λ y. y ≤ℤ round_over c (x +ℤ d) 1) (represented-rounded c x r)
      (round_over_mono c x (x +ℤ d) 1 (omega arith) (omega int_laws))

pub *ℤ_comm : (a b : ℤ) → a *ℤ b ≡ b *ℤ a
*ℤ_comm a b = eq_of_parts (a *ℤ b) (b *ℤ a) (omega (arith, *ℤ_parts a b, *ℤ_parts b a))

pub mul_one : (c : Context) (x : ℤ) → IsRepresented c x → mul c x (of_ℕ c 1) ≡ x
unfolding mul of_ℕ round_over
mul_one c x r =
    let regroup : r.digits * 10 ^ r.exponent * (1 * unit c) ≡ r.digits * 10 ^ r.exponent * unit c =
      omega arith in
    rw (r.value, pos-*ℤ, regroup)
      (ap pos (round_ratio_exact c r.digits r.exponent (unit c) (unit_pos c) r.short))

pub mul_zero : (c : Context) (a : ℤ) → mul c a zero_d ≡ zero_d
unfolding mul
mul_zero c a =
    let none_left : a *ℤ pos 0 ≡ pos 0 =
      eq_of_parts (a *ℤ pos 0) (pos 0) (omega (arith, *ℤ_parts a (pos 0))) in
    rw none_left (round_over_zero c (unit c) (unit_pos c))

pub zero_mul : (c : Context) (a : ℤ) → mul c zero_d a ≡ zero_d
unfolding mul
zero_mul c a = rw (*ℤ_comm zero_d a) (mul_zero c a)

-- A part of a represented number is no larger than it.
pub mul-le :
    (c : Context) (x f : ℤ) → IsRepresented c x → pos 0 ≤ℤ x → f ≤ℤ of_ℕ c 1 → mul c x f ≤ℤ x
unfolding mul
mul-le c x f r p h =
    let more = *ℤ_mono f (of_ℕ c 1) x h p in
    let flipped : x *ℤ f ≤ℤ x *ℤ of_ℕ c 1 = rw (*ℤ_comm x f, *ℤ_comm x (of_ℕ c 1)) more in
    subst (λ y. mul c x f ≤ℤ y) (mul_one c x r)
      (round_over_mono c (x *ℤ f) (x *ℤ of_ℕ c 1) (unit c) (unit_pos c) flipped)

-- On the grid of the eighth decimal place.
abbrev pub on_grid : Context → ℕ → ℤ
on_grid c k = pos (k * tick c)

pub tick_pos : (c : Context) → 0 < tick c
unfolding tick
tick_pos c = pow_pos (c.scale - 8)

pub on_grid-IsRepresented : (c : Context) (k : ℕ) → k < limit c → IsRepresented c (on_grid c k)
unfolding tick
on_grid-IsRepresented c k h = record { digits = k; exponent = c.scale - 8; short = h; value = refl }

-- Rounding a number to the grid keeps it below a number of the grid.
pub quantize-le :
    (c : Context) (x : ℤ) (k : ℕ)
    → pos 0 ≤ℤ x
    → x ≤ℤ on_grid c k
    → (q : ℕ) × (quantize c x ≡ on_grid c q) × (q ≤ k)
unfolding quantize
quantize-le c (pos n) k p h =
    let low = nearest_mono n (k * tick c) (tick c) (tick_pos c) (omega arith) in
    (nearest n (tick c), refl, rw (nearest_exact k (tick c) (tick_pos c)) at low)
quantize-le c (negsuc n) k p h = absurd (omega arith)

pub quantize_exact : (c : Context) (k : ℕ) → quantize c (on_grid c k) ≡ on_grid c k
unfolding quantize
quantize_exact c k = ap (λ (n : ℕ). pos (n * tick c)) (nearest_exact k (tick c) (tick_pos c))

pub sub-on_grid :
    (c : Context) (k q : ℕ)
    → k < limit c
    → q ≤ k
    → sub c (on_grid c k) (on_grid c q) ≡ on_grid c (k - q)
unfolding sub tick
sub-on_grid c k q s h =
    let t : ℕ = 10 ^ (c.scale - 8) in
    let split : k ≡ k - q + q = omega arith in
    let product : k * t ≡ (k - q) * t + q * t = ap (λ (n : ℕ). n * t) split ∙ omega arith in
    let difference : pos (k * t) -ℤ pos (q * t) ≡ pos ((k - q) * t) =
      eq_of_parts (pos (k * t) -ℤ pos (q * t)) (pos ((k - q) * t))
        (omega (arith, product, -ℤ_parts (pos (k * t)) (pos (q * t)))) in
    rw difference (round_over_exact c (k - q) (c.scale - 8) (omega arith))

-- One in hundredths.
pub unit-place : (c : Context) → unit c ≡ 100 * place c 2
unfolding unit place
unit-place c =
    let scale : c.scale ≡ suc (suc (c.scale - 2)) = omega (arith, c.scale_ge) in
    let digits : 10 ^ c.scale ≡ 10 ^ (c.scale - 2) * 10 * 10 =
      ap (λ (k : ℕ). 10 ^ k) scale
      ∙ pow-suc 10 (suc (c.scale - 2))
      ∙ ap (λ (k : ℕ). k * 10) (pow-suc 10 (c.scale - 2)) in
    omega (arith, digits)
