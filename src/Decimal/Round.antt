-- ===== src/Decimal/Round.antt =====
-- Rounding of a non-negative ratio to the significant digits of a context, half to even.
use triak_trade.Base.{
  ℕ, zero, suc, ◌+◌, ◌-◌, ◌*◌, ◌/◌, ◌%◌, ◌^◌, ◌≤◌, ◌<◌, ◌≡◌, refl, sym, ◌⊎◌, inl, inr, true, false,
  ltb, ◌==◌, if◌then◌else◌, Bool-cases, arith, ap, ◌∙◌,
}
use native.Mathlib.Nat.{
  mul-mod_left, pow-le-pow_right, le-div_iff_mul-le, div-mul-le_self, mul-div_cancel, le_trans,
  div-add-mod, mul-le-mul, pow-suc, mul_comm,
}

-- Precision and exponent range. The eighth decimal place, at which quantities are kept, is a
-- multiple of the unit.
pub record Context : Type 0 where
  pub prec : ℕ
  pub scale : ℕ
  pub prec_pos : 0 < prec
  pub scale_ge : 8 ≤ scale

-- The number 1, and the first number with too many digits, in units.
unfoldable pub unit : Context → ℕ
unit c = 10 ^ c.scale

unfoldable pub limit : Context → ℕ
limit c = 10 ^ c.prec

-- The place of the last digit that is kept of a number that begins with `n` units.
unfoldable pub quantum_from : ℕ → ℕ → ℕ → ℕ → ℕ
quantum_from zero p n m = m
quantum_from (suc fuel) p n m = elim (ltb n (p * m)) [
  | true ↦ m
  | false ↦ quantum_from fuel p n (10 * m)
]

unfoldable pub quantum : Context → ℕ → ℕ
unfolding quantum_from limit
quantum c n = quantum_from n (limit c) n 1

-- The integer nearest to `n / d`, the even one of two.
unfoldable pub nearest : ℕ → ℕ → ℕ
nearest n d =
    let q = n / d in
    let r = n % d in if ltb d (2 * r) then q + 1 else if 2 * r == d then q + q % 2 else q

unfoldable pub round_ratio : Context → ℕ → ℕ → ℕ
round_ratio c num den = let m = quantum c (num / den) in nearest num (den * m) * m

pub quantum_from-ge : (f p n m : ℕ) → m ≤ quantum_from f p n m
unfolding quantum_from
quantum_from-ge zero p n m = omega arith
quantum_from-ge (suc f) p n m = ground (arith, quantum_from-ge f p n (10 * m))

-- With enough fuel the number has no more digits than are kept.
pub quantum_from-bound :
    (f p n m : ℕ) → 0 < p → 0 < m → n < p * m + f → n < p * quantum_from f p n m
unfolding quantum_from
quantum_from-bound zero p n m hp hm h = omega arith
quantum_from-bound (suc f) p n m hp hm h = elim (Bool-cases (ltb n (p * m))) [
  | inl e ↦ rw (e, quantum_from) (ground arith)
  | inr e ↦
      rw (e, quantum_from)
        (quantum_from-bound f p n (10 * m) hp (omega arith)
          (let big : 1 * 1 ≤ p * m = mul-le-mul hp hm in omega arith))
]

pub quantum_from-tight :
    (f p n m : ℕ) → (quantum_from f p n m ≡ m) ⊎ (p * quantum_from f p n m ≤ 10 * n)
unfolding quantum_from
quantum_from-tight zero p n m = inl refl
quantum_from-tight (suc f) p n m = elim (Bool-cases (ltb n (p * m))) [
  | inl e ↦ rw (e, quantum_from) (inl refl)
  | inr e ↦
      rw (e, quantum_from)
        (elim (quantum_from-tight f p n (10 * m)) [
          | inl s ↦ inr (rw s (ground arith))
          | inr t ↦ inr t
        ])
]

-- The places of two numbers are the same or at least a digit apart.
pub quantum_from-apart :
    (f g p a b m : ℕ)
    → a ≤ b
    → 0 < p
    → 0 < m
    → a < p * m + f
    → b < p * m + g
    → (quantum_from f p a m ≡ quantum_from g p b m)
      ⊎ (10 * quantum_from f p a m ≤ quantum_from g p b m)
unfolding quantum_from
quantum_from-apart zero zero p a b m h hp hm ha hb = inl refl
quantum_from-apart zero (suc g) p a b m h hp hm ha hb = elim (Bool-cases (ltb b (p * m))) [
  | inl e ↦ rw (e, quantum_from) (inl refl)
  | inr e ↦ rw (e, quantum_from) (inr (quantum_from-ge g p b (10 * m)))
]
quantum_from-apart (suc f) zero p a b m h hp hm ha hb = ground arith
quantum_from-apart (suc f) (suc g) p a b m h hp hm ha hb =
    let big : 1 * 1 ≤ p * m = mul-le-mul hp hm in
    elim (Bool-cases (ltb a (p * m))) [
      | inl e ↦ elim (Bool-cases (ltb b (p * m))) [
        | inl e' ↦ rw (e, quantum_from, e', quantum_from) (inl refl)
        | inr e' ↦ rw (e, quantum_from, e', quantum_from) (inr (quantum_from-ge g p b (10 * m)))
      ]
      | inr e ↦ elim (Bool-cases (ltb b (p * m))) [
        | inl e' ↦ absurd (ground arith)
        | inr e' ↦
            rw (e, quantum_from, e', quantum_from)
              (quantum_from-apart f g p a b (10 * m) h hp (omega arith) (omega arith) (omega arith))
      ]
    ]

pub nearest_bounds : (n d : ℕ) → (n / d ≤ nearest n d) × (nearest n d ≤ n / d + 1)
unfolding nearest
nearest_bounds n d = ground arith

pub div_mono : (a b : ℕ) {d : ℕ} → 0 < d → a ≤ b → a / d ≤ b / d
div_mono a b {d} hd h = (le-div_iff_mul-le hd).1 (le_trans (div-mul-le_self a d) h)

rounded : ℕ → ℕ → ℕ → ℕ
rounded q r d = if ltb d (2 * r) then q + 1 else if 2 * r == d then q + q % 2 else q

rounded_mono : (q r s d : ℕ) → r ≤ s → rounded q r d ≤ rounded q s d
unfolding rounded
rounded_mono q r s d h = ground arith

-- Rounding to the nearest integer is monotone.
pub nearest_mono : (a b d : ℕ) → 0 < d → a ≤ b → nearest a d ≤ nearest b d
unfolding nearest rounded
nearest_mono a b d hd h = elim (Bool-cases (ltb (a / d) (b / d))) [
  | inl e ↦ ground (arith, nearest_bounds a d, nearest_bounds b d)
  | inr e ↦
      let up : a / d ≤ b / d = div_mono a b hd h in
      let same : a / d ≡ b / d = ground arith in
      let rest : a % d ≤ b % d =
        omega (arith, div-add-mod a d, div-add-mod b d, ap (λ (t : ℕ). d * t) same) in
      rw same (rounded_mono (b / d) (a % d) (b % d) d rest)
]

pub nearest_exact : (q d : ℕ) → 0 < d → nearest (q * d) d ≡ q
unfolding nearest
nearest_exact q d hd = rw (mul-div_cancel q hd, mul-mod_left q d) (ground arith)

pub pow_pos : (k : ℕ) → 0 < 10 ^ k
pow_pos k = pow-le-pow_right {n = 10} (omega arith) {i = 0} {j = k} (omega arith)

pub unit_pos : (c : Context) → 0 < unit c
unfolding unit
unit_pos c = pow_pos c.scale

pub limit_pos : (c : Context) → 0 < limit c
unfolding limit
limit_pos c = pow_pos c.prec

pub limit_tenth : (c : Context) → (t : ℕ) × (limit c ≡ 10 * t)
unfolding limit
limit_tenth c = (
  10 ^ (c.prec - 1),
  let e : c.prec ≡ suc (c.prec - 1) = let h = c.prec_pos in omega arith in
      ap (λ (k : ℕ). 10 ^ k) e ∙ pow-suc 10 (c.prec - 1) ∙ mul_comm (10 ^ (c.prec - 1)) 10,
)

pub quantum_pos : (c : Context) (n : ℕ) → 0 < quantum c n
unfolding quantum
quantum_pos c n = quantum_from-ge n (limit c) n 1

pub quantum_bound : (c : Context) (n : ℕ) → n < limit c * quantum c n
unfolding quantum
quantum_bound c n =
    let l = limit_pos c in quantum_from-bound n (limit c) n 1 l (omega arith) (omega arith)

-- The places of the roundings of two numbers are the same or at least a digit apart.
pub quantum-apart :
    (c : Context) (a b : ℕ) → a ≤ b → (quantum c a ≡ quantum c b) ⊎ (10 * quantum c a ≤ quantum c b)
unfolding quantum
quantum-apart c a b h =
    let l = limit_pos c in
    quantum_from-apart a b (limit c) a b 1 h l (omega arith) (omega arith) (omega arith)

pub quantum-tight : (c : Context) (n : ℕ) → (quantum c n ≡ 1) ⊎ (limit c * quantum c n ≤ 10 * n)
unfolding quantum
quantum-tight c n = quantum_from-tight n (limit c) n 1

shift : (j m : ℕ) → 10 * m * 10 ^ j ≡ m * 10 ^ suc j
shift j m = rw pow-suc (omega arith)

quantum_from-divides :
    (j f p n m : ℕ) → n < p * (m * 10 ^ j) → (t : ℕ) × (m * 10 ^ j ≡ quantum_from f p n m * t)
unfolding quantum_from
quantum_from-divides j zero p n m h = (10 ^ j, refl)
quantum_from-divides zero (suc f) p n m h = rw (one_more, quantum_from) (1, omega arith)
  where
    one_more : ltb n (p * m) ≡ true
    one_more = ground arith
quantum_from-divides (suc j) (suc f) p n m h = elim (Bool-cases (ltb n (p * m))) [
  | inl e ↦ rw (e, quantum_from) (10 ^ suc j, refl)
  | inr e ↦
      rw (e, quantum_from)
        (let (t, q) = quantum_from-divides j f p n (10 * m) (rw (shift j m) h) in
          (t, sym (shift j m) ∙ q))
]

-- A power of ten that leaves a number few enough digits is a multiple of the number's place.
pub quantum-divides :
    (c : Context) (n j : ℕ) → n < limit c * 10 ^ j → (t : ℕ) × (10 ^ j ≡ quantum c n * t)
unfolding quantum
quantum-divides c n j h =
    let (t, q) = quantum_from-divides j n (limit c) n 1 (omega arith) in (t, omega arith)
