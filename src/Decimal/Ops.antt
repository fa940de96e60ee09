-- ===== src/Decimal/Ops.antt =====
-- The operators and methods of `Decimal`.
use triak_trade.Base.{ℕ, suc, ◌+◌, ◌-◌, ◌*◌, ◌/◌, ◌^◌, if◌then◌else◌, List, [], ◌∷◌}
use triak_trade.Base.Int.{ℤ, pos, negsuc, pos_part, ◌+ℤ◌, ◌-ℤ◌, ◌*ℤ◌, neg, abs_ℕ, leb_ℤ}
use triak_trade.Decimal.Round.{Context, unit, quantum, nearest, round_ratio}

abbrev pub zero_d : ℤ
zero_d = pos 0

-- `num / den` rounded, for a positive `den`.
unfoldable pub round_over : Context → ℤ → ℕ → ℤ
round_over c (pos n) den = pos (round_ratio c n den)
round_over c (negsuc n) den = neg (pos (round_ratio c (suc n) den))

-- `Decimal(n)` for an `int`, which is exact.
unfoldable pub of_ℕ : Context → ℕ → ℤ
of_ℕ c n = pos (n * unit c)

unfoldable pub add : Context → ℤ → ℤ → ℤ
add c a b = round_over c (a +ℤ b) 1

unfoldable pub sub : Context → ℤ → ℤ → ℤ
sub c a b = round_over c (a -ℤ b) 1

unfoldable pub mul : Context → ℤ → ℤ → ℤ
mul c a b = round_over c (a *ℤ b) (unit c)

-- `a / b` for `b` other than zero; with zero Python raises, which callers write out.
unfoldable pub div : Context → ℤ → ℤ → ℤ
div c a b =
    let num = a *ℤ pos (unit c) in
    if leb_ℤ (pos 1) b then round_over c num (abs_ℕ b) else round_over c (neg num) (abs_ℕ b)

-- `x / Decimal("100")`
unfoldable pub percent : Context → ℤ → ℤ
percent c x = div c x (of_ℕ c 100)

-- `sum(items, Decimal("0"))`
unfoldable pub sum_from : Context → ℤ → List ℤ → ℤ
sum_from c acc [] = acc
sum_from c acc (x ∷ xs) = sum_from c (add c acc x) xs

unfoldable pub sum : Context → List ℤ → ℤ
sum c = sum_from c zero_d

-- The step of `Decimal("0.00000001")`.
unfoldable pub tick : Context → ℕ
tick c = 10 ^ (c.scale - 8)

-- `x.quantize(Decimal("0.00000001"))`, half to even.
unfoldable pub quantize : Context → ℤ → ℤ
quantize c (pos n) = pos (nearest n (tick c) * tick c)
quantize c (negsuc n) = neg (pos (nearest (suc n) (tick c) * tick c))

-- The same with `rounding=ROUND_DOWN`, towards zero.
unfoldable pub quantize_down : Context → ℤ → ℤ
quantize_down c (pos n) = pos (n / tick c * tick c)
quantize_down c (negsuc n) = neg (pos (suc n / tick c * tick c))

-- The next representable number above `n` units and the one below `n + 1` units.
unfoldable pub ceiling : Context → ℕ → ℕ
ceiling c n = let m = quantum c (n + 1) in (n + 1 + (m - 1)) / m * m

unfoldable pub floor : Context → ℕ → ℕ
floor c n = let m = quantum c n in n / m * m

-- `x.next_plus()` and `x.next_minus()`
unfoldable pub next_plus : Context → ℤ → ℤ
next_plus c (pos n) = pos (ceiling c n)
next_plus c (negsuc n) = neg (pos (floor c n))

unfoldable pub next_minus : Context → ℤ → ℤ
next_minus c x = neg (next_plus c (neg x))

-- `int(x.to_integral_value(rounding=ROUND_DOWN))` and `ROUND_UP` of a positive number.
unfoldable pub integer_down : Context → ℤ → ℕ
integer_down c x = pos_part x / unit c

unfoldable pub integer_up : Context → ℤ → ℕ
integer_up c x = (pos_part x + (unit c - 1)) / unit c

-- The step of the given decimal place, and rounding to it, half to even.
unfoldable pub place : Context → ℕ → ℕ
place c places = 10 ^ (c.scale - places)

unfoldable pub round_to : ℕ → ℤ → ℤ
round_to m (pos n) = pos (nearest n m * m)
round_to m (negsuc n) = neg (pos (nearest (suc n) m * m))

-- Unfolds every operator, for runs at concrete numbers.
unfoldable pub run : Unit {0}
unfolding ◌+ℤ◌ ◌-ℤ◌ ◌*ℤ◌ neg round_ratio quantum nearest unit round_over of_ℕ add sub mul div
    percent sum_from sum tick quantize quantize_down ceiling floor next_plus next_minus integer_down
    integer_up place round_to
run = tt
