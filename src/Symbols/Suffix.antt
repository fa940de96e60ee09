-- ===== src/Symbols/Suffix.antt =====
-- `endswith`, and cutting a suffix off.
use triak_trade.Base.{
  ℕ, ◌-◌, ◌≡◌, refl, ap, leb, Bool, true, ◌&&◌, [], ◌∷◌, ◌++◌, length, take, drop, length-append,
  arith,
}
use triak_trade.Base.Text.{Str, str_eq, str_eq_refl}

unfoldable pub ends_with : Str → Str → Bool
ends_with suffix s =
    leb (length suffix) (length s) && str_eq (drop (length s - length suffix) s) suffix

-- `s[:-n]`
unfoldable pub drop_last : ℕ → Str → Str
drop_last n s = take (length s - n) s

drop_append : (xs ys : Str) → drop (length xs) (xs ++ ys) ≡ ys
drop_append [] ys = refl
drop_append (x ∷ xs) ys = drop_append xs ys

take_append : (xs ys : Str) → take (length xs) (xs ++ ys) ≡ xs
take_append [] ys = refl
take_append (x ∷ xs) ys = ap (λ (zs : Str). x ∷ zs) (take_append xs ys)

before_suffix : (xs ys : Str) → length (xs ++ ys) - length ys ≡ length xs
before_suffix xs ys = omega (arith, length-append xs ys)

pub ends_with-append : (xs ys : Str) → ends_with ys (xs ++ ys) ≡ true
unfolding ends_with
ends_with-append xs ys =
    let fits : leb (length ys) (length (xs ++ ys)) ≡ true = ground (arith, length-append xs ys) in
    rw (fits, before_suffix xs ys, drop_append xs ys, str_eq_refl ys) refl

pub drop_last-append : (xs ys : Str) → drop_last (length ys) (xs ++ ys) ≡ xs
unfolding drop_last
drop_last-append xs ys = rw (before_suffix xs ys) (take_append xs ys)

-- A suffix of the same length as the last part is that part.
pub ends_with-same :
    (xs ys zs : Str) → length zs ≡ length ys → ends_with zs (xs ++ ys) ≡ str_eq ys zs
unfolding ends_with
ends_with-same xs ys zs h =
    let fits : leb (length zs) (length (xs ++ ys)) ≡ true = ground (arith, length-append xs ys) in
    let start : length (xs ++ ys) - length zs ≡ length xs = omega (arith, length-append xs ys) in
    rw (fits, start, drop_append xs ys) refl
