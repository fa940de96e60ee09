-- ===== src/Base/Text.antt =====
-- Python's `str` as the list of its code points: equality, `upper`, `lower` and `startswith`. Case
-- mapping is that of the ASCII letters.
use Prim.Native.Nat.{ℕ, ◌+◌, ◌-◌}
use Prim.Native.Char.{code}
use Prim.Native.String.{String}
use mathlib.Core.Path.{◌≡◌, refl}
use mathlib.Core.Logic.{◌↔◌}
use mathlib.Core.Bool.{Bool, true, false, ◌&&◌}
use mathlib.Core.List.{List, [], ◌∷◌, map}
use native.Mathlib.Omega.{arith}
use triak_trade.Base.Tests.{leb, ◌==◌, if◌then◌else◌}
use triak_trade.Base.Lists.{any}

abbrev pub Str : Type 0
Str = List ℕ

abbrev pub codes : String → Str
codes String.[] = []
codes (String.◌∷◌ c s) = code c ∷ codes s

unfoldable pub str_eq : Str → Str → Bool
str_eq [] [] = true
str_eq (a ∷ s) (b ∷ t) = a == b && str_eq s t
str_eq _ _ = false

pub eq-str_eq : (s t : Str) → str_eq s t ≡ true → s ≡ t
unfolding str_eq
eq-str_eq [] [] h = refl
eq-str_eq (a ∷ s) (b ∷ t) h = ground (arith, eq-str_eq s t)
eq-str_eq [] (b ∷ t) h = cc
eq-str_eq (a ∷ s) [] h = cc

pub str_eq_refl : (s : Str) → str_eq s s ≡ true
unfolding str_eq
str_eq_refl [] = refl
str_eq_refl (a ∷ s) = ground (arith, str_eq_refl s)

pub str_eq_iff : (s t : Str) → (str_eq s t ≡ true) ↔ (s ≡ t)
str_eq_iff s t = (eq-str_eq s t, λ e. subst_refl e)
  where
    subst_refl : s ≡ t → str_eq s t ≡ true
    subst_refl e = cc (e, str_eq_refl t)

unfoldable pub str_in : Str → List Str → Bool
unfolding str_eq
str_in s = any (str_eq s)

unfoldable pub upper_code : ℕ → ℕ
upper_code c = if leb b'a' c && leb c b'z' then c - 32 else c

lower_code : ℕ → ℕ
lower_code c = if leb b'A' c && leb c b'Z' then c + 32 else c

unfoldable pub upper : Str → Str
unfolding upper_code
upper = map upper_code

unfoldable pub lower : Str → Str
unfolding lower_code
lower = map lower_code

unfoldable pub starts_with : Str → Str → Bool
starts_with s [] = true
starts_with [] (p ∷ ps) = false
starts_with (c ∷ s) (p ∷ ps) = c == p && starts_with s ps
