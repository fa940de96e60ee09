-- ===== src/LiveTrading/Positions/Valid.antt =====
-- Which targets `_sanitize_take_profits` keeps, and in which order.
use triak_trade.Base.{
  ◌≡◌, refl, ap, ◌∙◌, Bool, true, false, not, ◌&&◌, ◌||◌, Bool-cases, inl, inr, Option, List, [],
  ◌∷◌, any, All, All-map, arith,
}
use triak_trade.Base.Int.{ℤ, ◌<ℤ◌, eqb_ℤ, eq_of_parts}
use triak_trade.Base.Text.{Str}
use triak_trade.Decimal.{Context}
use triak_trade.LiveTrading.Positions.Targets.{
  is_long_text, max_distance_of, is_valid_target, collect, is_before, insert_target, sort_targets,
  sanitize_take_profits,
}

-- `a` comes strictly before `b` in the order of the targets.
abbrev pub IsNearer : Bool → ℤ → ℤ → Type 0
IsNearer true a b = a <ℤ b
IsNearer false a b = b <ℤ a

abbrev pub IsOrdered : Bool → List ℤ → Type 0
IsOrdered long [] = Unit
IsOrdered long (x ∷ xs) = All (IsNearer long x) xs × IsOrdered long xs

abbrev pub has : ℤ → List ℤ → Bool
has x xs = any (eqb_ℤ x) xs

-- Strictly ordered from the entry away, with exactly the prices that were asked for and pass the test.
pub record IsSanitized (long : Bool) (valid : ℤ → Bool) (asked targets : List ℤ) : Type 0 where
  pub ordered : IsOrdered long targets
  pub exact : (x : ℤ) → has x targets ≡ (valid x && has x asked)

eqb_refl : (x : ℤ) → eqb_ℤ x x ≡ true
eqb_refl x = ground arith

has-insert_target :
    (long : Bool) (x y : ℤ) (ys : List ℤ)
    → has x (insert_target long y ys) ≡ (eqb_ℤ x y || has x ys)
unfolding insert_target
has-insert_target long x y [] = refl
has-insert_target long x y (z ∷ zs) = ground (arith, has-insert_target long x y zs)

has-sort_targets : (long : Bool) (x : ℤ) (xs : List ℤ) → has x (sort_targets long xs) ≡ has x xs
unfolding sort_targets
has-sort_targets long x [] = refl
has-sort_targets long x (y ∷ ys) =
    has-insert_target long x y (sort_targets long ys)
    ∙ ap (λ b. eqb_ℤ x y || b) (has-sort_targets long x ys)

-- No price of the list is `x`.
abbrev Misses : ℤ → List ℤ → Type 0
Misses x xs = has x xs ≡ false

insert_target-IsNearer :
    (long : Bool) (x y : ℤ) (ys : List ℤ)
    → IsNearer long x y
    → All (IsNearer long x) ys
    → All (IsNearer long x) (insert_target long y ys)
unfolding insert_target
insert_target-IsNearer long x y [] p ps = (p, tt)
insert_target-IsNearer long x y (z ∷ zs) p (q, qs) = elim (Bool-cases (is_before long y z)) [
  | inl first ↦ rw first (p, (q, qs))
  | inr later ↦ rw later (q, insert_target-IsNearer long x y zs p qs)
]

IsNearer-trans :
    (long : Bool) (x y : ℤ) (zs : List ℤ)
    → IsNearer long x y
    → All (IsNearer long y) zs
    → All (IsNearer long x) zs
IsNearer-trans true x y zs p = All-map (λ z q. omega arith) zs
IsNearer-trans false x y zs p = All-map (λ z q. omega arith) zs

before-IsNearer :
    (long : Bool) (x y : ℤ) → is_before long x y ≡ true → eqb_ℤ x y ≡ false → IsNearer long x y
unfolding is_before
before-IsNearer true x y h e = ground arith
before-IsNearer false x y h e = ground arith

after-IsNearer : (long : Bool) (x y : ℤ) → is_before long x y ≡ false → IsNearer long y x
unfolding is_before
after-IsNearer true x y h = ground arith
after-IsNearer false x y h = ground arith

insert_target-IsOrdered :
    (long : Bool) (x : ℤ) (ys : List ℤ)
    → Misses x ys
    → IsOrdered long ys
    → IsOrdered long (insert_target long x ys)
unfolding insert_target
insert_target-IsOrdered long x [] m o = (tt, tt)
insert_target-IsOrdered long x (y ∷ ys) m (p, ps) = elim (Bool-cases (is_before long x y)) [
  | inl first ↦
      let near = before-IsNearer long x y first (ground arith) in
      rw first ((near, IsNearer-trans long x y ys near p), (p, ps))
  | inr later ↦ rw later (
    insert_target-IsNearer long y x ys (after-IsNearer long x y later) p,
    insert_target-IsOrdered long x ys (ground arith) ps,
  )
]

-- No price occurs twice.
abbrev AllDistinct : List ℤ → Type 0
AllDistinct [] = Unit
AllDistinct (x ∷ xs) = Misses x xs × AllDistinct xs

sort_targets-IsOrdered :
    (long : Bool) (xs : List ℤ) → AllDistinct xs → IsOrdered long (sort_targets long xs)
unfolding sort_targets
sort_targets-IsOrdered long [] d = tt
sort_targets-IsOrdered long (x ∷ xs) (m, d) =
    insert_target-IsOrdered long x (sort_targets long xs) (has-sort_targets long x xs ∙ m)
      (sort_targets-IsOrdered long xs d)

-- What the loop has of a price: a valid one that is new.
has-collect :
    (valid : ℤ → Bool) (seen tps : List ℤ) (x : ℤ)
    → has x (collect valid seen tps) ≡ (valid x && (has x tps && not (has x seen)))
unfolding collect
has-collect valid seen [] x = ground arith
has-collect valid seen (t ∷ ts) x = elim (Bool-cases (eqb_ℤ x t)) [
  | inl same ↦
      let e : x ≡ t = eq_of_parts x t (ground arith) in
      rw e
        (ground (arith, eqb_refl t, has-collect valid seen ts t, has-collect valid (t ∷ seen) ts t))
  | inr other ↦
      ground (arith, other, has-collect valid seen ts x, has-collect valid (t ∷ seen) ts x)
]

collect-AllDistinct : (valid : ℤ → Bool) (seen tps : List ℤ) → AllDistinct (collect valid seen tps)
unfolding collect
collect-AllDistinct valid seen [] = tt
collect-AllDistinct valid seen (t ∷ ts) = elim (Bool-cases (valid t && not (has t seen))) [
  | inl used ↦ rw used (
    has-collect valid (t ∷ seen) ts t ∙ ground (arith, eqb_refl t),
    collect-AllDistinct valid (t ∷ seen) ts,
  )
  | inr skipped ↦ rw skipped (collect-AllDistinct valid seen ts)
]

-- The sanitized targets are strictly ordered from the entry away, and a price is among them if and only if
-- it was asked for and passes the tests on its sign, its side and its distance.
pub sanitize_take_profits-IsSanitized :
    (c : Context) (take_profits : List ℤ) (side : Str) (entry_price : ℤ) (stop_loss : Option ℤ)
    → let long = is_long_text side in
      IsSanitized long
        (is_valid_target c long entry_price (max_distance_of c entry_price stop_loss))
        take_profits
        (sanitize_take_profits c take_profits side entry_price stop_loss)
unfolding sanitize_take_profits
sanitize_take_profits-IsSanitized c tps side e stop =
    let long = is_long_text side in
    let valid = is_valid_target c long e (max_distance_of c e stop) in
    record {
      ordered =
          sort_targets-IsOrdered long (collect valid [] tps) (collect-AllDistinct valid [] tps);
      exact = λ x.
          has-sort_targets long x (collect valid [] tps)
          ∙ has-collect valid [] tps x
          ∙ ground arith;
    }
