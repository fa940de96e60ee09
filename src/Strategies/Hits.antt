-- ===== src/Strategies/Hits.antt =====
-- What a strategy does when a target is hit.
use triak_trade.Base.{
  ℕ, zero, suc, ◌-◌, ◌*◌, ◌≤◌, ◌<◌, ◌≡◌, refl, ap, subst, leb, ltb, ◌==◌, ◌||◌, Bool-cases, inl,
  inr, ◌⊎◌, some, Option-cases, List, [], ◌∷◌, get_elem?, arith,
}
use triak_trade.Base.Int.{ℤ, pos, ◌≤ℤ◌}
use triak_trade.Decimal.{
  Context, of_ℕ, div, place, of_ℕ_mono, of_ℕ_nonneg, of_ℕ_positive, div_nonneg, div_mono, div_self,
  unit-place,
}
use triak_trade.Strategies.Default.{RiskParameters, close_fraction_of, target_hit_action_of}
use triak_trade.Strategies.Trailing.{trailing_gap, trailing_action}

one_places : (c : Context) → of_ℕ c 1 ≡ pos (100 * place c 2)
unfolding of_ℕ
one_places c = ap pos (omega (arith, unit-place c))

-- A fraction of a position.
pub record IsFraction (c : Context) (f : ℤ) : Type 0 where
  pub low : pos 0 ≤ℤ f
  pub high : f ≤ℤ of_ℕ c 1

close_fraction_of-IsFraction :
    (c : Context) (fractions : List ℤ) (hit remaining : ℕ)
    → 1 < remaining
    → IsFraction c (close_fraction_of c fractions hit remaining)
unfolding close_fraction_of
close_fraction_of-IsFraction c [] hit n h =
    let positive = of_ℕ_positive c n (omega arith) in
    record {
      low = div_nonneg c (of_ℕ c 1) (of_ℕ c n) (of_ℕ_nonneg c 1) positive;
      high =
          subst (λ t. div c (of_ℕ c 1) (of_ℕ c n) ≤ℤ t) (div_self c n (omega arith))
            (div_mono c (of_ℕ c 1) (of_ℕ c n) (of_ℕ c n) (of_ℕ_mono c (omega arith)) positive);
    }
close_fraction_of-IsFraction c (f ∷ fs) hit n h =
    let one = one_places c in record { low = ground arith; high = ground arith }

-- The fraction to close at a target is between zero and one, and at the last target it is one.
pub target_hit_action_of-IsFraction :
    (c : Context) (p : RiskParameters) (hit remaining : ℕ)
    → let fraction = (target_hit_action_of c p hit remaining).close_fraction in
      IsFraction c fraction × ((1 < remaining) ⊎ (fraction ≡ of_ℕ c 1))
unfolding target_hit_action_of
target_hit_action_of-IsFraction c p hit n = elim (Bool-cases (leb n 1)) [
  | inl last ↦
      rw (last, target_hit_action_of)
        (record { low = of_ℕ_nonneg c 1; high = omega arith }, inr refl)
  | inr more ↦
      rw (more, target_hit_action_of)
        (
          close_fraction_of-IsFraction c p.tp_close_fractions hit n (ground arith),
          inl (ground arith),
        )
]

-- The stop of an action with a new stop is the target that many places behind.
trailing_target :
    (c : Context) (p : RiskParameters) (hit remaining : ℕ) (targets : List ℤ) (stop : ℤ)
    → (trailing_action c p hit remaining targets).new_stop_loss ≡ some stop
    → (trailing_gap targets ≤ hit) × (get_elem? targets (hit - trailing_gap targets) ≡ some stop)
unfolding trailing_action target_hit_action_of
trailing_target c p hit n targets stop e =
    elim (Bool-cases (hit == 0 || ltb hit (trailing_gap targets))) [
      | inl early ↦ cc (rw (early, trailing_action) at e)
      | inr late ↦ elim (Option-cases (get_elem? targets (hit - trailing_gap targets))) [
        | inl missing ↦ cc (rw (late, missing, trailing_action) at e)
        | inr (t, found) ↦
            let same = rw (late, found, trailing_action) at e in (ground arith, cc (found, same))
      ]
    ]

trailing_gap_pos : (targets : List ℤ) → 1 ≤ trailing_gap targets
unfolding trailing_gap
trailing_gap_pos targets = ground arith

-- The targets do not fall.
abbrev pub IsAscending : List ℤ → Type 0
IsAscending [] = Unit
IsAscending (x ∷ []) = Unit
IsAscending (x ∷ y ∷ ys) = (x ≤ℤ y) × IsAscending (y ∷ ys)

ascending-le :
    (targets : List ℤ) (i j : ℕ) (a b : ℤ)
    → IsAscending targets
    → i ≤ j
    → get_elem? targets i ≡ some a
    → get_elem? targets j ≡ some b
    → a ≤ℤ b
ascending-le [] i j a b h le e f = cc
ascending-le (x ∷ xs) zero zero a b h le e f = ground arith
ascending-le (x ∷ xs) (suc i) zero a b h le e f = absurd (omega arith)
ascending-le (x ∷ []) i (suc j) a b h le e f = cc
ascending-le (x ∷ y ∷ ys) zero (suc j) a b (h, hs) le e f =
    let rest = ascending-le (y ∷ ys) zero j y b hs (omega arith) refl f in ground (arith, rest)
ascending-le (x ∷ y ∷ ys) (suc i) (suc j) a b (h, hs) le e f =
    ascending-le (y ∷ ys) i j a b hs (omega arith) e f

-- The targets do not rise.
abbrev pub IsDescending : List ℤ → Type 0
IsDescending [] = Unit
IsDescending (x ∷ []) = Unit
IsDescending (x ∷ y ∷ ys) = (y ≤ℤ x) × IsDescending (y ∷ ys)

descending-le :
    (targets : List ℤ) (i j : ℕ) (a b : ℤ)
    → IsDescending targets
    → i ≤ j
    → get_elem? targets i ≡ some a
    → get_elem? targets j ≡ some b
    → b ≤ℤ a
descending-le [] i j a b h le e f = cc
descending-le (x ∷ xs) zero zero a b h le e f = ground arith
descending-le (x ∷ xs) (suc i) zero a b h le e f = absurd (omega arith)
descending-le (x ∷ []) i (suc j) a b h le e f = cc
descending-le (x ∷ y ∷ ys) zero (suc j) a b (h, hs) le e f =
    let rest = descending-le (y ∷ ys) zero j y b hs (omega arith) refl f in ground (arith, rest)
descending-le (x ∷ y ∷ ys) (suc i) (suc j) a b (h, hs) le e f =
    descending-le (y ∷ ys) i j a b hs (omega arith) e f

-- What the stops of a hit and of the same or a later one satisfy.
pub record IsTrailed (targets : List ℤ) (hit : ℕ) (stop later : ℤ) : Type 0 where
  pub index : ℕ
  pub before : index < hit
  pub target : get_elem? targets index ≡ some stop
  pub rising : IsAscending targets → stop ≤ℤ later
  pub falling : IsDescending targets → later ≤ℤ stop

-- A trailing stop is a target that was hit before. The stop of the same or a later hit, where there is one, is
-- no lower on a ladder that does not fall, and no higher on one that does not rise.
pub trailing_action-IsTrailed :
    (c : Context) (p : RiskParameters) (hit later remaining remaining' : ℕ) (targets : List ℤ)
    (stop next : ℤ)
    → hit ≤ later
    → (trailing_action c p hit remaining targets).new_stop_loss ≡ some stop
    → (trailing_action c p later remaining' targets).new_stop_loss ≡ some next
    → IsTrailed targets hit stop next
trailing_action-IsTrailed c p hit later n n' targets stop next h e f =
    let (late, at) = trailing_target c p hit n targets stop e in
    let (_, at') = trailing_target c p later n' targets next f in
    let positive = trailing_gap_pos targets in
    let forward : hit - trailing_gap targets ≤ later - trailing_gap targets = omega arith in
    record {
      index = hit - trailing_gap targets;
      before = omega arith;
      target = at;
      rising = λ up. ascending-le targets _ _ stop next up forward at at';
      falling = λ down. descending-le targets _ _ stop next down forward at at';
    }
