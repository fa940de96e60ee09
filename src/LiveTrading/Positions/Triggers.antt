-- ===== src/LiveTrading/Positions/Triggers.antt =====
-- Which events `check_sl_tp_hit` reports.
use triak_trade.Base.{
  ℕ, zero, suc, ◌+◌, ◌-◌, ◌≤◌, ◌<◌, ◌≡◌, refl, sym, ap, ◌⊎◌, inl, inr, Bool, true, false,
  if◌then◌else◌, Bool-cases, Option, none, some, List, [], ◌∷◌, ◌++◌, drop, get_elem?, arith,
}
use triak_trade.Base.Int.{ℤ, pos, ◌≤ℤ◌, leb_ℤ}
use triak_trade.Decimal.{zero_d}
use triak_trade.LiveTrading.Models.{LiveTrade, is_open}
use triak_trade.LiveTrading.Positions.Targets.{is_long_text}
use triak_trade.LiveTrading.Positions.Closing.{
  TradeEvent, target_reached, stop_reached, first_reached, target_event, check_sl_tp_hit,
}

-- The targets from `start` to before `n` are not reached.
abbrev pub NotReached : Bool → ℤ → List ℤ → ℕ → ℕ → Type 0
NotReached long price targets start n =
    (i : ℕ)
    → start ≤ i
    → i < n
    → (tp : ℤ) → get_elem? targets i ≡ some tp
    → target_reached long price tp ≡ false

-- The index of the first target from `start` on that is reached, or none when none is.
abbrev pub IsFirstReached : Bool → ℤ → List ℤ → ℕ → Option ℕ → Type 0
IsFirstReached long price targets start none =
    (i : ℕ)
    → start ≤ i
    → (tp : ℤ) → get_elem? targets i ≡ some tp
    → target_reached long price tp ≡ false
IsFirstReached long price targets start (some n) =
    (start ≤ n)
    × (tp : ℤ) × (get_elem? targets n ≡ some tp)
    × (target_reached long price tp ≡ true)
    × NotReached long price targets start n

-- The same for the list from `start` on, with indices that begin at `base`.
abbrev IsFirstFrom : Bool → ℤ → ℕ → List ℤ → Option ℕ → Type 0
IsFirstFrom long price base tps none =
    (i : ℕ) (tp : ℤ) → get_elem? tps i ≡ some tp → target_reached long price tp ≡ false
IsFirstFrom long price base tps (some n) =
    (i : ℕ) × (n ≡ base + i)
    × (tp : ℤ) × (get_elem? tps i ≡ some tp)
    × (target_reached long price tp ≡ true)
    × ((j : ℕ) → j < i → (u : ℤ) → get_elem? tps j ≡ some u → target_reached long price u ≡ false)

at_cons :
    (x : ℤ) (xs : List ℤ) (i : ℕ) (u : ℤ)
    → get_elem? (x ∷ xs) i ≡ some u
    → ((i ≡ 0) × (x ≡ u)) ⊎ ((j : ℕ) × (i ≡ suc j) × (get_elem? xs j ≡ some u))
at_cons x xs zero u h = inl (refl, cc)
at_cons x xs (suc j) u h = inr (j, refl, h)

later :
    (long : Bool) (price : ℤ) (base : ℕ) (tp : ℤ) (tps : List ℤ) (o : Option ℕ)
    → target_reached long price tp ≡ false
    → IsFirstFrom long price (suc base) tps o
    → IsFirstFrom long price base (tp ∷ tps) o
later long price base tp tps none missed h = λ i u at. elim (at_cons tp tps i u at) [
  | inl (_, e) ↦ rw (sym e) missed
  | inr (j, _, rest) ↦ h j u rest
]
later long price base tp tps (some n) missed (i, e, u, at, hit, before) = (
  suc i,
  omega arith,
  u,
  at,
  hit,
  λ j less w at_j. elim (at_cons tp tps j w at_j) [
    | inl (_, same) ↦ rw (sym same) missed
    | inr (k, next, rest) ↦ before k (omega arith) w rest
  ],
)

first_reached-IsFirstFrom :
    (long : Bool) (price : ℤ) (base : ℕ) (tps : List ℤ)
    → IsFirstFrom long price base tps (first_reached long price base tps)
unfolding first_reached
first_reached-IsFirstFrom long price base [] = λ i tp at. cc
first_reached-IsFirstFrom long price base (tp ∷ tps) =
    elim (Bool-cases (target_reached long price tp)) [
      | inl hit ↦
          rw (hit, first_reached)
            (0, omega arith, tp, refl, hit, λ j less u at. absurd (omega arith))
      | inr missed ↦
          rw (missed, first_reached)
            (later long price base tp tps (first_reached long price (suc base) tps) missed
              (first_reached-IsFirstFrom long price (suc base) tps))
    ]

get_elem?-drop : (n : ℕ) (xs : List ℤ) (i : ℕ) → get_elem? (drop n xs) i ≡ get_elem? xs (i + n)
get_elem?-drop zero xs i = ap (get_elem? xs) (omega arith)
get_elem?-drop (suc n) [] i = refl
get_elem?-drop (suc n) (x ∷ xs) i =
    let next : i + suc n ≡ suc (i + n) = omega arith in rw next (get_elem?-drop n xs i)

at_offset :
    (targets : List ℤ) (start i : ℕ) (tp : ℤ)
    → start ≤ i
    → get_elem? targets i ≡ some tp
    → get_elem? (drop start targets) (i - start) ≡ some tp
at_offset targets start i tp h at =
    let same : i - start + start ≡ i = omega arith in
    rw (get_elem?-drop start targets (i - start), same) at

from-IsFirstReached :
    (long : Bool) (price : ℤ) (targets : List ℤ) (start : ℕ) (o : Option ℕ)
    → IsFirstFrom long price start (drop start targets) o
    → IsFirstReached long price targets start o
from-IsFirstReached long price targets start none h =
    λ i less tp at. h (i - start) tp (at_offset targets start i tp less at)
from-IsFirstReached long price targets start (some n) (i, e, tp, at, hit, before) =
    let same : i + start ≡ n = omega arith in
    (
      omega arith,
      tp,
      rw (sym same) (rw (get_elem?-drop start targets i) at at),
      hit,
      λ j low less u at_j.
          before (j - start) (omega arith) u (at_offset targets start j u low at_j),
    )

-- The events for a trade at a price.
pub record IsReport (t : LiveTrade) (price : ℤ) (events : List TradeEvent) : Type 0 where
  pub outcome :
      ((is_open t ≡ false) × (events ≡ []))
      ⊎ ((t.remaining_quantity ≤ℤ pos 0) × (events ≡ []))
      ⊎ ((is_open t ≡ true)
          × (pos 1 ≤ℤ t.remaining_quantity)
          × (o : Option ℕ) × IsFirstReached
              (is_long_text t.side)
              price
              t.take_profits
              t.targets_hit
              o
          × (events
              ≡ target_event o
                ++ (if stop_reached (is_long_text t.side) price t.stop_loss
                    then TradeEvent.sl_hit ∷ []
                    else [])))

-- Of a trade that is closed or has nothing left no event is reported. Otherwise the events are the first
-- target from the number of targets hit on that the price has reached, if there is one, and then the stop,
-- if the price has reached it.
pub check_sl_tp_hit-IsReport :
    (t : LiveTrade) (mark_price : ℤ) → IsReport t mark_price (check_sl_tp_hit t mark_price)
unfolding check_sl_tp_hit
check_sl_tp_hit-IsReport t price =
    let long = is_long_text t.side in
    let targets = drop t.targets_hit t.take_profits in
    elim (Bool-cases (is_open t)) [
      | inr ended ↦ rw (ended, check_sl_tp_hit) (record { outcome = inl (ended, refl) })
      | inl active ↦ elim (Bool-cases (leb_ℤ t.remaining_quantity zero_d)) [
        | inl nothing ↦
            rw (active, nothing, check_sl_tp_hit)
              (record { outcome = inr (inl (ground arith, refl)) })
        | inr some_left ↦
            rw (active, some_left, check_sl_tp_hit)
              (record {
                outcome = inr (
                    inr (
                      active,
                      ground arith,
                      first_reached long price t.targets_hit targets,
                      from-IsFirstReached long price t.take_profits t.targets_hit
                          (first_reached long price t.targets_hit targets)
                          (first_reached-IsFirstFrom long price t.targets_hit targets),
                      refl,
                    ));
              })
      ]
    ]
