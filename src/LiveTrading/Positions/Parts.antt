-- ===== src/LiveTrading/Positions/Parts.antt =====
-- What a partial close takes from a quantity on the grid of the eighth decimal place.
use triak_trade.Base.{
  ℕ, ◌-◌, ◌*◌, ◌≤◌, ◌<◌, ◌≡◌, refl, sym, ap, ◌∙◌, subst, inl, inr, Bool, false, Bool-cases, Option,
  some, leb, arith,
}
use triak_trade.Base.Int.{ℤ, pos, ◌≤ℤ◌, leb_ℤ, ltb_ℤ, max_ℤ}
use triak_trade.Base.Text.{Str}
use native.Mathlib.Nat.{mul-le-mul}
use triak_trade.Decimal.{
  Context, of_ℕ, sub, mul, tick, zero_d, on_grid, tick_pos, on_grid-IsRepresented, mul_nonneg,
  mul_one, mul-le, quantize-le, quantize_exact, sub-on_grid,
}
use triak_trade.Decimal.Round.{limit}
use triak_trade.LiveTrading.Models.{LiveTrade, MessageAttribution, closed}
use triak_trade.LiveTrading.Positions.Targets.{Note}
use triak_trade.LiveTrading.Positions.Closing.{
  close_quantity, book, reduce, settle, apply_partial_close,
}
use triak_trade.LiveTrading.Positions.Lifecycle.{Ledger, ledger}
use triak_trade.LiveTrading.Positions.Settled.{ledger-note_closing}

on_grid_zero : (c : Context) → on_grid c 0 ≡ zero_d
on_grid_zero c = ap pos (omega arith)

grid_positive : (c : Context) (q : ℕ) → 0 < q → pos 1 ≤ℤ on_grid c q
grid_positive c q h = let p : 1 * 1 ≤ q * tick c = mul-le-mul h (tick_pos c) in omega arith

-- A part of `k` steps that is closed, and what remains.
pub record IsPart (c : Context) (k : ℕ) (closed_quantity remaining : ℤ) : Type 0 where
  pub steps : ℕ
  pub bounded : steps ≤ k
  pub taken : closed_quantity ≡ on_grid c steps
  pub rest : remaining ≡ on_grid c (k - steps)

zero_steps : (c : Context) (q : ℕ) → on_grid c q ≤ℤ zero_d → q ≡ 0
zero_steps c q h = elim (Bool-cases (leb 1 q)) [
  | inl more ↦ absurd (omega (arith, h, grid_positive c q (ground arith)))
  | inr nothing ↦ ground arith
]

settle-remaining :
    (closed_at : ℕ) (price : ℤ) (reason : Str) (t : LiveTrade)
    → (settle closed_at price reason t).remaining_quantity ≡ t.remaining_quantity
unfolding settle
settle-remaining closed_at price reason t = elim (Bool-cases (ltb_ℤ zero_d t.remaining_quantity)) [
  | inl some_left ↦ rw (some_left, settle) refl
  | inr nothing ↦ rw (nothing, settle) refl
]

-- Closed at a price for a reason, with nothing left.
abbrev pub IsExit : ℤ → Str → Ledger → Type 0
IsExit price reason l =
    (l.status ≡ closed)
    × (l.remaining_quantity ≡ zero_d)
    × (l.exit_price ≡ some price)
    × (l.close_reason ≡ some reason)

settle-IsExit :
    (closed_at : ℕ) (price : ℤ) (reason : Str) (t : LiveTrade)
    → t.remaining_quantity ≡ zero_d
    → IsExit price reason (ledger (settle closed_at price reason t))
unfolding settle
settle-IsExit closed_at price reason t nothing =
    let none_left : ltb_ℤ zero_d t.remaining_quantity ≡ false = rw nothing refl in
    rw (none_left, settle) (refl, nothing, refl, refl)

close_quantity_one :
    (c : Context) (t : LiveTrade) (k : ℕ)
    → t.remaining_quantity ≡ on_grid c k
    → k < limit c
    → close_quantity c t (of_ℕ c 1) ≡ on_grid c k
unfolding close_quantity
close_quantity_one c t k at short =
    rw (at, mul_one c (on_grid c k) (on_grid-IsRepresented c k short)) (quantize_exact c k)

rest_on_grid :
    (c : Context) (k q : ℕ)
    → k < limit c
    → q ≤ k
    → (remaining quantity : ℤ) → remaining ≡ on_grid c k
    → quantity ≡ on_grid c q
    → max_ℤ zero_d (sub c remaining quantity) ≡ on_grid c (k - q)
rest_on_grid c k q short less remaining quantity at size =
    rw (at, size, sub-on_grid c k q short less) (ground arith)

module _ (c : Context) (text : Note → Str) (closed_at now : ℕ) (t : LiveTrade) (price : ℤ)
    (reason : Str) (fee : ℤ) (message : Option MessageAttribution) (is_tp_hit : Bool) where
  abbrev after : ℤ → LiveTrade
  after f = (apply_partial_close c text closed_at now t f price reason fee message is_tp_hit).trade

  -- What is left, whether something was closed or nothing.
  remaining_after :
      (f : ℤ) (k q : ℕ)
      → t.remaining_quantity ≡ on_grid c k
      → k < limit c
      → q ≤ k
      → close_quantity c t f ≡ on_grid c q
      → (after f).remaining_quantity ≡ on_grid c (k - q)
  unfolding apply_partial_close reduce book
  remaining_after f k q at short less size =
      let quantity = close_quantity c t f in
      let reduced = reduce c (book c t price quantity fee) quantity is_tp_hit in
      elim (Bool-cases (leb_ℤ quantity zero_d)) [
        | inl nothing ↦
            let none_taken : q ≡ 0 = zero_steps c q (ground (arith, rw size at nothing)) in
            let rest : k ≡ k - q = omega arith in
            rw (nothing, after, apply_partial_close) (at ∙ ap (λ (n : ℕ). on_grid c n) rest)
        | inr something ↦
            rw (something, after, apply_partial_close)
              (ap (λ (l : Ledger). l.remaining_quantity)
                  (ledger-note_closing now _ _ (settle closed_at price reason reduced) message _)
                ∙ settle-remaining closed_at price reason reduced
                ∙ rest_on_grid c k q short less t.remaining_quantity quantity at size)
      ]

module _ (c : Context) (text : Note → Str) (closed_at now : ℕ) where
  -- With a quantity of whole steps of the eighth place and at most as many digits as are kept, a fraction
  -- between zero and one closes a whole number of steps, no more than there are, and exactly the others
  -- remain.
  pub apply_partial_close-IsPart :
      (t : LiveTrade) (f price : ℤ) (reason : Str) (fee : ℤ) (message : Option MessageAttribution)
      (is_tp_hit : Bool) (k : ℕ)
      → t.remaining_quantity ≡ on_grid c k
      → k < limit c
      → pos 0 ≤ℤ f
      → f ≤ℤ of_ℕ c 1
      → IsPart c k (close_quantity c t f) (
          (apply_partial_close c text closed_at now t f price reason fee message
            is_tp_hit).trade.remaining_quantity)
  unfolding close_quantity
  apply_partial_close-IsPart t f price reason fee message hit k at short low high =
      let represented = on_grid-IsRepresented c k short in
      let nonneg = mul_nonneg c (on_grid c k) f (omega arith) low in
      let (q, size, less) =
        quantize-le c (mul c (on_grid c k) f) k nonneg
          (mul-le c (on_grid c k) f represented (omega arith) high) in
      let taken : close_quantity c t f ≡ on_grid c q = rw at size in
      record {
        steps = q;
        bounded = less;
        taken = taken;
        rest =
            remaining_after c text closed_at now t price reason fee message hit f k q at short less
              taken;
      }

  -- With such a quantity of at least one step, the fraction one closes the trade.
  pub apply_partial_close-all :
      (t : LiveTrade) (price : ℤ) (reason : Str) (fee : ℤ) (message : Option MessageAttribution)
      (is_tp_hit : Bool) (k : ℕ)
      → t.remaining_quantity ≡ on_grid c k
      → k < limit c
      → 0 < k
      → let closing =
          apply_partial_close c text closed_at now t
            (of_ℕ c 1)
            price
            reason
            fee
            message
            is_tp_hit in
        IsExit price reason (ledger closing.trade)
  unfolding apply_partial_close reduce book
  apply_partial_close-all t price reason fee message hit k at short some_steps =
      let quantity = close_quantity c t (of_ℕ c 1) in
      let reduced = reduce c (book c t price quantity fee) quantity hit in
      let whole = close_quantity_one c t k at short in
      let positive : leb_ℤ quantity zero_d ≡ false =
        rw whole (ground (arith, grid_positive c k some_steps)) in
      let nothing : reduced.remaining_quantity ≡ zero_d =
        rest_on_grid c k k short (omega arith) t.remaining_quantity quantity at whole
        ∙ ap (λ (n : ℕ). on_grid c n) (omega arith)
        ∙ on_grid_zero c in
      rw (positive, apply_partial_close)
        (subst (IsExit price reason)
          (sym (ledger-note_closing now _ _ (settle closed_at price reason reduced) message _))
          (settle-IsExit closed_at price reason reduced nothing))
