-- ===== src/Simulator/Resolved.antt =====
-- When a candle ends a position.
use triak_trade.Base.{
  ℕ, ◌≡◌, refl, sym, ap, ◌∙◌, subst, ◌⊎◌, inl, inr, Bool, true, false, ◌&&◌, ◌||◌, Bool-cases,
  Option, Option-cases, none, some, is_some, List, [], ◌∷◌, keep, length, ltb, arith,
}
use triak_trade.Base.Int.{ℤ, pos, ◌≤ℤ◌, leb_ℤ, ltb_ℤ, min_ℤ, max_ℤ, eq_of_parts, -ℤ_parts, ◌-ℤ◌}
use triak_trade.Decimal.{Context, of_ℕ, of_ℕ_positive, sub, zero_d}
use triak_trade.Decimal.Laws.{round_over_zero}
use triak_trade.Domain.Records.{Candle}
use triak_trade.Strategies.{TradeStrategy}
use triak_trade.Simulator.Position.{
  ExitStatus, ExitReason, OpenPosition, hit_sl, hit_tp, pending_take_profits, part_of, rest_after,
  close_part_of, close_fraction_of_position,
}
use triak_trade.Simulator.Candles.{
  BacktestFillPolicy, is_conservative, Outcome, move_to_entry, write_stop, move_stop_by,
  target_action, hit_target, apply_take_profit_hits, close_at_stop, stop_after_targets,
  after_targets, is_nonempty, apply_candle_to_position, process_candles,
}

-- A status is given exactly when nothing is left, and what is left is never negative.
pub record IsResolved (o : Outcome) : Type 0 where
  pub rest : pos 0 ≤ℤ (o.0).remaining_quantity
  pub ended : is_some o.1 ≡ leb_ℤ (o.0).remaining_quantity zero_d

rest_after_nonneg : (c : Context) (r q : ℤ) → pos 0 ≤ℤ rest_after c r q
unfolding rest_after
rest_after_nonneg c r q = ground arith

close_nonneg :
    (c : Context) (p : OpenPosition) (t : ℕ) (price f : ℤ) (reason : ExitReason)
    → pos 0 ≤ℤ p.remaining_quantity
    → pos 0 ≤ℤ (close_fraction_of_position c p t price f reason).remaining_quantity
unfolding close_fraction_of_position close_part_of
close_nonneg c p t price f reason h =
    let effective = min_ℤ (max_ℤ f zero_d) (of_ℕ c 1) in
    elim (Bool-cases (leb_ℤ effective zero_d || leb_ℤ p.remaining_quantity zero_d)) [
      | inl nothing ↦ rw (nothing, close_fraction_of_position) h
      | inr something ↦
          rw (something, close_fraction_of_position)
            (rest_after_nonneg c p.remaining_quantity (part_of c p effective))
    ]

sub_self : (c : Context) (x : ℤ) → sub c x x ≡ zero_d
unfolding sub
sub_self c x =
    let nothing : x -ℤ x ≡ pos 0 = eq_of_parts (x -ℤ x) (pos 0) (omega (arith, -ℤ_parts x x)) in
    rw nothing (round_over_zero c 1 (omega arith))

rest_after_all : (c : Context) (x : ℤ) → rest_after c x x ≡ zero_d
unfolding rest_after
rest_after_all c x = rw (sub_self c x) refl

effective_one : (x : ℤ) → pos 1 ≤ℤ x → min_ℤ (max_ℤ x zero_d) x ≡ x
effective_one x h =
    let above : ltb_ℤ x zero_d ≡ false = ground arith in
    let same : ltb_ℤ x x ≡ false = ground arith in rw (above, same) refl

part_of_one : (c : Context) (p : OpenPosition) → part_of c p (of_ℕ c 1) ≡ p.remaining_quantity
unfolding part_of
part_of_one c p = let whole : leb_ℤ (of_ℕ c 1) (of_ℕ c 1) ≡ true = ground arith in rw whole refl

-- The whole rest is closed at the stop.
close_at_stop-all :
    (c : Context) (t : ℕ) (reason : ExitReason) (p : OpenPosition)
    → pos 1 ≤ℤ p.remaining_quantity
    → (close_at_stop c t reason p).remaining_quantity ≡ zero_d
unfolding close_at_stop close_fraction_of_position close_part_of
close_at_stop-all c t reason p h =
    let one = of_ℕ_positive c 1 (omega arith) in
    let test : (leb_ℤ (of_ℕ c 1) zero_d || leb_ℤ p.remaining_quantity zero_d) ≡ false =
      ground arith in
    rw (effective_one (of_ℕ c 1) one, test, part_of_one c p) (rest_after_all c p.remaining_quantity)

move_stop_by-rest :
    (stop : Option ℤ) (to_entry : Bool) (p : OpenPosition)
    → (move_stop_by stop to_entry p).remaining_quantity ≡ p.remaining_quantity
unfolding move_stop_by move_to_entry write_stop
move_stop_by-rest none to_entry p = ground arith
move_stop_by-rest (some stop) to_entry p = ground arith

-- What is left of a position, or nothing.
abbrev rest_of : Option (OpenPosition × ℤ) → ℤ
rest_of none = zero_d
rest_of (some r) = (r.0).remaining_quantity

target_action-rest :
    (c : Context) (strategy : Option TradeStrategy) (p : OpenPosition) {r : OpenPosition × ℤ}
    → target_action c strategy p ≡ some r
    → (r.0).remaining_quantity ≡ p.remaining_quantity
unfolding target_action
target_action-rest c none p {r} h = sym (ap rest_of h)
target_action-rest c (some strategy) p {r} h =
    elim (Option-cases (
      strategy.get_target_hit_action p.targets_hit (length (pending_take_profits p)) p.entry_price
        p.take_profits)) [
          | inl raised ↦ cc (rw (raised, target_action) at h)
          | inr (action, acted) ↦
              sym (ap rest_of (rw (acted, target_action) at h))
              ∙ move_stop_by-rest action.new_stop_loss action.move_sl_to_entry p
        ]

-- What is left is not negative.
abbrev HasRest : Option OpenPosition → Type 0
HasRest none = Unit
HasRest (some p) = pos 0 ≤ℤ p.remaining_quantity

abbrev HasSome : Option OpenPosition → Type 0
HasSome none = Unit
HasSome (some p) = pos 1 ≤ℤ p.remaining_quantity

hit_target_nonneg :
    (c : Context) (strategy : Option TradeStrategy) (t : ℕ) (tp : ℤ) (p : OpenPosition)
    → pos 0 ≤ℤ p.remaining_quantity
    → HasRest (hit_target c strategy t tp p)
unfolding hit_target
hit_target_nonneg c strategy t tp p h = elim (Option-cases (target_action c strategy p)) [
  | inl raised ↦ rw (raised, hit_target) tt
  | inr ((moved, f), acted) ↦
      let left : pos 0 ≤ℤ moved.remaining_quantity = rw (target_action-rest c strategy p acted) h in
      rw (acted, hit_target) (close_nonneg c moved t tp f (ExitReason.take_profit_hit tp) left)
]

hits_nonneg :
    (c : Context) (strategy : Option TradeStrategy) (t : ℕ) (tps : List ℤ) (p : OpenPosition)
    → pos 0 ≤ℤ p.remaining_quantity
    → HasRest (apply_take_profit_hits c strategy t tps p)
unfolding apply_take_profit_hits
hits_nonneg c strategy t [] p h = h
hits_nonneg c strategy t (tp ∷ tps) p h = elim (Bool-cases (leb_ℤ p.remaining_quantity zero_d)) [
  | inl nothing ↦ rw (nothing, apply_take_profit_hits) h
  | inr some_left ↦ elim (Option-cases (hit_target c strategy t tp p)) [
    | inl raised ↦ rw (some_left, raised, apply_take_profit_hits) tt
    | inr (q, hit) ↦
        rw (some_left, hit, apply_take_profit_hits)
          (hits_nonneg c strategy t tps q
            (subst HasRest hit (hit_target_nonneg c strategy t tp p h)))
  ]
]

stopped-IsResolved :
    (c : Context) (t : ℕ) (reason : ExitReason) (p : OpenPosition) (status : ExitStatus)
    → pos 1 ≤ℤ p.remaining_quantity
    → IsResolved (close_at_stop c t reason p, some status)
stopped-IsResolved c t reason p status h =
    let nothing = close_at_stop-all c t reason p h in
    record { rest = rw nothing (omega arith); ended = rw nothing refl }

stop_after_targets-IsResolved :
    (c : Context) (t : ℕ) (p : OpenPosition)
    → pos 0 ≤ℤ p.remaining_quantity
    → IsResolved (stop_after_targets c t p)
unfolding stop_after_targets
stop_after_targets-IsResolved c t p h = elim (Bool-cases (ltb_ℤ zero_d p.remaining_quantity)) [
  | inl some_left ↦ rw (some_left, stop_after_targets) (stopped-IsResolved c t _ p _ (ground arith))
  | inr nothing ↦ rw (nothing, stop_after_targets) (record { rest = h; ended = ground arith })
]

-- Without a hit of a target, the position still has something left.
after_targets-IsResolved :
    (c : Context) (t : ℕ) (targets stop : Bool) (p : OpenPosition)
    → pos 0 ≤ℤ p.remaining_quantity
    → (targets ≡ true) ⊎ (pos 1 ≤ℤ p.remaining_quantity)
    → IsResolved (after_targets c t targets stop p)
unfolding after_targets
after_targets-IsResolved c t targets stop p h left =
    elim (Bool-cases (targets && leb_ℤ p.remaining_quantity zero_d)) [
      | inl nothing ↦ rw (nothing, after_targets) (record { rest = h; ended = ground arith })
      | inr some_left ↦
          let more : pos 1 ≤ℤ p.remaining_quantity = elim left [
            | inl hit ↦ ground (arith, hit)
            | inr still ↦ still
          ] in
          elim (Bool-cases (stop && ltb_ℤ zero_d p.remaining_quantity)) [
            | inl stopped ↦
                rw (some_left, stopped, after_targets) (stopped-IsResolved c t _ p _ more)
            | inr running ↦
                rw (some_left, running, after_targets) (record { rest = h; ended = ground arith })
          ]
    ]

-- Without a target that is hit, nothing is closed.
unhit :
    (c : Context) (strategy : Option TradeStrategy) (t : ℕ) (hits : List ℤ) (p q : OpenPosition)
    → pos 1 ≤ℤ p.remaining_quantity
    → apply_take_profit_hits c strategy t hits p ≡ some q
    → (is_nonempty hits ≡ true) ⊎ (pos 1 ≤ℤ q.remaining_quantity)
unfolding apply_take_profit_hits is_nonempty
unhit c strategy t [] p q h e = inr (subst HasSome e h)
unhit c strategy t (x ∷ xs) p q h e = inl refl

-- What the candle made of the position: nothing is left exactly when it has a status.
abbrev pub IsDone : Option Outcome → Type 0
IsDone none = Unit
IsDone (some o) = IsResolved o

apply_candle_to_position-IsDone :
    (c : Context) (policy : BacktestFillPolicy) (strategy : Option TradeStrategy) (p : OpenPosition)
    (k : Candle)
    → pos 1 ≤ℤ p.remaining_quantity
    → IsDone (apply_candle_to_position c policy strategy p k)
unfolding apply_candle_to_position
apply_candle_to_position-IsDone c policy strategy p k h =
    let stop = hit_sl p k in
    let hits = keep (hit_tp p k) (pending_take_profits p) in
    let targets = is_nonempty hits in
    let nonneg : pos 0 ≤ℤ p.remaining_quantity = omega arith in
    elim (Bool-cases (stop && targets && is_conservative policy)) [
      | inl first ↦ rw (first, apply_candle_to_position) (stopped-IsResolved c k.close_time _ p _ h)
      | inr other ↦ elim (Option-cases (apply_take_profit_hits c strategy k.close_time hits p)) [
        | inl raised ↦ rw (other, raised, apply_candle_to_position) tt
        | inr (q, hit) ↦
            let left = subst HasRest hit (hits_nonneg c strategy k.close_time hits p nonneg) in
            elim (Bool-cases (stop && targets)) [
              | inl both ↦
                  rw (other, hit, both, apply_candle_to_position)
                    (stop_after_targets-IsResolved c k.close_time q left)
              | inr one ↦
                  rw (other, hit, one, apply_candle_to_position)
                    (after_targets-IsResolved c k.close_time targets stop q left
                      (unhit c strategy k.close_time hits p q h hit))
            ]
      ]
    ]

-- The strategy, where there is one, has an action for every target.
abbrev pub Answers : Option TradeStrategy → Type 0
Answers none = Unit
Answers (some s) =
    (hit remaining : ℕ) (entry : ℤ) (targets : List ℤ)
    → is_some (s.get_target_hit_action hit remaining entry targets) ≡ true

target_action_returns :
    (c : Context) (strategy : Option TradeStrategy) (p : OpenPosition)
    → Answers strategy
    → is_some (target_action c strategy p) ≡ true
unfolding target_action
target_action_returns c none p a = refl
target_action_returns c (some s) p a =
    elim (Option-cases (
      s.get_target_hit_action p.targets_hit (length (pending_take_profits p)) p.entry_price
        p.take_profits)) [
          | inl raised ↦ cc (
              rw raised at
                (a p.targets_hit (length (pending_take_profits p)) p.entry_price p.take_profits))
          | inr (action, acted) ↦ rw (acted, target_action) refl
        ]

hits_return :
    (c : Context) (strategy : Option TradeStrategy) (t : ℕ) (tps : List ℤ) (p : OpenPosition)
    → Answers strategy
    → is_some (apply_take_profit_hits c strategy t tps p) ≡ true
unfolding apply_take_profit_hits hit_target
hits_return c strategy t [] p a = refl
hits_return c strategy t (tp ∷ tps) p a = elim (Bool-cases (leb_ℤ p.remaining_quantity zero_d)) [
  | inl nothing ↦ rw (nothing, apply_take_profit_hits) refl
  | inr some_left ↦ elim (Option-cases (target_action c strategy p)) [
    | inl raised ↦ cc (rw raised at (target_action_returns c strategy p a))
    | inr ((moved, f), acted) ↦
        rw (some_left, acted, hit_target, apply_take_profit_hits) (hits_return c strategy t tps _ a)
  ]
]

apply_candle_returns :
    (c : Context) (policy : BacktestFillPolicy) (strategy : Option TradeStrategy) (p : OpenPosition)
    (k : Candle)
    → Answers strategy
    → is_some (apply_candle_to_position c policy strategy p k) ≡ true
unfolding apply_candle_to_position
apply_candle_returns c policy strategy p k a =
    let hits = keep (hit_tp p k) (pending_take_profits p) in
    elim (Bool-cases (hit_sl p k && is_nonempty hits && is_conservative policy)) [
      | inl first ↦ rw (first, apply_candle_to_position) refl
      | inr other ↦ elim (Option-cases (apply_take_profit_hits c strategy k.close_time hits p)) [
        | inl raised ↦ cc (rw raised at (hits_return c strategy k.close_time hits p a))
        | inr (q, hit) ↦ rw (other, hit, apply_candle_to_position) refl
      ]
    ]

-- Whatever the candles are, with a strategy that answers the simulation of a position with something left
-- returns, and gives the position a status exactly when nothing is left of it; the quantity that is left is
-- never negative.
pub process_candles-IsResolved :
    (c : Context) (policy : BacktestFillPolicy) (strategy : Option TradeStrategy) (ks : List Candle)
    (p : OpenPosition)
    → Answers strategy
    → pos 1 ≤ℤ p.remaining_quantity
    → (o : Outcome) × (process_candles c policy strategy ks p ≡ some o) × IsResolved o
unfolding process_candles
process_candles-IsResolved c policy strategy [] p a h =
    ((p, none), refl, record { rest = omega arith; ended = ground arith })
process_candles-IsResolved c policy strategy (k ∷ ks) p a h =
    elim (Bool-cases (ltb k.open_time p.entry_time)) [
      | inl early ↦
          rw (early, process_candles) (process_candles-IsResolved c policy strategy ks p a h)
      | inr reached ↦ elim (Option-cases (apply_candle_to_position c policy strategy p k)) [
        | inl raised ↦ cc (rw raised at (apply_candle_returns c policy strategy p k a))
        | inr ((q, none), applied) ↦
            let done =
              subst IsDone applied (apply_candle_to_position-IsDone c policy strategy p k h) in
            rw (reached, applied, process_candles)
              (process_candles-IsResolved c policy strategy ks q a
                (ground (arith, done.rest, done.ended)))
        | inr ((q, some status), applied) ↦
            rw (reached, applied, process_candles)
              (
                (q, some status),
                refl,
                subst IsDone applied (apply_candle_to_position-IsDone c policy strategy p k h),
              )
      ]
    ]
