-- ===== src/LiveTrading/Positions/Sized.antt =====
-- What `compute_position_sizing` returns.
use triak_trade.Base.{
  ℕ, min, max, ◌≤◌, ◌==◌, ◌≡◌, refl, subst, true, false, Bool-cases, ◌⊎◌, inl, inr, Option,
  Option-cases, none, some, List, [], ◌∷◌, arith, ok, ok-injective, Result-cases,
}
use triak_trade.Base.Int.{ℤ, pos, ◌≤ℤ◌, leb_ℤ}
use triak_trade.Decimal.{Context, of_ℕ, mul, zero_d}
use triak_trade.Domain.{TradeSide, is_long, is_direction, ParsedSignal}
use triak_trade.Strategies.{TradeStrategy}
use triak_trade.LiveTrading.Positions.Targets.{
  Note, side_text, is_empty, sanitize_take_profits, enforce_minimum_first_take_profit,
  resolve_entry_price, allocation_pct_for_signal,
}
use triak_trade.LiveTrading.Positions.Sizing.{
  Settings, PositionSizingResult, StopStage, leverage_raw_of, planned_quantity, from_strategy,
  generated_targets, targets_stage, stop_stage, size_at, compute_position_sizing,
}
use triak_trade.LiveTrading.Positions.Risk.{IsWithin, IsPreserved, requested_stop_stage-IsPreserved}

-- The targets are those asked for that are usable, or some that were generated.
pub record HasTargets (c : Context) (signal : ParsedSignal) (entry_price stop_loss : ℤ)
    (targets : List ℤ) : Type 0 where
  pub some_left : is_empty targets ≡ false
  pub asked :
      let usable =
        sanitize_take_profits c signal.take_profits
          (side_text signal.side)
          entry_price
          (some stop_loss) in
      (targets ≡ usable) ⊎ (usable ≡ [])

-- A requested stop is kept, for no more than the planned quantity and within the budget.
abbrev pub KeepsStop :
    Context → Settings → ParsedSignal → ℤ → PositionSizingResult → Option ℤ → Type 0
KeepsStop c settings signal balance r none = Unit
KeepsStop c settings signal balance r (some s) =
    (r.stop_loss ≡ s)
    × (is_direction signal.side ≡ true)
    × (r.quantity ≤ℤ planned_quantity c balance r.allocation_pct r.leverage r.entry_price)
    × IsWithin c settings signal.side r.entry_price s r.quantity balance

keeps_stop :
    (c : Context) (settings : Settings) (signal : ParsedSignal) (balance : ℤ)
    (r : PositionSizingResult) (o : Option ℤ)
    → ((s : ℤ) → o ≡ some s → KeepsStop c settings signal balance r (some s))
    → KeepsStop c settings signal balance r o
keeps_stop c settings signal balance r none h = tt
keeps_stop c settings signal balance r (some s) h = h s refl

-- A sizing for the leverage and the entry price that the signal and the settings give.
pub record IsSized (c : Context) (settings : Settings) (risk_per_trade_pct : ℤ)
    (signal : ParsedSignal) (balance : ℤ) (r : PositionSizingResult) : Type 0 where
  pub entry : resolve_entry_price c signal ≡ some r.entry_price
  pub leverage :
      r.leverage
      ≡ min
          (max (leverage_raw_of settings.default_signal_leverage signal.leverage) 1)
          settings.max_effective_leverage
  pub positive : (pos 1 ≤ℤ r.entry_price) × (pos 1 ≤ℤ r.quantity) × (1 ≤ r.leverage)
  pub share :
      r.allocation_pct
      ≡ allocation_pct_for_signal c risk_per_trade_pct
          (of_ℕ c r.leverage)
          settings.min_allocation_pct
          settings.max_allocation_pct
  pub stop : KeepsStop c settings signal balance r signal.stop_loss
  pub targets : HasTargets c signal r.entry_price r.stop_loss r.take_profits

empty_list : (xs : List ℤ) → is_empty xs ≡ true → xs ≡ []
unfolding is_empty
empty_list [] h = refl
empty_list (x ∷ xs) h = cc

module _ (c : Context) (settings : Settings) where
  generated_targets_some :
      (side : TradeSide) (entry_price stop_loss quantity : ℤ) (strategy : Option TradeStrategy)
      {t : List ℤ × List Note}
      → generated_targets c settings side entry_price stop_loss quantity strategy ≡ ok t
      → is_empty t.0 ≡ false
  unfolding generated_targets from_strategy
  generated_targets_some side e stop q none h = cc
  generated_targets_some side e stop q (some strategy) {t} h =
      elim (Option-cases (strategy.get_synthetic_take_profits side e stop (mul c e q))) [
        | inl raised ↦ cc (rw (raised, generated_targets) at h)
        | inr (offered, found) ↦
            let sanitized = sanitize_take_profits c offered (side_text side) e (some stop) in
            let targets =
              (enforce_minimum_first_take_profit c sanitized (is_long side) e
                settings.min_first_take_profit_pct).0 in
            elim (Bool-cases (is_empty sanitized)) [
              | inl nothing ↦ cc (rw (found, nothing, generated_targets) at h)
              | inr some_found ↦ elim (Bool-cases (is_empty targets)) [
                | inl nothing ↦ cc (rw (found, some_found, nothing, generated_targets) at h)
                | inr some_left ↦
                    let same = rw (found, some_found, some_left, generated_targets) at h in
                    subst (λ (u : List ℤ × List Note). is_empty u.0 ≡ false) (ok-injective same)
                      some_left
              ]
            ]
      ]

  targets_stage-HasTargets :
      (signal : ParsedSignal) (entry_price stop_loss quantity : ℤ) (strategy : Option TradeStrategy)
      {t : List ℤ × List Note}
      → targets_stage c settings signal entry_price stop_loss quantity strategy ≡ ok t
      → HasTargets c signal entry_price stop_loss t.0
  unfolding targets_stage
  targets_stage-HasTargets signal e stop q strategy {t} h =
      let usable =
        sanitize_take_profits c signal.take_profits (side_text signal.side) e (some stop) in
      elim (Bool-cases (is_empty usable)) [
        | inr asked ↦
            let same = rw (asked, targets_stage) at h in
            subst (λ (u : List ℤ × List Note). HasTargets c signal e stop u.0) (ok-injective same)
              (record { some_left = asked; asked = inl refl })
        | inl nothing ↦
            elim (Result-cases (generated_targets c settings signal.side e stop q strategy)) [
              | inr (f, failed) ↦ cc (rw (nothing, failed, targets_stage) at h)
              | inl (g, generated) ↦
                  let same = rw (nothing, generated, targets_stage) at h in
                  subst (λ (u : List ℤ × List Note). HasTargets c signal e stop u.0)
                    (ok-injective same)
                    (record {
                      some_left = generated_targets_some signal.side e stop q strategy generated;
                      asked = inr (empty_list usable nothing);
                    })
            ]
      ]

  -- What holds of the result for one entry price and one leverage.
  abbrev IsSizedAt : ℤ → ParsedSignal → ℤ → ℤ → ℕ → PositionSizingResult → Type 0
  IsSizedAt risk signal balance e leverage r =
      (r.entry_price ≡ e)
      × (r.leverage ≡ leverage)
      × (pos 1 ≤ℤ r.quantity)
      × (1 ≤ leverage)
      × (r.allocation_pct
          ≡ allocation_pct_for_signal c risk (of_ℕ c leverage) settings.min_allocation_pct
              settings.max_allocation_pct)
      × ((s : ℤ)
          → signal.stop_loss ≡ some s
          → (r.stop_loss ≡ s)
            × (is_direction signal.side ≡ true)
            × (r.quantity ≤ℤ planned_quantity c balance r.allocation_pct leverage e)
            × IsWithin c settings signal.side e s r.quantity balance)
      × HasTargets c signal e r.stop_loss r.take_profits

  stop_stage-IsPreserved :
      (side : TradeSide) (e balance q : ℤ) (strategy : Option TradeStrategy) (stop : Option ℤ)
      {s : StopStage}
      → stop_stage c settings side e balance q strategy stop ≡ ok s
      → pos 1 ≤ℤ e
      → pos 1 ≤ℤ balance
      → pos 1 ≤ℤ s.quantity
      → (x : ℤ) → stop ≡ some x
      → IsPreserved c settings side e balance q x s
  unfolding stop_stage
  stop_stage-IsPreserved side e b q strategy none h he hb hq x same = cc
  stop_stage-IsPreserved side e b q strategy (some y) {s} h he hb hq x same =
      subst (λ (z : ℤ). IsPreserved c settings side e b q z s) (cc same)
        (requested_stop_stage-IsPreserved c settings side e b q y h he hb hq)

  size_at-IsSizedAt :
      (risk : ℤ) (signal : ParsedSignal) (balance : ℤ) (strategy : Option TradeStrategy) (e : ℤ)
      (leverage : ℕ) (notes : List Note) {r : PositionSizingResult}
      → size_at c settings risk signal balance strategy e leverage notes ≡ ok r
      → pos 1 ≤ℤ e
      → pos 1 ≤ℤ balance
      → IsSizedAt risk signal balance e leverage r
  unfolding size_at
  size_at-IsSizedAt risk signal b strategy e leverage notes h he hb =
      let share =
        allocation_pct_for_signal c risk (of_ℕ c leverage) settings.min_allocation_pct
          settings.max_allocation_pct in
      let quantity = planned_quantity c b share leverage e in
      elim (Bool-cases (leb_ℤ quantity zero_d)) [
        | inl nothing ↦ cc (rw (nothing, size_at) at h)
        | inr planned ↦
            elim (Result-cases
              (stop_stage c settings signal.side e b quantity strategy signal.stop_loss)) [
                | inr (f, failed) ↦ cc (rw (planned, failed, size_at) at h)
                | inl (s, stopped) ↦ elim (Bool-cases (leb_ℤ s.quantity zero_d)) [
                  | inl nothing ↦ cc (rw (planned, stopped, nothing, size_at) at h)
                  | inr sized ↦
                      elim (Result-cases
                        (targets_stage c settings signal e s.stop_loss s.quantity strategy)) [
                          | inr (f, failed) ↦
                              cc (rw (planned, stopped, sized, failed, size_at) at h)
                          | inl (t, targeted) ↦ elim (Bool-cases (leverage == 0)) [
                            | inl nothing ↦
                                cc (rw (planned, stopped, sized, targeted, nothing, size_at) at h)
                            | inr levered ↦
                                let same =
                                  rw (planned, stopped, sized, targeted, levered, size_at) at h in
                                subst (IsSizedAt risk signal b e leverage) (ok-injective same) (
                                  refl,
                                  refl,
                                  ground arith,
                                  ground arith,
                                  refl,
                                  (λ x asked.
                                      let k =
                                        stop_stage-IsPreserved signal.side e b quantity strategy
                                          signal.stop_loss stopped he hb (ground arith) x asked in
                                      (k.kept, k.direction, k.smaller, k.within)),
                                  targets_stage-HasTargets signal e s.stop_loss s.quantity strategy
                                      targeted,
                                )
                          ]
                        ]
                ]
              ]
      ]

-- A sizing is for the entry price of the signal and its leverage within the settings' maximum, and has a
-- positive quantity and at least one target, those asked for where one of them is usable. A requested
-- stop is kept, and the quantity, which is then no larger than planned for the share of the balance,
-- loses no more at it than the settings allow.
pub compute_position_sizing-IsSized :
    (c : Context) (settings : Settings) (risk_per_trade_pct : ℤ) (signal : ParsedSignal)
    (current_balance : ℤ) (strategy : Option TradeStrategy) {r : PositionSizingResult}
    → compute_position_sizing c settings risk_per_trade_pct signal current_balance strategy ≡ ok r
    → IsSized c settings risk_per_trade_pct signal current_balance r
unfolding compute_position_sizing
compute_position_sizing-IsSized c settings risk signal b strategy {r} h =
    elim (Bool-cases (leb_ℤ b zero_d)) [
      | inl broke ↦ cc (rw (broke, compute_position_sizing) at h)
      | inr funded ↦ elim (Option-cases (resolve_entry_price c signal)) [
        | inl missing ↦ cc (rw (funded, missing, compute_position_sizing) at h)
        | inr (e, entry) ↦ elim (Bool-cases (leb_ℤ e zero_d)) [
          | inl worthless ↦ cc (rw (funded, entry, worthless, compute_position_sizing) at h)
          | inr priced ↦
              let run = rw (funded, entry, priced, compute_position_sizing) at h in
              let (e', l, q, l', share, stop, targets) =
                size_at-IsSizedAt c settings risk signal b strategy e _ _ run (ground arith)
                  (ground arith) in
              record {
                entry = rw e' entry;
                leverage = l;
                positive = rw (e', l) (ground arith, q, l');
                share = rw l share;
                stop = keeps_stop c settings signal b r signal.stop_loss (rw (e', l) stop);
                targets = rw e' targets;
              }
        ]
      ]
    ]
