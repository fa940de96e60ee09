-- ===== src/Domain/Accepted.antt =====
-- What the validators of the domain records accept.
use triak_trade.Base.{
  ℕ, ◌≤◌, ◌<◌, ◌≡◌, ◌≢◌, ◌↔◌, true, false, List, [], ◌∷◌, length, ok, All, All-map, Bool-cases, inl,
  inr, arith,
}
use triak_trade.Base.Int.{pos, ◌≤ℤ◌}
use triak_trade.Domain.Records.{
  Candle, validate_candle, SignalState, contains, distinct_values, validate_state,
}

-- A candle whose prices lie between its low and its high.
pub record IsCandle (k : Candle) : Type 0 where
  pub times : k.open_time < k.close_time
  pub opened : (k.low ≤ℤ k.open_price) × (k.open_price ≤ℤ k.high)
  pub closed : (k.low ≤ℤ k.close_price) × (k.close_price ≤ℤ k.high)
  pub ordered : k.low ≤ℤ k.high
  pub traded : pos 0 ≤ℤ k.volume

candle_accepted : (k : Candle) → validate_candle k ≡ ok k → IsCandle k
unfolding validate_candle
candle_accepted k e = record {
  times = ground arith;
  opened = (ground arith, ground arith);
  closed = (ground arith, ground arith);
  ordered = ground arith;
  traded = ground arith;
}

-- A candle is accepted exactly when it closes after it opens, its prices lie between its low and its
-- high, and its volume is not negative.
pub validate_candle_lem : (k : Candle) → (validate_candle k ≡ ok k) ↔ IsCandle k
unfolding validate_candle
validate_candle_lem k =
    (candle_accepted k, λ r. ground (arith, r.times, r.opened, r.closed, r.ordered, r.traded))

-- No value occurs twice.
abbrev pub Distinct : List ℕ → Type 0
Distinct [] = Unit
Distinct (x ∷ xs) = All (λ y. y ≢ x) xs × Distinct xs

distinct_values-length : (seen xs : List ℕ) → length (distinct_values seen xs) ≤ length xs
unfolding distinct_values
distinct_values-length seen [] = omega arith
distinct_values-length seen (x ∷ xs) =
    ground (arith, distinct_values-length seen xs, distinct_values-length (x ∷ seen) xs)

apart : (x y : ℕ) (seen : List ℕ) → contains y (x ∷ seen) ≡ false → y ≢ x
unfolding contains
apart x y seen h e = ground arith

apart_rest : (x y : ℕ) (seen : List ℕ) → contains y (x ∷ seen) ≡ false → contains y seen ≡ false
unfolding contains
apart_rest x y seen h = ground arith

distinct_values-Distinct :
    (seen xs : List ℕ)
    → length (distinct_values seen xs) ≡ length xs
    → Distinct xs × All (λ y. contains y seen ≡ false) xs
unfolding distinct_values
distinct_values-Distinct seen [] e = (tt, tt)
distinct_values-Distinct seen (x ∷ xs) e = elim (Bool-cases (contains x seen)) [
  | inl known ↦
      let shorter = distinct_values-length seen xs in
      let same = rw (known, distinct_values) at e in absurd (omega arith)
  | inr fresh ↦
      let same = rw (fresh, distinct_values) at e in
      let (d, f) = distinct_values-Distinct (x ∷ seen) xs (omega arith) in
      ((All-map (λ y. apart x y seen) xs f, d), (fresh, All-map (λ y. apart_rest x y seen) xs f))
]

-- A signal state that is accepted relates to each message at most once, and to the message that
-- created it, has a positive version and was not updated before it was created.
pub record IsState (s : SignalState) : Type 0 where
  pub distinct : Distinct s.related_message_ids
  pub origin : contains s.created_from_message_id s.related_message_ids ≡ true
  pub versioned : 0 < s.version
  pub updated : s.created_at ≤ s.updated_at

-- An accepted signal state has distinct related messages, its origin among them, a positive version,
-- and an update time that is not before its creation.
pub validate_state-IsState : (s : SignalState) → validate_state s ≡ ok s → IsState s
unfolding validate_state
validate_state-IsState s e = record {
  distinct = (distinct_values-Distinct [] s.related_message_ids (ground arith)).0;
  origin = ground arith;
  versioned = ground arith;
  updated = ground arith;
}
