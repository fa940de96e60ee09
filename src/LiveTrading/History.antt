-- ===== src/LiveTrading/History.antt =====
-- The message history of a trade: `add_attribution` records each message once.
use triak_trade.Base.{
  ℕ, ◌≡◌, refl, ◌⊎◌, inl, inr, Bool, true, false, ◌&&◌, ◌||◌, ltb, ◌==◌, Bool-cases, Option-cases,
  none, some, List, [], ◌∷◌, ◌++◌, any, length, arith,
}
use triak_trade.Base.Text.{str_eq}
use triak_trade.LiveTrading.Models.{
  MessageAttribution, LiveTrade, merge_into, write_object, add_attribution,
}

abbrev same_object : MessageAttribution → MessageAttribution → Bool
same_object m e = e.object_id == m.object_id

abbrev same_message : MessageAttribution → MessageAttribution → Bool
same_message m e = e.message_id == m.message_id && str_eq e.channel_id m.channel_id

-- The message is in the history, as the same object or, if it has a number, under the same number and
-- channel.
abbrev pub is_known : MessageAttribution → List MessageAttribution → Bool
is_known m h = any (same_object m) h || (ltb 0 m.message_id && any (same_message m) h)

length-write_object :
    (m : MessageAttribution) (h : List MessageAttribution) → length (write_object m h) ≡ length h
unfolding write_object
length-write_object m [] = refl
length-write_object m (e ∷ h) = omega (arith, length-write_object m h)

-- A merge happens exactly when the message is there, and keeps the number of entries.
merge_into_lem :
    (m : MessageAttribution) (h : List MessageAttribution)
    → ((merge_into m h ≡ none) × (any (same_message m) h ≡ false))
      ⊎ ((h' : List MessageAttribution) × (merge_into m h ≡ some h')
          × (length h' ≡ length h)
          × (any (same_message m) h ≡ true))
unfolding merge_into
merge_into_lem m [] = inl (refl, refl)
merge_into_lem m (e ∷ h) = elim (Bool-cases (same_message m e)) [
  | inl found ↦ rw (found, merge_into) (inr (_, refl, refl, refl))
  | inr other ↦ elim (merge_into_lem m h) [
    | inl (n, f) ↦ rw (other, n, f, merge_into) (inl (refl, refl))
    | inr (h', s, l, f) ↦ rw (other, s, f, merge_into) (inr (e ∷ h', refl, omega arith, refl))
  ]
]

-- What a history becomes when a message is added.
pub record IsRecorded (m : MessageAttribution) (h h' : List MessageAttribution) : Type 0 where
  pub outcome :
      ((is_known m h ≡ true) × (length h' ≡ length h))
      ⊎ ((is_known m h ≡ false) × (h' ≡ h ++ m ∷ []))

-- A message that the history knows adds no entry, and any other one is appended at its end; the update
-- time is written in either case.
pub add_attribution-IsRecorded :
    (now : ℕ) (m : MessageAttribution) (trade : LiveTrade)
    → IsRecorded m trade.message_history (add_attribution now m trade).message_history
      × ((add_attribution now m trade).updated_at ≡ now)
unfolding add_attribution
add_attribution-IsRecorded now m trade =
    let h = trade.message_history in
    elim (Bool-cases (any (same_object m) h)) [
      | inl present ↦
          rw (present, add_attribution)
            (record { outcome = inl (rw present refl, length-write_object m h) }, refl)
      | inr absent ↦ elim (Bool-cases (ltb 0 m.message_id)) [
        | inl numbered ↦ elim (merge_into_lem m h) [
          | inl (n, f) ↦
              rw (absent, numbered, n, add_attribution)
                (record { outcome = inr (rw (absent, numbered, f) refl, refl) }, refl)
          | inr (h', s, l, f) ↦
              rw (absent, numbered, s, add_attribution)
                (record { outcome = inl (rw (absent, numbered, f) refl, l) }, refl)
        ]
        | inr unnumbered ↦
            rw (absent, unnumbered, add_attribution)
              (record { outcome = inr (rw (absent, unnumbered) refl, refl) }, refl)
      ]
    ]

-- The other fields stay.
pub add_attribution-stop_loss :
    (now : ℕ) (m : MessageAttribution) (trade : LiveTrade)
    → (add_attribution now m trade).stop_loss ≡ trade.stop_loss
unfolding add_attribution
add_attribution-stop_loss now m trade =
    elim (Bool-cases (any (same_object m) trade.message_history)) [
      | inl known ↦ rw (known, add_attribution) refl
      | inr new ↦ elim (Bool-cases (ltb 0 m.message_id)) [
        | inr unnumbered ↦ rw (new, unnumbered, add_attribution) refl
        | inl numbered ↦ elim (Option-cases (merge_into m trade.message_history)) [
          | inl other ↦ rw (new, numbered, other, add_attribution) refl
          | inr (h, merged) ↦ rw (new, numbered, merged, add_attribution) refl
        ]
      ]
    ]
