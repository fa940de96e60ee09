-- ===== src/LiveTrading/Models.antt =====
-- The trade model (src/triak_trade/live_trading/models.py): the fields of `LiveTrade` that the
-- modelled code reads or writes. Prices and quantities are decimals, times are microseconds, and
-- texts are code points. `object_id` is the identity of a message object, which `is` compares.
use triak_trade.Base.{
  ℕ, Bool, if◌then◌else◌, ltb, ◌==◌, ◌&&◌, Option, none, some, List, [], ◌∷◌, ◌++◌, any,
}
use triak_trade.Base.Int.{ℤ, pos, eqb_ℤ}
use triak_trade.Base.Text.{Str, codes, str_eq, str_in}

pub record MessageAttribution : Type 0 where
  pub object_id : ℕ
  pub message_id : ℕ
  pub channel_id : Str
  pub channel_label : Str
  pub message_preview : Str
  pub message_date : ℕ
  pub action : Str
  pub notes : List Str

pub record LiveTakeProfitOrderPlan : Type 0 where
  pub target_index : ℕ
  pub price : ℤ
  pub quantity : ℤ
  pub order_id : Option Str

pub record LiveEntryOrderPlan : Type 0 where
  pub leg_index : ℕ
  pub quantity : ℤ
  pub order_id : Option Str
  pub status : Str
  pub executed_quantity : ℤ

pub record LiveTrade : Type 0 where
  pub trade_id : Str
  pub session_id : Str
  pub signal_id : Str
  pub channel_id : Str
  pub channel_input : Str
  pub channel_label : Str
  pub symbol : Str
  pub side : Str
  pub leverage : ℕ
  pub entry_price : ℤ
  pub entry_type : Str
  pub requested_entry_low : Option ℤ
  pub requested_entry_high : Option ℤ
  pub requested_stop_loss : Option ℤ
  pub requested_take_profits : List ℤ
  pub quantity : ℤ
  pub stop_loss : Option ℤ
  pub take_profits : List ℤ
  pub status : Str
  pub entry_order_id : Option Str
  pub entry_order_plan : List LiveEntryOrderPlan
  pub entry_filled_quantity : ℤ
  pub sl_order_id : Option Str
  pub tp_order_ids : List Str
  pub tp_order_plan : List LiveTakeProfitOrderPlan
  pub processed_exchange_fill_ids : List Str
  pub message_history : List MessageAttribution
  pub realized_pnl : ℤ
  pub fees : ℤ
  pub exit_price : Option ℤ
  pub close_reason : Option Str
  pub targets_hit : ℕ
  pub remaining_quantity : ℤ
  pub balance_at_entry : ℤ
  pub opened_at : ℕ
  pub closed_at : Option ℕ
  pub updated_at : ℕ
  pub mark_price : Option ℤ
  pub unrealized_pnl : ℤ
  pub margin : ℤ

abbrev pub waiting_entry : Str
waiting_entry = codes "waiting_entry"

abbrev pub open_status : Str
open_status = codes "open"

abbrev pub partial_close : Str
partial_close = codes "partial_close"

abbrev pub closed : Str
closed = codes "closed"

-- `status in {"waiting_entry", "open", "partial_close"}`
unfoldable pub is_active : Str → Bool
unfolding str_in
is_active status = str_in status (waiting_entry ∷ open_status ∷ partial_close ∷ [])

-- The property `is_open`.
unfoldable pub is_open : LiveTrade → Bool
unfolding is_active
is_open trade = is_active trade.status

-- `model_post_init`
unfoldable pub model_post_init : LiveTrade → LiveTrade
unfolding is_active
model_post_init trade =
    if eqb_ℤ trade.remaining_quantity (pos 0) && is_active trade.status
    then record trade { remaining_quantity = trade.quantity }
    else trade

-- The notes of a second report of one message are appended once each.
unfoldable pub merge_notes : List Str → List Str → List Str
unfolding str_in
merge_notes known [] = known
merge_notes known (n ∷ notes) =
    merge_notes (if str_in n known then known else known ++ n ∷ []) notes

-- The first entry of the same message and channel takes the new action and notes.
unfoldable pub merge_into :
    MessageAttribution → List MessageAttribution → Option (List MessageAttribution)
unfolding merge_notes
merge_into m [] = none
merge_into m (e ∷ history) =
    let rest = merge_into m history in
    if e.message_id == m.message_id && str_eq e.channel_id m.channel_id
    then some (record e { action = m.action; notes = merge_notes e.notes m.notes } ∷ history)
    else elim rest [ none ↦ none | some h ↦ some (e ∷ h) ]

-- The entry that is the same object shows what was written to the object.
unfoldable pub write_object : MessageAttribution → List MessageAttribution → List MessageAttribution
write_object m [] = []
write_object m (e ∷ history) =
    (if e.object_id == m.object_id then m else e) ∷ write_object m history

unfoldable pub add_attribution : ℕ → MessageAttribution → LiveTrade → LiveTrade
unfolding merge_into write_object
add_attribution now m trade =
    if any (λ e. e.object_id == m.object_id) trade.message_history
    then record trade { message_history = write_object m trade.message_history; updated_at = now }
    else if ltb 0 m.message_id
    then elim (merge_into m trade.message_history) [
      | some h ↦ record trade { message_history = h; updated_at = now }
      | none ↦ record trade { message_history = trade.message_history ++ m ∷ []; updated_at = now }
    ]
    else record trade { message_history = trade.message_history ++ m ∷ []; updated_at = now }
