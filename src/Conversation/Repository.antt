-- ===== src/Conversation/Repository.antt =====
-- conversation/repository.py, with the partial unique index and the primary key of `conversations`.
use lumen_ai_support_agent.Prelude.{
  Bool, List, Option, String, [], if◌then◌else◌, ltb, none, not, some, ℕ, ◌&&◌, ◌++◌, ◌==◌, ◌||◌,
  ◌∷◌,
}
use lumen_ai_support_agent.Prelude.Exec.{Exec, err, ok}
use lumen_ai_support_agent.Prelude.Table.{exists, find, select, update_first}
use lumen_ai_support_agent.Assignment.{ConversationStatus, closed_status}
use lumen_ai_support_agent.Ticket.Models.{Db}
use lumen_ai_support_agent.Conversation.{
  ConversationError, ConversationRow, Store, integrity_error, status_eq,
}

abbrev pub has_id : String → ConversationRow → Bool
has_id conversation_id r = r.id == conversation_id

-- A row that is not closed, of the channel and the customer.
abbrev pub is_open_for : String → String → ConversationRow → Bool
is_open_for channel_id customer_external_id r =
    r.channel_id == channel_id
    && r.customer_external_id == customer_external_id
    && not (status_eq r.status closed_status)

-- The index uq_conversations_channel_customer_open refuses the row beside the others.
unfoldable pub refused : ConversationRow → List ConversationRow → Bool
refused row rows =
    not (status_eq row.status closed_status)
    && exists (λ r. not (r.id == row.id) && is_open_for row.channel_id row.customer_external_id r)
        rows

unfoldable pub create : ConversationRow → Exec Store ConversationError ConversationRow
create row s =
    if exists (has_id row.id) s.rows || refused row s.rows
    then (err integrity_error, s)
    else let tickets : Db = record s.tickets {
      conversations =
          s.tickets.conversations
          ++ (record { id = row.id; tenant_id = row.tenant_id; ticket_id = none }) ∷ [];
    } in
      (ok row, record s { rows = s.rows ++ row ∷ []; tickets = tickets })

unfoldable pub get_by_id : String → Store → Option ConversationRow
get_by_id conversation_id s = find (has_id conversation_id) s.rows

-- The later of two rows by activity; the first of equals.
unfoldable pub newest : Option ConversationRow → List ConversationRow → Option ConversationRow
newest best [] = best
newest none (r ∷ rs) = newest (some r) rs
newest (some b) (r ∷ rs) =
    newest (some (if ltb b.last_activity_at r.last_activity_at then r else b)) rs

unfoldable pub find_open_by_channel_customer : String → String → Store → Option ConversationRow
find_open_by_channel_customer channel_id customer_external_id s =
    newest none (select (is_open_for channel_id customer_external_id) s.rows)

-- A write to the row with the id.
unfoldable pub write_row : String → (ConversationRow → ConversationRow) → Store → Store
write_row conversation_id f s = record s { rows = update_first (has_id conversation_id) f s.rows }

-- The columns that `update` writes.
unfoldable pub set_state :
    ConversationStatus → Option String → Bool → ℕ → ConversationRow → ConversationRow
set_state status agent_id ai_handling at r = record r {
  status = status;
  assigned_agent_id = agent_id;
  ai_handling = ai_handling;
  last_activity_at = at;
}

unfoldable pub update : ConversationRow → Exec Store ConversationError (Option ConversationRow)
update conversation s = elim (find (has_id conversation.id) s.rows) [
  | none ↦ (ok none, s)
  | some existing ↦
      let set =
        set_state conversation.status conversation.assigned_agent_id conversation.ai_handling
          conversation.last_activity_at in
      if refused (set existing) s.rows
      then (err integrity_error, s)
      else (ok (some (set existing)), write_row conversation.id set s)
]

unfoldable pub touch_last_activity : String → ℕ → Store → Store
touch_last_activity conversation_id at =
    write_row conversation_id (λ r. record r { last_activity_at = at })

unfoldable pub get_by_id_for_update : String → String → Store → Option ConversationRow
get_by_id_for_update tenant_id conversation_id s =
    find (λ r. r.id == conversation_id && r.tenant_id == tenant_id) s.rows
