-- ===== src/Conversation/Messages.antt =====
-- conversation/service.py: `record_message`, and the ticket that it opens for a customer's message.
use Prim.Native.String as Native
use lumen_ai_support_agent.Prelude.{
  Bool, Option, String, [], false, if◌then◌else◌, none, some, suc, true, zero, ℕ, ◌++◌, ◌==◌, ◌∷◌,
}
use lumen_ai_support_agent.Prelude.Exec.{Exec, err, ok}
use lumen_ai_support_agent.Ticket.Enums.{p2}
use lumen_ai_support_agent.Ticket.Models.{Db}
use lumen_ai_support_agent.Ticket.Repository as TicketRepository
use lumen_ai_support_agent.Ticket.Service as TicketService
use lumen_ai_support_agent.Conversation.{
  ConversationError, Message, MessageRole, Store, customer_role, value_error,
}
use lumen_ai_support_agent.Conversation.Repository.{touch_last_activity}
use lumen_ai_support_agent.Conversation.Service.{get}
use lumen_ai_support_agent.Ticket.Service.{Fresh, TicketService}

-- `text[:n]`.
unfoldable pub first_characters : ℕ → String → String
first_characters zero s = Native.[]
first_characters (suc n) Native.[] = Native.[]
first_characters (suc n) (Native.◌∷◌ c s) = Native.◌∷◌ c (first_characters n s)

-- `(content_text or "Customer inquiry")[:120]`
unfoldable pub subject_of : String → String
subject_of content_text =
    first_characters 120 (if content_text == "" then "Customer inquiry" else content_text)

-- A session that commits on a clean exit and rolls back on an exception, which is swallowed.
unfoldable pub try_auto_create_ticket : TicketService → Fresh → String → String → String → Db → Db
try_auto_create_ticket svc fresh tenant_id conversation_id content_text db =
    elim (TicketRepository.get_for_conversation conversation_id tenant_id db) [
      | some existing ↦ db
      | none ↦
          let (r, db') =
            TicketService.create svc fresh tenant_id conversation_id (subject_of content_text) none
              p2 db in
          elim r [ ok ticket ↦ db' | err e ↦ db ]
    ]

abbrev pub is_customer : MessageRole → Bool
is_customer customer_role = true
is_customer _ = false

-- With a ticket service where the caller wired its factory. `fresh` has the ids and the time that
-- the ticket gets.
unfoldable pub record_message :
    Option TicketService
    → Fresh
    → String
    → String
    → String
    → MessageRole
    → String
    → Option String
    → ℕ
    → Exec Store ConversationError Message
record_message factory fresh new_id tenant_id conversation_id role content_text sender_id now s =
    elim (get tenant_id conversation_id none s) [
      | none ↦ (err value_error, s)
      | some conv ↦
          let msg : Message = record {
            id = new_id;
            conversation_id = conversation_id;
            role = role;
            content_text = content_text;
            sender_id = sender_id;
            created_at = now;
          } in
          let touched =
            touch_last_activity conversation_id now
              (record s { messages = s.messages ++ msg ∷ [] }) in
          elim factory [
            | none ↦ (ok msg, touched)
            | some svc ↦
                if is_customer role
                then (
                  ok msg,
                  record touched {
                    tickets =
                        try_auto_create_ticket svc fresh tenant_id conversation_id content_text
                          touched.tickets;
                  },
                )
                else (ok msg, touched)
          ]
    ]
