-- ===== src/Conversation/Tickets.antt =====
-- The message that is recorded, and the ticket that a customer's message opens.
use lumen_ai_support_agent.Prelude.Table.Keys.{find-update_key}
use lumen_ai_support_agent.Conversation.Effects.{get_sound}
use lumen_ai_support_agent.Conversation.Service.{get}
use lumen_ai_support_agent.Prelude.Exec.{Result, ok}
use lumen_ai_support_agent.Conversation.Repository.{has_id, touch_last_activity, write_row}
use lumen_ai_support_agent.Conversation.{
  ConversationError, ConversationRow, Message, MessageRole, Store,
}
use lumen_ai_support_agent.Prelude.{
  Bool-cases, Option, Option-cases, String, [], arith, eq_iff, eq_refl, false, inl, inr, none,
  none≢some, not, refl, some, sym, true, ℕ, ◌&&◌, ◌*◌, ◌++◌, ◌+◌, ◌==◌, ◌||◌, ◌∷◌, ◌≡◌, ◌⊎◌,
}
use lumen_ai_support_agent.Prelude.Table.{exists, find, update_first}
use lumen_ai_support_agent.Prelude.Table.Rows.{find-exists_within}
use lumen_ai_support_agent.Conversation.Messages.{
  is_customer, record_message, subject_of, try_auto_create_ticket,
}
use lumen_ai_support_agent.Ticket.Enums.{new, p2}
use lumen_ai_support_agent.Ticket.Models.{Conversation, Db, Ticket, TicketEvent, created_payload}
use lumen_ai_support_agent.Ticket.Service.{Fresh, TicketService}
use lumen_ai_support_agent.Ticket.Repository as TicketRepository
use lumen_ai_support_agent.Ticket.Service as TicketService

-- The ticket that a message opens.
pub record IsAutoTicket (fresh : Fresh) (tenant_id conversation_id content_text : String)
    (t : Ticket) : Type 0 where
  pub id : t.id ≡ fresh.ticket_id
  pub tenant : t.tenant_id ≡ tenant_id
  pub conversation : t.conversation_id ≡ conversation_id
  pub subject : t.subject ≡ subject_of content_text
  pub priority : t.priority ≡ p2
  pub status : t.status ≡ new

-- The ticket tables before and after a customer's message.
pub data IsTicketed (fresh : Fresh) (tenant_id conversation_id content_text : String) (db db' : Db)
    : Type 0 where
  kept :
      db' ≡ db
      → (exists (λ t. t.conversation_id == conversation_id) db.tickets ≡ true)
        ⊎ (exists (λ c. c.id == conversation_id) db.conversations ≡ false)
      → IsTicketed fresh tenant_id conversation_id content_text db db'
  added :
      (t : Ticket) (e : TicketEvent) (minutes : ℕ)
      → exists (λ r. r.conversation_id == conversation_id) db.tickets ≡ false
      → exists (λ c. c.id == conversation_id) db.conversations ≡ true
      → IsAutoTicket fresh tenant_id conversation_id content_text t
      → (e.id ≡ fresh.event_id) × (e.ticket_id ≡ t.id) × (e.event_type ≡ "created")
      → e.payload ≡ created_payload p2 minutes
      → t.sla_deadline_at ≡ some (fresh.now + minutes * 60)
      → db'
        ≡ record db { tickets = db.tickets ++ t ∷ []; ticket_events = db.ticket_events ++ e ∷ [] }
      → IsTicketed fresh tenant_id conversation_id content_text db db'

try_auto_create_ticket-IsTicketed :
    (svc : TicketService) (fresh : Fresh) (tenant_id conversation_id content_text : String)
    (db : Db)
    → IsTicketed fresh tenant_id conversation_id content_text db
        (try_auto_create_ticket svc fresh tenant_id conversation_id content_text db)
unfolding try_auto_create_ticket TicketService.create TicketRepository.create
    TicketRepository.append_event TicketRepository.get_for_conversation
try_auto_create_ticket-IsTicketed svc fresh tenant_id conversation_id content_text db =
    let own = TicketRepository.get_for_conversation conversation_id tenant_id db in
    let minutes = TicketService.sla_minutes svc tenant_id p2 db in
    elim (Option-cases own) [
      | inr (t, e) ↦
          rw (e, try_auto_create_ticket)
            (IsTicketed.kept refl (
              inl (
                find-exists_within (λ (r : Ticket). r.conversation_id == conversation_id)
                  (λ (r : Ticket). r.conversation_id == conversation_id && r.tenant_id == tenant_id)
                  (λ x y. ground (arith, y)) db.tickets e)))
      | inl n ↦
          elim (Bool-cases (
            exists (λ t. t.conversation_id == conversation_id) db.tickets
            || not (exists (λ c. c.id == conversation_id) db.conversations))) [
              | inl y ↦
                  let why : (exists (λ (t : Ticket). t.conversation_id == conversation_id)
                          db.tickets
                        ≡ true)
                      ⊎ (exists (λ (c : Conversation). c.id == conversation_id) db.conversations
                          ≡ false) =
                    elim (Bool-cases
                      (exists (λ (t : Ticket). t.conversation_id == conversation_id) db.tickets)) [
                        | inl z ↦ inl z
                        | inr z ↦ inr (ground (arith, y, z))
                      ] in
                  rw (n, try_auto_create_ticket, y) (IsTicketed.kept refl why)
              | inr m ↦
                  let free : exists (λ (t : Ticket). t.conversation_id == conversation_id)
                        db.tickets
                      ≡ false =
                    ground (arith, m) in
                  let there : exists (λ (c : Conversation). c.id == conversation_id)
                        db.conversations
                      ≡ true =
                    ground (arith, m) in
                  rw (n, try_auto_create_ticket, m, m)
                    (IsTicketed.added
                      (TicketRepository.new_ticket fresh.ticket_id fresh.now tenant_id
                        conversation_id (subject_of content_text) none p2
                        (some (fresh.now + minutes * 60)))
                      (TicketRepository.new_event fresh.event_id fresh.now fresh.ticket_id tenant_id
                        "system" none "created" (created_payload p2 minutes))
                      minutes free there
                      (record {
                        id = refl;
                        tenant = refl;
                        conversation = refl;
                        subject = refl;
                        priority = refl;
                        status = refl;
                      })
                      (refl, refl, refl) refl refl refl)
            ]
    ]

-- The call for a stored conversation of the tenant: what is answered, and the tables.
pub record IsRecorded (factory : Option TicketService) (fresh : Fresh)
    (tenant_id conversation_id : String) (role : MessageRole) (content_text : String) (now : ℕ)
    (s : Store) (conv : ConversationRow) (msg : Message)
    (r : Result ConversationError Message × Store) : Type 0 where
  pub answered : r.0 ≡ ok msg
  pub messages : r.1.messages ≡ s.messages ++ msg ∷ []
  pub touched :
      find (has_id conversation_id) r.1.rows ≡ some (record conv { last_activity_at = now })
  pub others :
      (k : String)
      → (k == conversation_id) ≡ false
      → find (has_id k) r.1.rows ≡ find (has_id k) s.rows
  pub ticketless : (factory ≡ none) ⊎ (is_customer role ≡ false) → r.1.tickets ≡ s.tickets
  pub ticketed :
      (svc : TicketService)
      → factory ≡ some svc
      → is_customer role ≡ true
      → IsTicketed fresh tenant_id conversation_id content_text s.tickets r.1.tickets

-- A message for a conversation of the tenant is answered and appended, with the id, conversation,
-- role, text, sender and time of the call, whatever becomes of its ticket; of the conversations only
-- that one's time of activity changes. From a customer, with a ticket service wired, it adds a new
-- ticket of the tenant for the conversation, and its event, where the conversation has no ticket of
-- any tenant and the ticket tables know it, and leaves these tables as they were where not. From
-- others, or without the service, it leaves them as they were.
pub record_message_kept :
    (factory : Option TicketService) (fresh : Fresh) (new_id tenant_id conversation_id : String)
    (role : MessageRole) (content_text : String) (sender_id : Option String) (now : ℕ) (s : Store)
    (conv : ConversationRow)
    → get tenant_id conversation_id none s ≡ some conv
    → IsRecorded factory fresh tenant_id conversation_id role content_text now s conv
        (record {
          id = new_id;
          conversation_id = conversation_id;
          role = role;
          content_text = content_text;
          sender_id = sender_id;
          created_at = now;
        })
        (record_message factory fresh new_id tenant_id conversation_id role content_text sender_id
          now s)
unfolding record_message touch_last_activity write_row
record_message_kept factory fresh new_id tenant_id conversation_id role content_text sender_id now s
      conv e =
    let (found, _, _) = get_sound tenant_id conversation_id s conv e in
    let write =
      find-update_key (λ (r : ConversationRow). r.id) (λ r. record r { last_activity_at = now })
        (λ x. refl) in
    let touched = write conversation_id conversation_id s.rows in
    let hit : find (has_id conversation_id)
          (update_first (has_id conversation_id) (λ r. record r { last_activity_at = now }) s.rows)
        ≡ some (record conv { last_activity_at = now }) =
      ground (arith, touched, found, eq_refl conversation_id) in
    let miss : (k : String)
        → (k == conversation_id) ≡ false
        → find (has_id k) (
            update_first (has_id conversation_id) (λ r. record r { last_activity_at = now }) s.rows)
          ≡ find (has_id k) s.rows =
      λ k n. ground (
        arith,
        write k conversation_id s.rows,
        eq_iff k conversation_id,
        eq_iff conversation_id k,
        n,
      ) in
    elim (Option-cases factory) [
      | inl f ↦
          rw (e, record_message, f)
            (record {
              answered = refl;
              messages = refl;
              touched = hit;
              others = miss;
              ticketless = λ w. refl;
              ticketed = λ svc g y. absurd (none≢some g);
            })
      | inr (svc, f) ↦ elim (Bool-cases (is_customer role)) [
        | inl y ↦
            rw (e, record_message, f, y)
              (record {
                answered = refl;
                messages = refl;
                touched = hit;
                others = miss;
                ticketless =
                    λ w. absurd (elim w [ inl g ↦ none≢some (sym g) | inr n ↦ ground (arith, n) ]);
                ticketed = λ svc' g z.
                    try_auto_create_ticket-IsTicketed svc fresh tenant_id conversation_id
                      content_text s.tickets;
              })
        | inr n ↦
            rw (e, record_message, f, n)
              (record {
                answered = refl;
                messages = refl;
                touched = hit;
                others = miss;
                ticketless = λ w. refl;
                ticketed = λ svc' g z. absurd (ground (arith, z));
              })
      ]
    ]
