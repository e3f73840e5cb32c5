-- ===== src/Ticket/Repository.antt =====
-- ticket/repository.py, and `clear_ticket_id` of conversation/repository.py. A primary key that
-- `new_id` makes, and the time, are arguments.
use lumen_ai_support_agent.Prelude.{
  Bool, List, Option, String, [], false, if◌then◌else◌, is_text, ltb, none, not, some, true, ℕ,
  ◌&&◌, ◌++◌, ◌==◌, ◌||◌, ◌∷◌,
}
use lumen_ai_support_agent.Prelude.Table.{
  delete_where, exists, find, select, update_first, update_where,
}
use lumen_ai_support_agent.Prelude.Exec.{Exec, Result, err, ok}
use lumen_ai_support_agent.Ticket.Enums.{TicketPriority, TicketStatus, new, priority_eq}
use lumen_ai_support_agent.Ticket.StateMachine.{TicketError, integrity_error, permission_error}
use lumen_ai_support_agent.Ticket.Models.{
  Conversation, Db, Payload, SlaPolicy, Ticket, TicketEvent, Transaction,
}

abbrev pub Session : Type 0 → Type 0
Session A = Exec Db TicketError A

-- An action of the repository, inside a session.
abbrev pub on_working : {A : Type 0} → Session A → Exec Transaction TicketError A
on_working m s = let (r, db) = m s.working in (r, record s { working = db })

-- `session.commit()`
abbrev pub commit : Exec Transaction TicketError (Unit {0})
commit s = (ok tt, record s { stored = s.working })

-- `async with sm() as session: ...`: the session starts from what is stored, and closing it drops
-- what was not committed.
abbrev pub with_session :
    {A : Type 0} → Exec Transaction TicketError A → Db → Result TicketError A × Db
with_session m db = let (r, s) = m (record { stored = db; working = db }) in (r, s.stored)

-- The row that `create` adds.
abbrev pub new_ticket :
    String → ℕ → String → String → String → Option String → TicketPriority → Option ℕ → Ticket
new_ticket id now tenant_id conversation_id subject category priority sla_deadline_at = record {
  id = id;
  tenant_id = tenant_id;
  conversation_id = conversation_id;
  subject = subject;
  category = category;
  priority = priority;
  status = new;
  assignee_agent_id = none;
  sla_policy_id = none;
  sla_deadline_at = sla_deadline_at;
  first_response_at = none;
  resolved_at = none;
  closed_at = none;
  created_at = now;
  updated_at = now;
}

-- INSERT is refused when the conversation already has a ticket (UNIQUE on `conversation_id`,
-- whatever the tenant) or does not exist (foreign key).
unfoldable pub create :
    String
    → ℕ
    → String
    → String
    → String
    → Option String
    → TicketPriority
    → Option ℕ
    → Session Ticket
create id now tenant_id conversation_id subject category priority sla_deadline_at db =
    let ticket =
      new_ticket id now tenant_id conversation_id subject category priority sla_deadline_at in
    if exists (λ t. t.conversation_id == conversation_id) db.tickets
      || not (exists (λ c. c.id == conversation_id) db.conversations)
    then (err integrity_error, db)
    else (ok ticket, record db { tickets = db.tickets ++ ticket ∷ [] })

-- A row of another tenant is answered like a missing one.
abbrev pub own : String → Option Ticket → Option Ticket
own tenant_id none = none
own tenant_id (some t) = if not (t.tenant_id == tenant_id) then none else some t

unfoldable pub get_by_id : String → String → Db → Option Ticket
get_by_id ticket_id tenant_id db = own tenant_id (find (λ t. t.id == ticket_id) db.tickets)

unfoldable pub get_for_conversation : String → String → Db → Option Ticket
get_for_conversation conversation_id tenant_id db =
    find (λ t. t.conversation_id == conversation_id && t.tenant_id == tenant_id) db.tickets

-- `if v is not None: column = v`
abbrev pub or_keep : Option ℕ → Option ℕ → Option ℕ
or_keep none old = old
or_keep (some v) old = some v

abbrev pub set_status : TicketStatus → Option ℕ → Option ℕ → ℕ → Ticket → Ticket
set_status status resolved_at closed_at now t = record t {
  status = status;
  resolved_at = or_keep resolved_at t.resolved_at;
  closed_at = or_keep closed_at t.closed_at;
  updated_at = now;
}

unfoldable pub update_status :
    ℕ → Ticket → TicketStatus → String → Option ℕ → Option ℕ → Session Ticket
update_status now ticket status tenant_id resolved_at closed_at db =
    if not (ticket.tenant_id == tenant_id) then (err permission_error, db) else (
      ok (set_status status resolved_at closed_at now ticket),
      record db {
        tickets =
            update_first (λ t. t.id == ticket.id) (set_status status resolved_at closed_at now)
              db.tickets;
      },
    )

-- The row that `append_event` adds.
abbrev pub new_event :
    String → ℕ → String → String → String → Option String → String → Payload → TicketEvent
new_event id now ticket_id tenant_id actor_type actor_id event_type payload = record {
  id = id;
  tenant_id = tenant_id;
  ticket_id = ticket_id;
  actor_type = actor_type;
  actor_id = actor_id;
  event_type = event_type;
  payload = payload;
  created_at = now;
}

unfoldable pub append_event :
    String → ℕ → String → String → String → Option String → String → Payload → Session TicketEvent
append_event id now ticket_id tenant_id actor_type actor_id event_type payload db =
    let event = new_event id now ticket_id tenant_id actor_type actor_id event_type payload in
    (ok event, record db { ticket_events = db.ticket_events ++ event ∷ [] })

unfoldable pub get_event_by_id : String → String → Db → Option TicketEvent
get_event_by_id event_id tenant_id db =
    find (λ e. e.id == event_id && e.tenant_id == tenant_id) db.ticket_events

-- The loaded row, by its primary key.
unfoldable pub delete_event : TicketEvent → Session (Unit {0})
delete_event event db =
    (ok tt, record db { ticket_events = delete_where (λ e. e.id == event.id) db.ticket_events })

-- RESTRICT: a conversation that still points at the ticket refuses the DELETE. The events go with
-- the ticket.
unfoldable pub delete_by_id : String → String → Session Bool
unfolding get_by_id
delete_by_id ticket_id tenant_id db = elim (get_by_id ticket_id tenant_id db) [
  | none ↦ (ok false, db)
  | some t ↦
      if exists (λ c. is_text c.ticket_id ticket_id) db.conversations
      then (err integrity_error, db)
      else (
        ok true,
        record db {
          tickets = delete_where (λ t. t.id == ticket_id) db.tickets;
          ticket_events = delete_where (λ e. e.ticket_id == ticket_id) db.ticket_events;
        },
      )
]

-- ORDER BY created_at DESC LIMIT 1
abbrev pub newest : Option SlaPolicy → List SlaPolicy → Option SlaPolicy
newest best [] = best
newest none (p ∷ ps) = newest (some p) ps
newest (some b) (p ∷ ps) = newest (if ltb b.created_at p.created_at then some p else some b) ps

unfoldable pub find_sla_policy : String → TicketPriority → Db → Option SlaPolicy
find_sla_policy tenant_id priority db =
    newest none
      (select (λ p. p.tenant_id == tenant_id && priority_eq p.priority priority) db.sla_policies)

unfoldable pub clear_ticket_id : String → String → Session Bool
clear_ticket_id conversation_id tenant_id db =
    let its = λ (c : Conversation). c.id == conversation_id && c.tenant_id == tenant_id in
    (
      ok (exists its db.conversations),
      record db {
        conversations = update_where its (λ c. record c { ticket_id = none }) db.conversations;
      },
    )
