-- ===== src/Ticket/Service.antt =====
-- ticket/service.py. The ids that `new_id` makes and the time are arguments; whether a
-- `conv_repo` was injected is a field.
pub mod Transition
pub mod Moved
use lumen_ai_support_agent.Prelude.{
  Bool, Option, String, arith, eq_iff, false, if◌then◌else◌, is_text, none, not, some, true, ℕ,
  ◌&&◌, ◌*◌, ◌+◌, ◌==◌, ◌≡◌,
}
use lumen_ai_support_agent.Prelude.Exec.{Exec, err, gets, lift, ok, pure, ◌>>=◌, ◌>>◌}
use lumen_ai_support_agent.Ticket.Enums.{
  TicketPriority, TicketStatus, cancelled, closed, p2, resolved, status_eq,
}
use lumen_ai_support_agent.Ticket.StateMachine.{TicketError, sm_transition, ticket_not_found}
use lumen_ai_support_agent.Ticket.Models.{
  Db, SlaPolicy, Ticket, TicketEvent, Transaction, created_payload, note_payload, status_payload,
}
use lumen_ai_support_agent.Ticket.Repository
use lumen_ai_support_agent.Ticket.Repository.{Session, commit, on_working}

pub record TicketService : Type 0 where
  pub has_conv_repo : Bool
  pub default_minutes : ℕ

-- What a call takes from the outside: the ids of a new ticket and of a new event, and the clock.
pub record Fresh : Type 0 where
  pub ticket_id : String
  pub event_id : String
  pub now : ℕ

abbrev sla_minutes_of : ℕ → Option SlaPolicy → ℕ
sla_minutes_of default_minutes none = default_minutes
sla_minutes_of default_minutes (some sla) = sla.first_response_minutes

unfoldable pub sla_minutes : TicketService → String → TicketPriority → Db → ℕ
sla_minutes svc tenant_id priority db =
    sla_minutes_of svc.default_minutes (Repository.find_sla_policy tenant_id priority db)

unfoldable pub create :
    TicketService
    → Fresh
    → String
    → String
    → String
    → Option String
    → TicketPriority
    → Session Ticket
unfolding sla_minutes
create svc fresh tenant_id conversation_id subject category priority = do
  minutes ← gets (sla_minutes svc tenant_id priority)
  ticket ←
      Repository.create fresh.ticket_id fresh.now tenant_id conversation_id subject category
        priority (some (fresh.now + minutes * 60))
  Repository.append_event fresh.event_id fresh.now ticket.id tenant_id "system" none "created"
      (created_payload priority minutes)
  pure ticket

-- `repo.get_by_id`, and TicketNotFound when it answers None
unfoldable pub load_ticket : String → String → Session Ticket
load_ticket ticket_id tenant_id db = elim (Repository.get_by_id ticket_id tenant_id db) [
  | none ↦ (err ticket_not_found, db)
  | some t ↦ (ok t, db)
]

-- `now if target == status else None`
abbrev pub stamp_if : TicketStatus → TicketStatus → ℕ → Option ℕ
stamp_if target status now = if status_eq target status then some now else none

unfoldable pub clear_back_pointer : TicketService → TicketStatus → Ticket → Session (Unit {0})
clear_back_pointer svc target ticket =
    if status_eq target cancelled && svc.has_conv_repo
    then (Repository.clear_ticket_id ticket.conversation_id ticket.tenant_id >> pure tt)
    else pure tt

unfoldable pub transition :
    TicketService
    → Fresh
    → String
    → TicketStatus
    → TicketStatus
    → String
    → Option String
    → String
    → Session Ticket
unfolding load_ticket clear_back_pointer
transition svc fresh ticket_id current target actor_type actor_id tenant_id = do
  lift (sm_transition current target)
  ticket ← load_ticket ticket_id tenant_id
  ticket' ←
      Repository.update_status fresh.now ticket target tenant_id
        (stamp_if target resolved fresh.now) (stamp_if target closed fresh.now)
  clear_back_pointer svc target ticket
  Repository.append_event fresh.event_id fresh.now ticket_id ticket.tenant_id actor_type actor_id
      "status_changed" (status_payload current target)
  pure ticket'

unfoldable pub get_or_create_for_conversation :
    TicketService → Fresh → String → String → String → Session Ticket
unfolding create
get_or_create_for_conversation svc fresh tenant_id conversation_id subject db =
    elim (Repository.get_for_conversation conversation_id tenant_id db) [
      | some existing ↦ (ok existing, db)
      | none ↦ create svc fresh tenant_id conversation_id subject none p2 db
    ]

-- `add_note` up to its commit
unfoldable pub write_note : Fresh → String → String → String → String → Session TicketEvent
unfolding load_ticket
write_note fresh ticket_id tenant_id author_id body = do
  load_ticket ticket_id tenant_id >> pure tt
  Repository.append_event fresh.event_id fresh.now ticket_id tenant_id "agent" (some author_id)
      "note" (note_payload body)

unfoldable pub add_note :
    Fresh → String → String → String → String → Exec Transaction TicketError TicketEvent
unfolding write_note
add_note fresh ticket_id tenant_id author_id body = do
  event ← on_working (write_note fresh ticket_id tenant_id author_id body)
  commit
  pure event

-- The event, if `delete_note` goes on to delete it.
unfoldable pub removable_note : String → String → String → String → Db → Option TicketEvent
removable_note ticket_id note_id tenant_id author_id db =
    elim (Repository.get_event_by_id note_id tenant_id db) [
      | none ↦ none
      | some event ↦
          if not (event.ticket_id == ticket_id)
          then none
          else if not (event.event_type == "note")
          then none
          else if not (is_text event.actor_id author_id)
          then none
          else some event
    ]

pub removable_note_lem :
    (ticket_id note_id tenant_id author_id : String) (db : Db) {e : TicketEvent}
    → removable_note ticket_id note_id tenant_id author_id db ≡ some e
    → (Repository.get_event_by_id note_id tenant_id db ≡ some e) × (e.event_type ≡ "note")
unfolding removable_note
removable_note_lem ticket_id note_id tenant_id author_id db {e} h =
    (ground arith, ground (arith, eq_iff e.event_type "note"))

unfoldable pub delete_note : String → String → String → String → Exec Transaction TicketError Bool
delete_note ticket_id note_id tenant_id author_id s =
    elim (removable_note ticket_id note_id tenant_id author_id s.working) [
      | none ↦ (ok false, s)
      | some event ↦ (on_working (Repository.delete_event event) >> commit >> pure true) s
    ]
