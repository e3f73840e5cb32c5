-- ===== src/Ticket/Service/Transition.antt =====
-- ticket/service.py: `TicketService.transition`, branch by branch.
use lumen_ai_support_agent.Prelude.{
  List, Option, Option-cases, String, [], arith, if◌then◌else◌, inl, inr, none, some, ◌&&◌, ◌++◌,
  ◌==◌, ◌∷◌, ◌≡◌, ◌⊎◌,
}
use lumen_ai_support_agent.Prelude.Table.{update_first, update_where}
use lumen_ai_support_agent.Prelude.Exec.{err, ok}
use lumen_ai_support_agent.Ticket.Enums.{TicketStatus, cancelled, closed, resolved, status_eq}
use lumen_ai_support_agent.Ticket.StateMachine.{
  TicketError, invalid_transition, sm_transition, ticket_not_found, ◌⟶◌,
}
use lumen_ai_support_agent.Ticket.Lifecycle.{sm_transition-exact}
use lumen_ai_support_agent.Ticket.Models.{Conversation, Db, Ticket, TicketEvent, status_payload}
use lumen_ai_support_agent.Ticket.Repository.{
  append_event, clear_ticket_id, get_by_id, new_event, set_status, update_status,
}
use lumen_ai_support_agent.Ticket.Service.{Fresh, TicketService, load_ticket, stamp_if, transition}

-- The row after the write, and the tables after the whole call.
abbrev pub moved_ticket : Fresh → TicketStatus → Ticket → Ticket
moved_ticket fresh target t =
    set_status target (stamp_if target resolved fresh.now) (stamp_if target closed fresh.now)
      fresh.now t

abbrev pub status_event :
    Fresh → String → TicketStatus → TicketStatus → String → Option String → Ticket → TicketEvent
status_event fresh ticket_id current target actor_type actor_id t =
    new_event fresh.event_id fresh.now ticket_id t.tenant_id actor_type actor_id "status_changed"
      (status_payload current target)

-- The conversation's back-pointer, dropped.
abbrev pub unlinked : Ticket → List Conversation → List Conversation
unlinked t =
    update_where (λ c. c.id == t.conversation_id && c.tenant_id == t.tenant_id)
      (λ c. record c { ticket_id = none })

module _ (svc : TicketService) (fresh : Fresh) (ticket_id : String) (current target : TicketStatus)
    (actor_type : String) (actor_id : Option String) (tenant_id : String) (db : Db) where
  abbrev pub moved_db : Ticket → Db
  moved_db t = record db {
    tickets = update_first (λ r. r.id == t.id) (moved_ticket fresh target) db.tickets;
    ticket_events =
        db.ticket_events ++ status_event fresh ticket_id current target actor_type actor_id t ∷ [];
    conversations =
        if status_eq target cancelled && svc.has_conv_repo
        then unlinked t db.conversations
        else db.conversations;
  }

  -- A call that returns has passed the guard, found the ticket under the tenant, and left the tables
  -- with exactly these writes: the row's status and stamps, one event, and on a cancellation by a
  -- service with the conversation repository the back-pointer cleared.
  pub transition_success :
      {t' : Ticket} {db' : Db}
      → transition svc fresh ticket_id current target actor_type actor_id tenant_id db
        ≡ (ok t', db')
      → (t : Ticket) × (get_by_id ticket_id tenant_id db ≡ some t)
        × (sm_transition current target ≡ ok target)
        × (t' ≡ moved_ticket fresh target t)
        × (db' ≡ moved_db t)
  unfolding transition sm_transition load_ticket update_status clear_ticket_id append_event
  transition_success h = elim (Option-cases (get_by_id ticket_id tenant_id db)) [
    | inl e ↦ ground arith
    | inr (t, e) ↦ (t, e, ground arith, ground arith, ground arith)
  ]

  pub transition_failure :
      {e : TicketError} {db' : Db}
      → transition svc fresh ticket_id current target actor_type actor_id tenant_id db
        ≡ (err e, db')
      → db' ≡ db
  unfolding transition sm_transition load_ticket update_status clear_ticket_id append_event
      get_by_id
  transition_failure h = ground arith

  -- What the call raises is InvalidTransition, off the diagram and whatever the tables hold, or
  -- TicketNotFound, on an edge where the tenant sees no such ticket; either leaves the tables as
  -- they were.
  pub transition_errors :
      {e : TicketError}
      → (transition svc fresh ticket_id current target actor_type actor_id tenant_id db).0 ≡ err e
      → ((transition svc fresh ticket_id current target actor_type actor_id tenant_id db).1 ≡ db)
        × (((e ≡ invalid_transition) × ¬ (current ⟶ target))
            ⊎ ((e ≡ ticket_not_found)
                × (current ⟶ target)
                × (get_by_id ticket_id tenant_id db ≡ none)))
  unfolding transition load_ticket update_status clear_ticket_id append_event get_by_id
  transition_errors {e} h = elim (sm_transition-exact current target) [
    | inr (off, s) ↦ (ground arith, inl (ground arith, off))
    | inl (edge, s) ↦ elim (Option-cases (get_by_id ticket_id tenant_id db)) [
      | inl n ↦ (ground arith, inr (ground arith, edge, ground arith))
      | inr (t, g) ↦ ground arith
    ]
  ]
