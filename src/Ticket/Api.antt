-- ===== src/Ticket/Api.antt =====
-- The routes of ticket/api.py: a request opens a session on the stored tables, and answers with a
-- response and the tables that are stored when it is over.
use lumen_ai_support_agent.Prelude.{Bool, Option, String, false, none, some, true}
use lumen_ai_support_agent.Prelude.Exec.{Result, err, ok, ◌>>=◌}
use lumen_ai_support_agent.Ticket.Enums.{TicketStatus}
use lumen_ai_support_agent.Ticket.StateMachine.{
  TicketError, integrity_error, invalid_transition, permission_error, ticket_not_found,
}
use lumen_ai_support_agent.Ticket.Models.{Db, Ticket, TicketEvent}
use lumen_ai_support_agent.Ticket.Repository
use lumen_ai_support_agent.Ticket.Repository.{on_working, with_session}
use lumen_ai_support_agent.Ticket.Service
use lumen_ai_support_agent.Ticket.Service.{Fresh, TicketService}

-- The status codes of the routes, with the body of a success.
pub data Response (A : Type 0) : Type 0 where
  success : A → Response A
  not_found conflict server_error : Response A

abbrev pub response_of : {A : Type 0} → Result TicketError A → Response A
response_of (ok a) = success a
response_of (err invalid_transition) = conflict
response_of (err ticket_not_found) = not_found
response_of (err permission_error) = server_error
response_of (err integrity_error) = server_error

-- The service that `get_ticket_service` wires.
abbrev pub wired : TicketService
wired = record { has_conv_repo = true; default_minutes = 60 }

unfoldable pub get_ticket : String → String → Db → Response Ticket
get_ticket ticket_id tenant_id db = elim (Repository.get_by_id ticket_id tenant_id db) [
  | none ↦ not_found
  | some t ↦ success t
]

-- The body of `transition_ticket`, in the request's session.
unfoldable pub transition_in_session :
    Fresh → String → TicketStatus → String → Option String → String → Repository.Session Ticket
unfolding Service.load_ticket
transition_in_session fresh ticket_id to_status actor_type actor_id tenant_id = do
  current ← Service.load_ticket ticket_id tenant_id
  Service.transition wired fresh ticket_id current.status to_status actor_type actor_id tenant_id

unfoldable pub transition_ticket :
    Fresh → String → TicketStatus → String → Option String → String → Db → Response Ticket × Db
unfolding transition_in_session
transition_ticket fresh ticket_id to_status actor_type actor_id tenant_id db =
    let (r, db') =
      with_session
        (on_working (transition_in_session fresh ticket_id to_status actor_type actor_id tenant_id))
        db in
    (response_of r, db')

unfoldable pub create_ticket_note :
    Fresh → String → String → String → String → Db → Response TicketEvent × Db
create_ticket_note fresh ticket_id tenant_id author_id body db =
    let (r, db') = with_session (Service.add_note fresh ticket_id tenant_id author_id body) db in
    (response_of r, db')

abbrev deleted_or_missing : Response Bool → Response (Unit {0})
deleted_or_missing (success true) = success tt
deleted_or_missing (success false) = not_found
deleted_or_missing not_found = not_found
deleted_or_missing conflict = conflict
deleted_or_missing server_error = server_error

unfoldable pub delete_ticket_note :
    String → String → String → String → Db → Response (Unit {0}) × Db
delete_ticket_note ticket_id note_id tenant_id author_id db =
    let (r, db') = with_session (Service.delete_note ticket_id note_id tenant_id author_id) db in
    (deleted_or_missing (response_of r), db')
