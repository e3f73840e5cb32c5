-- ===== src/Ticket/History.antt =====
-- Histories of the ticket service: the operations that a tenant can ask for, each in a transaction
-- of its own that the caller commits, and the changes that they make.
pub mod Change
pub mod Status
pub mod Audit
pub mod WellFormed
pub mod Isolation
mod Examples
use lumen_ai_support_agent.Prelude.{List, Option, String, [], ◌∷◌}
use lumen_ai_support_agent.Ticket.Enums.{TicketPriority, TicketStatus}
use lumen_ai_support_agent.Ticket.Models.{Db}
use lumen_ai_support_agent.Ticket.Repository.{with_session}
use lumen_ai_support_agent.Ticket.Service
use lumen_ai_support_agent.Ticket.Service.{Fresh}
use lumen_ai_support_agent.Ticket.Api.{transition_in_session, wired}

-- The calls of the service, with the arguments that the caller chooses. `move` reads the ticket's
-- status first, as the transition route does.
pub data Operation : Type 0 where
  open_ticket : String → String → Option String → TicketPriority → Operation
  attach : String → String → Operation
  move : String → TicketStatus → String → Option String → Operation
  note : String → String → String → Operation
  remove_note : String → String → String → Operation

pub record Request : Type 0 where
  pub fresh : Fresh
  pub tenant_id : String
  pub operation : Operation

pub dispatch : Operation → Fresh → String → Db → Db
dispatch (open_ticket conversation_id subject category priority) fresh tenant_id db =
    (Service.create wired fresh tenant_id conversation_id subject category priority db).1
dispatch (attach conversation_id subject) fresh tenant_id db =
    (Service.get_or_create_for_conversation wired fresh tenant_id conversation_id subject db).1
dispatch (move ticket_id target actor_type actor_id) fresh tenant_id db =
    (transition_in_session fresh ticket_id target actor_type actor_id tenant_id db).1
dispatch (note ticket_id author_id body) fresh tenant_id db =
    (with_session (Service.add_note fresh ticket_id tenant_id author_id body) db).1
dispatch (remove_note ticket_id note_id author_id) fresh tenant_id db =
    (with_session (Service.delete_note ticket_id note_id tenant_id author_id) db).1

pub perform : Request → Db → Db
unfolding dispatch
perform r db = dispatch r.operation r.fresh r.tenant_id db

pub run : Db → List Request → Db
run db [] = db
run db (r ∷ rs) = run (perform r db) rs
