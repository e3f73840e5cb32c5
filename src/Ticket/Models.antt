-- ===== src/Ticket/Models.antt =====
-- ticket/models.py and conversation/models.py: the rows, and the tables that a session sees.
-- Times are seconds. Foreign keys to `tenants` and `users` are not modelled.
use lumen_ai_support_agent.Prelude.{Bool, List, Option, String, ℕ}
use lumen_ai_support_agent.Ticket.Enums.{TicketPriority, TicketStatus}

pub record Ticket : Type 0 where
  pub id : String
  pub tenant_id : String
  pub conversation_id : String
  pub subject : String
  pub category : Option String
  pub priority : TicketPriority
  pub status : TicketStatus
  pub assignee_agent_id : Option String
  pub sla_policy_id : Option String
  pub sla_deadline_at : Option ℕ
  pub first_response_at : Option ℕ
  pub resolved_at : Option ℕ
  pub closed_at : Option ℕ
  pub created_at : ℕ
  pub updated_at : ℕ

-- The JSON payloads that the service writes.
pub data Payload : Type 0 where
  created_payload : TicketPriority → ℕ → Payload
  status_payload : TicketStatus → TicketStatus → Payload
  note_payload : String → Payload

pub record TicketEvent : Type 0 where
  pub id : String
  pub tenant_id : String
  pub ticket_id : String
  pub actor_type : String
  pub actor_id : Option String
  pub event_type : String
  pub payload : Payload
  pub created_at : ℕ

pub record SlaPolicy : Type 0 where
  pub id : String
  pub tenant_id : String
  pub name : String
  pub priority : TicketPriority
  pub first_response_minutes : ℕ
  pub resolution_minutes : ℕ
  pub business_hours_only : Bool
  pub created_at : ℕ

-- The columns of `conversations` that the ticket domain reads or writes.
pub record Conversation : Type 0 where
  pub id : String
  pub tenant_id : String
  pub ticket_id : Option String

pub record Db : Type 0 where
  pub tickets : List Ticket
  pub ticket_events : List TicketEvent
  pub sla_policies : List SlaPolicy
  pub conversations : List Conversation

-- A session of `async with sm() as session`: what the database holds, and what the session has
-- written so far.
pub record Transaction : Type 0 where
  pub stored : Db
  pub working : Db
