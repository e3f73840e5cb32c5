-- ===== src/Conversation.antt =====
-- Conversations (apps/api/src/conversation): rows, the repository's queries, and the service that
-- hands a conversation between the AI and the agents.
pub mod Repository
pub mod Service
pub mod Messages
pub mod Requests
pub mod Effects
pub mod Steps
pub mod Calls
pub mod Flags
pub mod Claims
pub mod Isolation
pub mod Inbound
pub mod Tickets
mod Examples
use lumen_ai_support_agent.Prelude.{Bool, List, Option, String, false, true, ℕ}
use lumen_ai_support_agent.Assignment.{
  ConversationStatus, closed_status, open_status, pending_status,
}
use lumen_ai_support_agent.Ticket.Models.{Db}

-- The columns of `conversations` but the back-pointer to a ticket and those of the email channel.
pub record ConversationRow : Type 0 where
  pub id : String
  pub tenant_id : String
  pub channel_id : String
  pub customer_external_id : String
  pub status : ConversationStatus
  pub assigned_agent_id : Option String
  pub ai_handling : Bool
  pub opened_at : ℕ
  pub last_activity_at : ℕ

pub data MessageRole : Type 0 where
  customer_role agent_role ai_role system_role tool_role : MessageRole

pub record Message : Type 0 where
  pub id : String
  pub conversation_id : String
  pub role : MessageRole
  pub content_text : String
  pub sender_id : Option String
  pub created_at : ℕ

-- The tables; `tickets` has those of the ticket domain, with the columns of `conversations` it reads.
pub record Store : Type 0 where
  pub rows : List ConversationRow
  pub messages : List Message
  pub tickets : Db

pub data ConversationError : Type 0 where
  value_error not_claimable integrity_error : ConversationError

abbrev pub status_eq : ConversationStatus → ConversationStatus → Bool
status_eq open_status open_status = true
status_eq pending_status pending_status = true
status_eq closed_status closed_status = true
status_eq _ _ = false
