-- ===== src/Conversation/Requests.antt =====
-- Any sequence of calls of conversation/service.py by any tenants.
use lumen_ai_support_agent.Prelude.{List, Option, String, [], ℕ, ◌∷◌}
use lumen_ai_support_agent.Conversation.{MessageRole, Store}
use lumen_ai_support_agent.Conversation.Service.{
  PolicyResolver, assign_to_agent, claim, close, escalate_to_human_queue,
  find_or_create_for_inbound, return_to_ai,
}
use lumen_ai_support_agent.Conversation.Messages.{record_message}
use lumen_ai_support_agent.Ticket.Service.{Fresh, TicketService}

pub data Call : Type 0 where
  assigns : String → String → Call
  claims : String → String → Call
  escalates : String → Call
  returns : String → Call
  closes : String → Call
  arrives : String → String → String → Call
  writes :
      Option TicketService → Fresh → String → String → MessageRole → String → Option String → Call

-- A call, with the tenant it is made for and the time.
pub record Request : Type 0 where
  pub tenant_id : String
  pub now : ℕ
  pub call : Call

unfoldable pub perform_call : PolicyResolver → String → ℕ → Call → Store → Store
perform_call policy tenant_id now (Call.assigns conversation_id agent_id) s =
    (assign_to_agent tenant_id conversation_id agent_id now s).1
perform_call policy tenant_id now (Call.claims conversation_id agent_id) s =
    (claim tenant_id conversation_id agent_id now s).1
perform_call policy tenant_id now (Call.escalates conversation_id) s =
    (escalate_to_human_queue policy tenant_id conversation_id now s).1
perform_call policy tenant_id now (Call.returns conversation_id) s =
    (return_to_ai tenant_id conversation_id now s).1
perform_call policy tenant_id now (Call.closes conversation_id) s =
    (close tenant_id conversation_id now s).1
perform_call policy tenant_id now (Call.arrives new_id channel_id customer_external_id) s =
    (find_or_create_for_inbound (λ t. t) new_id tenant_id channel_id customer_external_id now s).1
perform_call policy tenant_id now
      (Call.writes factory fresh new_id conversation_id role content_text sender_id) s =
    (record_message factory fresh new_id tenant_id conversation_id role content_text sender_id now
      s).1

unfoldable pub perform : PolicyResolver → Request → Store → Store
perform policy request s = perform_call policy request.tenant_id request.now request.call s

unfoldable pub run : PolicyResolver → List Request → Store → Store
run policy [] s = s
run policy (request ∷ requests) s = run policy requests (perform policy request s)
