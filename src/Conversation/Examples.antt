-- ===== src/Conversation/Examples.antt =====
-- One waiting conversation, claimed by two agents; one customer, writing twice.
use lumen_ai_support_agent.Conversation.Tickets.{IsRecorded, record_message_kept}
use lumen_ai_support_agent.Ticket.Service.{Fresh, TicketService}
use lumen_ai_support_agent.Prelude.{
  Bool-cases, String, [], arith, eq_iff, false, inl, inr, length, none, refl, some, subst, true,
  ◌==◌, ◌∷◌, ◌≡◌, ◌≤◌, ◌⊎◌,
}
use lumen_ai_support_agent.Prelude.Exec.{err}
use lumen_ai_support_agent.Prelude.Table.{count_where, select}
use lumen_ai_support_agent.Assignment.{pending_status}
use lumen_ai_support_agent.Ticket.Models.{Db}
use lumen_ai_support_agent.Conversation.{
  ConversationRow, Store, customer_role, not_claimable, value_error,
}
use lumen_ai_support_agent.Conversation.Repository.{
  get_by_id, get_by_id_for_update, has_id, set_state, touch_last_activity, write_row,
}
use lumen_ai_support_agent.Ticket.Repository as TicketRepository
use lumen_ai_support_agent.Ticket.Service as TicketOperations
use lumen_ai_support_agent.Conversation.Service.{
  PolicyResolver, claim, find_or_create_for_inbound, get, is_visible,
}
use lumen_ai_support_agent.Conversation.Messages.{record_message, try_auto_create_ticket}
use lumen_ai_support_agent.Conversation.Requests.{Call, Request, perform, perform_call, run}
use lumen_ai_support_agent.Conversation.Steps.{IsUnique}
use lumen_ai_support_agent.Conversation.Calls.{releases}
use lumen_ai_support_agent.Conversation.Flags.{AgreesWith, IsConsistent, run-IsConsistent}
use lumen_ai_support_agent.Conversation.Claims.{NoneReleases, claim_exclusive}
use lumen_ai_support_agent.Conversation.Isolation.{of_others, perform-select}
use lumen_ai_support_agent.Conversation.Inbound.{find_or_create_for_inbound-IsInbound}
use lumen_ai_support_agent.Conversation.Inbound.Outcome.{IsInbound}

abbrev waiting : ConversationRow
waiting = record {
  id = "c1";
  tenant_id = "t1";
  channel_id = "web";
  customer_external_id = "ann";
  status = pending_status;
  assigned_agent_id = none;
  ai_handling = false;
  opened_at = 1;
  last_activity_at = 2;
}

abbrev no_tickets : Db
no_tickets = record {
  tickets = [];
  ticket_events = [];
  sla_policies = [];
  conversations = (record { id = "c1"; tenant_id = "t1"; ticket_id = none }) ∷ [];
}

abbrev desk : Store
desk = record { rows = waiting ∷ []; messages = []; tickets = no_tickets }

abbrev nobody : PolicyResolver
nobody tenant_id s = none

abbrev written : Request
written = record {
  tenant_id = "t1";
  now = 7;
  call =
      Call.writes (some (record { has_conv_repo = true; default_minutes = 60 }))
        (record { ticket_id = "k1"; event_id = "e1"; now = 7 }) "m1" "c1" customer_role "Hello"
        none;
}

one_row : (i : String) → count_where (has_id i) (waiting ∷ []) ≤ 1
one_row i = ground arith

desk-IsUnique : IsUnique desk.rows
unfolding IsUnique
desk-IsUnique = one_row

desk-IsConsistent : IsConsistent desk.rows
unfolding IsConsistent AgreesWith
desk-IsConsistent = (desk-IsUnique, ((λ e. absurd (ground (arith, e)), λ n. refl), tt))

-- A customer's message opens a ticket.
written_runs : length (perform nobody written desk).tickets.tickets ≡ 1
unfolding perform perform_call record_message get get_by_id is_visible touch_last_activity write_row
    try_auto_create_ticket TicketRepository.get_for_conversation TicketOperations.create
    TicketRepository.create TicketRepository.append_event
written_runs = refl

run-IsConsistent_example : IsConsistent (run nobody (written ∷ []) desk).rows
run-IsConsistent_example = run-IsConsistent nobody (written ∷ []) desk desk-IsConsistent

claim_exclusive_example :
    let s' = run nobody (written ∷ []) (claim "t1" "c1" "bob" 5 desk).1 in
    ((claim "t1" "c1" "eve" 9 s').0 ≡ err not_claimable)
    ⊎ ((claim "t1" "c1" "eve" 9 s').0 ≡ err value_error)
unfolding claim get_by_id_for_update NoneReleases releases
claim_exclusive_example =
    claim_exclusive nobody (written ∷ []) desk "t1" "c1" "bob" 5
      (set_state pending_status (some "bob") false 5 waiting) "t1" "eve" 9 desk-IsConsistent refl
      (refl, tt)

-- A conversation of another tenant beside it.
abbrev elsewhere : ConversationRow
elsewhere = record waiting { id = "c9"; tenant_id = "t9"; channel_id = "mail" }

abbrev shared_desk : Store
shared_desk = record desk { rows = waiting ∷ elsewhere ∷ [] }

shared_desk-IsUnique : IsUnique shared_desk.rows
unfolding IsUnique
shared_desk-IsUnique = λ i. elim (Bool-cases ("c1" == i)) [
  | inl y ↦
      subst (λ j. count_where (has_id j) (waiting ∷ elsewhere ∷ []) ≤ 1) ((eq_iff "c1" i).0 y)
        (omega arith)
  | inr n ↦ ground (arith, n)
]

perform-select_example :
    select (of_others "t1") (perform nobody written shared_desk).rows ≡ elsewhere ∷ []
perform-select_example = perform-select nobody written shared_desk shared_desk-IsUnique

find_or_create_for_inbound-IsInbound_example :
    IsInbound "c2" "t1" "web" "ann" 8 desk desk
      (find_or_create_for_inbound (λ s. s) "c2" "t1" "web" "ann" 8 desk)
find_or_create_for_inbound-IsInbound_example =
    find_or_create_for_inbound-IsInbound (λ s. s) "c2" "t1" "web" "ann" 8 desk desk-IsUnique
      desk-IsUnique

abbrev with_tickets : TicketService
with_tickets = record { has_conv_repo = true; default_minutes = 60 }

abbrev at_seven : Fresh
at_seven = record { ticket_id = "k1"; event_id = "e1"; now = 7 }

record_message_kept_example :
    IsRecorded
      (some with_tickets)
      at_seven
      "t1"
      "c1"
      customer_role
      "Hello"
      7
      desk
      waiting
      (record {
        id = "m1";
        conversation_id = "c1";
        role = customer_role;
        content_text = "Hello";
        sender_id = none;
        created_at = 7;
      })
      (record_message (some with_tickets) at_seven "m1" "t1" "c1" customer_role "Hello" none 7 desk)
unfolding get get_by_id is_visible
record_message_kept_example =
    record_message_kept (some with_tickets) at_seven "m1" "t1" "c1" customer_role "Hello" none 7
      desk waiting refl
