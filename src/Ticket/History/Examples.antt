-- ===== src/Ticket/History/Examples.antt =====
-- Concrete histories: a ticket is opened, moved, noted and closed.
use lumen_ai_support_agent.Prelude.{
  Bool-cases, List, String, [], arith, eq_iff, inl, inr, length, none, refl, some, subst, ◌++◌,
  ◌==◌, ◌∷◌, ◌≡◌, ◌≤◌,
}
use lumen_ai_support_agent.Prelude.Table.{count_where}
use lumen_ai_support_agent.Ticket.Enums.{closed, p1, triaged}
use lumen_ai_support_agent.Ticket.Models.{Db, Ticket, TicketEvent, note_payload}
use lumen_ai_support_agent.Ticket.Repository.{
  append_event, create, find_sla_policy, new_event, new_ticket,
}
use lumen_ai_support_agent.Ticket.Service
use lumen_ai_support_agent.Ticket.Service.{Fresh}
use lumen_ai_support_agent.Ticket.Lifecycle.{◌⟶*◌}
use lumen_ai_support_agent.Ticket.History.{
  Request, dispatch, move, open_ticket, perform, remove_note, run,
}
use lumen_ai_support_agent.Ticket.History.Change.{Change, perform-Change}
use lumen_ai_support_agent.Ticket.History.Status.{run-⟶*, ticket_at}
use lumen_ai_support_agent.Ticket.History.Audit.{IsWellFormed}
use lumen_ai_support_agent.Ticket.History.WellFormed.{IsUnused-IsWellFormed, run-IsWellFormed}
use lumen_ai_support_agent.Ticket.History.Isolation.{
  audit_rows, foreign_conversations, foreign_events, foreign_tickets, perform_append_only,
  perform_isolated,
}

abbrev no_tickets : Db
no_tickets = record {
  tickets = [];
  ticket_events = [];
  sla_policies = [];
  conversations = record { id = "c1"; tenant_id = "acme"; ticket_id = none } ∷ [];
}

abbrev fresh_open : Fresh
fresh_open = record { ticket_id = "t1"; event_id = "e1"; now = 100 }

abbrev fresh_move : Fresh
fresh_move = record { ticket_id = "t2"; event_id = "e2"; now = 200 }

abbrev opening : Request
opening = record {
  fresh = fresh_open;
  tenant_id = "acme";
  operation = open_ticket "c1" "refund" none p1;
}

abbrev triaging : Request
triaging = record {
  fresh = fresh_move;
  tenant_id = "acme";
  operation = move "t1" triaged "agent" (some "u1");
}

abbrev closed_ticket : Ticket
closed_ticket = record (new_ticket "t1" 100 "acme" "c1" "refund" none p1 none) { status = closed }

abbrev event_of : String → String → String → TicketEvent
event_of id tenant_id kind =
    new_event id 100 "t1" tenant_id "agent" (some "u1") kind (note_payload "hello")

abbrev with_closed : Db
with_closed = record no_tickets {
  tickets = closed_ticket ∷ [];
  ticket_events = event_of "e1" "acme" "note" ∷ event_of "e2" "globex" "note" ∷ [];
}

one_event :
    (k : String) → count_where (λ (e : TicketEvent). e.id == k) with_closed.ticket_events ≤ 1
one_event k = elim (Bool-cases ("e1" == k)) [
  | inl y ↦
      subst (λ j. count_where (λ (e : TicketEvent). e.id == j) with_closed.ticket_events ≤ 1)
        ((eq_iff "e1" k).0 y) (omega arith)
  | inr n ↦
      rw n
        (elim (Bool-cases ("e2" == k)) [ inl y ↦ rw y (omega arith) | inr m ↦ rw m (omega arith) ])
]

run-IsWellFormed_example : IsWellFormed (run no_tickets (opening ∷ triaging ∷ []))
unfolding perform dispatch Service.create Service.sla_minutes find_sla_policy create append_event
run-IsWellFormed_example =
    run-IsWellFormed no_tickets (opening ∷ triaging ∷ [])
      (IsUnused-IsWellFormed no_tickets (refl, refl))
      (
        record { no_ticket = refl; no_event = refl },
        (record { no_ticket = refl; no_event = refl }, tt),
      )

perform-Change_example : Change fresh_open "acme" no_tickets (perform opening no_tickets)
perform-Change_example = perform-Change opening no_tickets

run-⟶*_example :
    (b : Ticket) × (ticket_at "t1" (run with_closed (triaging ∷ opening ∷ [])) ≡ some b)
    × (closed ⟶* b.status)
run-⟶*_example = run-⟶* "t1" with_closed (triaging ∷ opening ∷ []) {a = closed_ticket} refl

abbrev erasing : Request
erasing = record { fresh = fresh_move; tenant_id = "acme"; operation = remove_note "t1" "e1" "u1" }

perform_isolated_example :
    (foreign_tickets "acme" (perform erasing with_closed) ≡ foreign_tickets "acme" with_closed)
    × (foreign_events "acme" (perform erasing with_closed) ≡ foreign_events "acme" with_closed)
    × (foreign_conversations "acme" (perform erasing with_closed)
        ≡ foreign_conversations "acme" with_closed)
perform_isolated_example = perform_isolated erasing with_closed one_event

perform_append_only_example :
    (more : List TicketEvent) × (audit_rows (perform erasing with_closed)
      ≡ audit_rows with_closed ++ more)
    × (length more ≤ 1)
perform_append_only_example = perform_append_only erasing with_closed one_event
