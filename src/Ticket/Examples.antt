-- ===== src/Ticket/Examples.antt =====
-- The ticket service and its routes on concrete tables.

use lumen_ai_support_agent.Prelude.Table.{find}
use lumen_ai_support_agent.Prelude.Table.Rows.{Among}
use lumen_ai_support_agent.Prelude.{
  All, [], arith, false, none, refl, some, true, ◌*◌, ◌+◌, ◌==◌, ◌∷◌, ◌≡◌, ◌≤◌, ◌⊎◌,
}
use lumen_ai_support_agent.Prelude.Exec.{err, ok}
use lumen_ai_support_agent.Ticket.Enums.{cancelled, closed, new, p1}
use lumen_ai_support_agent.Ticket.StateMachine.{
  integrity_error, invalid_transition, sm_transition, ticket_not_found, ◌⟶◌,
}
use lumen_ai_support_agent.Ticket.Models.{Db, SlaPolicy, Ticket, note_payload, status_payload}
use lumen_ai_support_agent.Ticket.Repository
use lumen_ai_support_agent.Ticket.Repository.{
  delete_by_id, find_sla_policy, get_by_id, get_for_conversation, new_event, new_ticket,
}
use lumen_ai_support_agent.Ticket.Service
use lumen_ai_support_agent.Ticket.Service.{Fresh, load_ticket, transition}
use lumen_ai_support_agent.Ticket.Service.Transition.{moved_db, moved_ticket, transition_errors}
use lumen_ai_support_agent.Ticket.Service.Moved.{IsMoved, IsWritten, transition_moves}
use lumen_ai_support_agent.Ticket.Api.{get_ticket, success, transition_ticket, wired}
use lumen_ai_support_agent.Ticket.History.Status.{ticket_at}
use lumen_ai_support_agent.Ticket.Commit.{transition_ticket_not_stored}
use lumen_ai_support_agent.Ticket.Sla.{applies, create_deadline, get_or_create_collides}
use lumen_ai_support_agent.Ticket.Deletion.{delete_by_id-cancelled}

abbrev at_two : Fresh
at_two = record { ticket_id = "t2"; event_id = "e2"; now = 200 }

abbrev open_one : Ticket
open_one = new_ticket "t1" 100 "acme" "c1" "refund" none p1 none

abbrev cancelled_one : Ticket
cancelled_one = moved_ticket at_two cancelled open_one

abbrev urgent : SlaPolicy
urgent = record {
  id = "s1";
  tenant_id = "acme";
  name = "urgent";
  priority = p1;
  first_response_minutes = 15;
  resolution_minutes = 240;
  business_hours_only = false;
  created_at = 1;
}

abbrev tables : Db
tables = record {
  tickets = open_one ∷ [];
  ticket_events = [];
  sla_policies = urgent ∷ [];
  conversations =
      record { id = "c1"; tenant_id = "acme"; ticket_id = some "t1" }
      ∷ record { id = "c2"; tenant_id = "acme"; ticket_id = none }
      ∷ [];
}

abbrev noted : Db
noted = record tables {
  ticket_events =
      new_event "e1" 150 "t1" "acme" "agent" (some "u1") "note" (note_payload "hello") ∷ [];
}

transition_moves_example :
    (new ⟶ cancelled)
    × (t : Ticket) × (find (λ r. r.id == "t1") tables.tickets ≡ some t)
    × (t.tenant_id ≡ "acme")
    × IsMoved 200 cancelled t cancelled_one
    × IsWritten t cancelled_one
        (new_event "e2" 200 "t1" t.tenant_id "agent" none "status_changed"
          (status_payload new cancelled))
        true
        tables
        (moved_db wired at_two "t1" new cancelled "agent" none "acme" tables open_one)
unfolding transition sm_transition load_ticket Repository.update_status Repository.clear_ticket_id
    Repository.append_event get_by_id
transition_moves_example =
    transition_moves wired at_two "t1" new cancelled "agent" none "acme" tables refl

transition_errors_example :
    ((transition wired at_two "t1" new closed "agent" none "acme" tables).1 ≡ tables)
    × (((invalid_transition ≡ invalid_transition) × ¬ (new ⟶ closed))
        ⊎ ((invalid_transition ≡ ticket_not_found)
            × (new ⟶ closed)
            × (get_by_id "t1" "acme" tables ≡ none)))
unfolding transition sm_transition
transition_errors_example =
    transition_errors wired at_two "t1" new closed "agent" none "acme" tables
      {e = invalid_transition} refl

delete_by_id-cancelled_example :
    let db' = moved_db wired at_two "t1" new cancelled "agent" none "acme" tables open_one in
    ((delete_by_id "t1" "acme" db').0 ≡ ok true)
    × (ticket_at "t1" (delete_by_id "t1" "acme" db').1 ≡ none)
unfolding transition sm_transition load_ticket Repository.update_status Repository.clear_ticket_id
    Repository.append_event get_by_id
delete_by_id-cancelled_example =
    delete_by_id-cancelled wired at_two "t1" new "agent" none "acme" tables {t = open_one}
      {t' = cancelled_one} refl refl ((λ h. (refl, refl)), ((λ h. cc h), tt)) refl

transition_ticket_not_stored_example :
    (cancelled_one.status ≡ cancelled)
    × (old : Ticket) × (get_ticket "t1" "acme"
          (transition_ticket at_two "t1" cancelled "agent" none "acme" tables).1
        ≡ success old)
    × (old.status ⟶ cancelled)
unfolding transition_ticket load_ticket transition sm_transition Repository.update_status
    Repository.clear_ticket_id Repository.append_event get_by_id
transition_ticket_not_stored_example =
    transition_ticket_not_stored at_two "t1" cancelled "agent" none "acme" tables
      {t = cancelled_one} refl

create_deadline_example :
    ((p : SlaPolicy) × Among p (urgent ∷ [])
      × (applies "acme" p1 p ≡ true)
      × All (λ q. q.created_at ≤ p.created_at) (urgent ∷ [])
      × (some 1100 ≡ some (200 + p.first_response_minutes * 60)))
    ⊎ ((urgent ∷ [] ≡ []) × (some 1100 ≡ some (200 + 60 * 60)))
unfolding Service.create Service.sla_minutes find_sla_policy Repository.create
    Repository.append_event
create_deadline_example =
    create_deadline wired at_two "acme" "c2" "refund" none p1 tables
      {t = new_ticket "t2" 200 "acme" "c2" "refund" none p1 (some 1100)} refl

get_or_create_collides_example :
    Service.get_or_create_for_conversation wired at_two "globex" "c1" "refund" tables
    ≡ (err integrity_error, tables)
unfolding get_for_conversation
get_or_create_collides_example =
    get_or_create_collides wired at_two "globex" "c1" "refund" tables {t = open_one} (omega arith)
      refl refl
