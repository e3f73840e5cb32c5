-- ===== src/Ticket/Commit.antt =====
-- Which routes of ticket/api.py store what they did.
use lumen_ai_support_agent.Ticket.Lifecycle.{sm_transition-⟶}
use lumen_ai_support_agent.Ticket.Service.Transition.{transition_success}
use lumen_ai_support_agent.Prelude.{
  Option, Option-cases, String, [], ap, arith, inl, inr, none, refl, some, sym, ◌++◌, ◌∙◌, ◌∷◌, ◌≡◌,
  ◌⊎◌,
}
use lumen_ai_support_agent.Prelude.Exec.{Result, err, ok}
use lumen_ai_support_agent.Ticket.Enums.{TicketStatus}
use lumen_ai_support_agent.Ticket.StateMachine.{TicketError, invalid_transition, ◌⟶◌}
use lumen_ai_support_agent.Ticket.Models.{Db, Ticket, TicketEvent, note_payload}
use lumen_ai_support_agent.Ticket.Repository.{append_event, get_by_id, new_event}
use lumen_ai_support_agent.Ticket.Service.{Fresh, add_note, load_ticket, transition}
use lumen_ai_support_agent.Ticket.Api.{
  create_ticket_note, get_ticket, not_found, response_of, success, transition_ticket, wired,
}

module _ (fresh : Fresh) (ticket_id : String) (to_status : TicketStatus) (actor_type : String)
    (actor_id : Option String) (tenant_id : String) (db : Db) where
  -- Nothing is stored, whatever the response.
  stored_same :
      (transition_ticket fresh ticket_id to_status actor_type actor_id tenant_id db).1 ≡ db
  unfolding transition_ticket
  stored_same = refl

  -- The response is the service's result for the loaded ticket.
  response_lem :
      {old : Ticket}
      → get_by_id ticket_id tenant_id db ≡ some old
      → (transition_ticket fresh ticket_id to_status actor_type actor_id tenant_id db).0
        ≡ response_of
            (transition wired fresh ticket_id old.status to_status actor_type actor_id tenant_id
              db).0
  unfolding transition_ticket load_ticket
  response_lem e = ground arith

  response_none :
      get_by_id ticket_id tenant_id db ≡ none
      → (transition_ticket fresh ticket_id to_status actor_type actor_id tenant_id db).0 ≡ not_found
  unfolding transition_ticket load_ticket
  response_none e = ground arith

  transition_edge :
      {old t : Ticket} (r : Result TicketError Ticket × Db)
      → get_by_id ticket_id tenant_id db ≡ some old
      → transition wired fresh ticket_id old.status to_status actor_type actor_id tenant_id db ≡ r
      → response_of r.0 ≡ success t
      → (t.status ≡ to_status) × (old.status ⟶ to_status)
  transition_edge {old} {t} (ok t', db') e h k =
      let (t₀, e₀, m, w, _) =
        transition_success wired fresh ticket_id old.status to_status actor_type actor_id tenant_id
          db h in
      let it : t ≡ t' = cc in
      (ap (λ (x : Ticket). x.status) (it ∙ w), sm_transition-⟶ old.status to_status m)
  transition_edge (err invalid_transition, db') e h k = cc
  transition_edge (err _, db') e h k = cc

  -- When the transition route answers 200, the ticket that it shows has the new status, one edge
  -- on, and yet a later GET finds the ticket in its old status: the route never commits.
  pub transition_ticket_not_stored :
      {t : Ticket}
      → (transition_ticket fresh ticket_id to_status actor_type actor_id tenant_id db).0 ≡ success t
      → (t.status ≡ to_status)
        × (old : Ticket) × (get_ticket ticket_id tenant_id
              (transition_ticket fresh ticket_id to_status actor_type actor_id tenant_id db).1
            ≡ success old)
        × (old.status ⟶ to_status)
  unfolding get_ticket
  transition_ticket_not_stored {t} h = elim (Option-cases (get_by_id ticket_id tenant_id db)) [
    | inl e ↦ cc (response_none e)
    | inr (old, e) ↦
        let (shown, edge) =
          transition_edge
            (transition wired fresh ticket_id old.status to_status actor_type actor_id tenant_id db)
            e refl (sym (response_lem e) ∙ h) in
        (shown, old, rw stored_same (ground arith), edge)
  ]

-- Notes are stored: a note that the route answers 201 for stands at the end of the stored events,
-- and nothing else changed; on any other answer nothing is stored.
create_ticket_note_stored :
    (fresh : Fresh) (ticket_id tenant_id author_id body : String) (db : Db)
    → let (r, db') = create_ticket_note fresh ticket_id tenant_id author_id body db in
      ((t : Ticket) × (e : TicketEvent) × (get_ticket ticket_id tenant_id db ≡ success t)
        × (r ≡ success e)
        × (e.event_type ≡ "note")
        × (e.actor_id ≡ some author_id)
        × (e.ticket_id ≡ ticket_id)
        × (db' ≡ record db { ticket_events = db.ticket_events ++ e ∷ [] }))
      ⊎ ((get_ticket ticket_id tenant_id db ≡ not_found) × (r ≡ not_found) × (db' ≡ db))
unfolding create_ticket_note get_ticket add_note append_event load_ticket
create_ticket_note_stored fresh ticket_id tenant_id author_id body db =
    elim (Option-cases (get_by_id ticket_id tenant_id db)) [
      | inl e ↦ inr (ground arith, ground arith, ground arith)
      | inr (t, e) ↦ inl (
        t,
        new_event fresh.event_id fresh.now ticket_id tenant_id "agent" (some author_id) "note"
            (note_payload body),
        ground arith,
        ground arith,
        refl,
        refl,
        refl,
        ground arith,
      )
    ]
