-- ===== src/Ticket/Notes.antt =====
-- Notes: the deletion route of ticket/api.py.
use lumen_ai_support_agent.Prelude.{
  Option, Option-cases, String, ap, arith, eq_iff, eq_refl, inl, inr, is_text, none, some, true,
  ◌==◌, ◌≡◌, ◌⊎◌,
}
use lumen_ai_support_agent.Prelude.Table.{delete_where}
use lumen_ai_support_agent.Ticket.Models.{Db, TicketEvent}
use lumen_ai_support_agent.Ticket.Repository.{delete_event, get_event_by_id, own}
use lumen_ai_support_agent.Ticket.Service.{delete_note, removable_note, removable_note_lem}
use lumen_ai_support_agent.Ticket.Api.{delete_ticket_note, not_found, success}

-- An event that `author_id` may delete through this ticket.
pub record IsOwnNote (ticket_id author_id : String) (e : TicketEvent) : Type 0 where
  pub ticket : e.ticket_id ≡ ticket_id
  pub kind : e.event_type ≡ "note"
  pub author : e.actor_id ≡ some author_id

is_text-eq : (o : Option String) (s : String) → is_text o s ≡ true → o ≡ some s
is_text-eq none s h = cc
is_text-eq (some t) s h = ap some ((eq_iff t s).0 h)

removable_IsOwnNote :
    (ticket_id note_id tenant_id author_id : String) (db : Db) {e : TicketEvent}
    → removable_note ticket_id note_id tenant_id author_id db ≡ some e
    → IsOwnNote ticket_id author_id e
unfolding removable_note
removable_IsOwnNote ticket_id note_id tenant_id author_id db {e} h = record {
  ticket = (eq_iff e.ticket_id ticket_id).0 (ground arith);
  kind = (eq_iff e.event_type "note").0 (ground arith);
  author = is_text-eq e.actor_id author_id (ground arith);
}

IsOwnNote-removable :
    (ticket_id note_id tenant_id author_id : String) (db : Db) {e : TicketEvent}
    → get_event_by_id note_id tenant_id db ≡ some e
    → IsOwnNote ticket_id author_id e
    → removable_note ticket_id note_id tenant_id author_id db ≡ some e
unfolding removable_note
IsOwnNote-removable ticket_id note_id tenant_id author_id db {e} h own =
    rw (h, removable_note)
      (rw ((eq_iff e.ticket_id ticket_id).1 own.ticket, (eq_iff e.event_type "note").1 own.kind)
        (rw own.author (rw (eq_refl author_id))))

module _ (ticket_id note_id tenant_id author_id : String) (db : Db) where
  -- The route deletes exactly a note that the caller wrote on that ticket: then it answers 204 and
  -- the event is gone from the stored ones. In every other case it answers 404 and stores nothing.
  delete_ticket_note-exact :
      let (r, db') = delete_ticket_note ticket_id note_id tenant_id author_id db in
      ((e : TicketEvent) × (get_event_by_id note_id tenant_id db ≡ some e)
        × IsOwnNote ticket_id author_id e
        × (r ≡ success tt)
        × (db' ≡ record db { ticket_events = delete_where (λ x. x.id == e.id) db.ticket_events }))
      ⊎ (((e : TicketEvent)
            → get_event_by_id note_id tenant_id db ≡ some e
            → ¬ IsOwnNote ticket_id author_id e)
          × (r ≡ not_found)
          × (db' ≡ db))
  unfolding delete_ticket_note delete_note delete_event
  delete_ticket_note-exact =
      elim (Option-cases (removable_note ticket_id note_id tenant_id author_id db)) [
        | inl n ↦ inr (
          (λ e h own. cc (n, IsOwnNote-removable ticket_id note_id tenant_id author_id db h own)),
          ground arith,
          ground arith,
        )
        | inr (e, s) ↦ inl (
          e,
          (removable_note_lem ticket_id note_id tenant_id author_id db s).0,
          removable_IsOwnNote ticket_id note_id tenant_id author_id db s,
          ground arith,
          ground arith,
        )
      ]
