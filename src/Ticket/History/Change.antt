-- ===== src/Ticket/History/Change.antt =====
-- The changes that requests of ticket/service.py make to the tables.
use lumen_ai_support_agent.Ticket.History.{
  Operation, Request, attach, dispatch, move, note, open_ticket, perform, remove_note,
}
use lumen_ai_support_agent.Ticket.Lifecycle.{sm_transition-⟶}
use lumen_ai_support_agent.Prelude.Exec.{Result, err, ok}
use lumen_ai_support_agent.Prelude.Table.Laws.{exists_false}
use lumen_ai_support_agent.Prelude.{
  Bool-cases, Option, Option-cases, String, [], arith, inl, inr, none, not, refl, some, ℕ, ◌*◌,
  ◌++◌, ◌+◌, ◌==◌, ◌||◌, ◌∙◌, ◌∷◌, ◌≡◌,
}
use lumen_ai_support_agent.Prelude.Table.{count_where, delete_where, exists}
use lumen_ai_support_agent.Ticket.Enums.{TicketPriority, TicketStatus, new, p2}
use lumen_ai_support_agent.Ticket.StateMachine.{TicketError, ◌⟶◌}
use lumen_ai_support_agent.Ticket.Models.{
  Db, Payload, Ticket, TicketEvent, created_payload, note_payload,
}
use lumen_ai_support_agent.Ticket.Repository
use lumen_ai_support_agent.Ticket.Repository.{
  get_by_id, get_event_by_id, get_for_conversation, with_session,
}
use lumen_ai_support_agent.Ticket.Service
use lumen_ai_support_agent.Ticket.Service.{Fresh, removable_note, removable_note_lem, sla_minutes}
use lumen_ai_support_agent.Ticket.Service.Transition.{
  moved_db, transition_failure, transition_success,
}
use lumen_ai_support_agent.Ticket.Api.{transition_in_session, wired}

-- A ticket as `create` inserts it.
pub record IsOpened (fresh : Fresh) (tenant_id : String) (t : Ticket) : Type 0 where
  pub id : t.id ≡ fresh.ticket_id
  pub tenant : t.tenant_id ≡ tenant_id
  pub status : t.status ≡ new

-- An event that the request appends about a ticket.
pub record IsLogged (fresh : Fresh) (tenant_id ticket_id event_type : String) (payload : Payload)
    (e : TicketEvent) : Type 0 where
  pub id : e.id ≡ fresh.event_id
  pub tenant : e.tenant_id ≡ tenant_id
  pub ticket : e.ticket_id ≡ ticket_id
  pub kind : e.event_type ≡ event_type
  pub payload_eq : e.payload ≡ payload

pub data Change (fresh : Fresh) (tenant_id : String) (db db' : Db) : Type 0 where
  same : db' ≡ db → Change fresh tenant_id db db'
  opened :
      (t : Ticket) (e : TicketEvent) (minutes : ℕ)
      → IsOpened fresh tenant_id t
      → IsLogged fresh tenant_id t.id "created" (created_payload t.priority minutes) e
      → count_where (λ r. r.conversation_id == t.conversation_id) db.tickets ≡ 0
      → db'
        ≡ record db { tickets = db.tickets ++ t ∷ []; ticket_events = db.ticket_events ++ e ∷ [] }
      → Change fresh tenant_id db db'
  moved :
      (ticket_id : String) (target : TicketStatus) (actor_type : String) (actor_id : Option String)
      (t : Ticket)
      → get_by_id ticket_id tenant_id db ≡ some t
      → t.status ⟶ target
      → db' ≡ moved_db wired fresh ticket_id t.status target actor_type actor_id tenant_id db t
      → Change fresh tenant_id db db'
  noted :
      (t : Ticket) (ticket_id body : String) (e : TicketEvent)
      → get_by_id ticket_id tenant_id db ≡ some t
      → IsLogged fresh tenant_id ticket_id "note" (note_payload body) e
      → db' ≡ record db { ticket_events = db.ticket_events ++ e ∷ [] }
      → Change fresh tenant_id db db'
  erased :
      (note_id : String) (e : TicketEvent)
      → get_event_by_id note_id tenant_id db ≡ some e
      → e.event_type ≡ "note"
      → db' ≡ record db { ticket_events = delete_where (λ x. x.id == e.id) db.ticket_events }
      → Change fresh tenant_id db db'

module _ (fresh : Fresh) (tenant_id : String) (db : Db) where
  create-Change :
      (conversation_id subject : String) (category : Option String) (priority : TicketPriority)
      → Change fresh tenant_id db
          (Service.create wired fresh tenant_id conversation_id subject category priority db).1
  unfolding Service.create Repository.create Repository.append_event
  create-Change conversation_id subject category priority =
      let minutes = sla_minutes wired tenant_id priority db in
      elim (Bool-cases (
        exists (λ t. t.conversation_id == conversation_id) db.tickets
        || not (exists (λ c. c.id == conversation_id) db.conversations))) [
          | inl y ↦ same (rw y)
          | inr n ↦
              opened
                (Repository.new_ticket fresh.ticket_id fresh.now tenant_id conversation_id subject
                  category priority (some (fresh.now + minutes * 60)))
                (Repository.new_event fresh.event_id fresh.now fresh.ticket_id tenant_id "system"
                  none "created" (created_payload priority minutes))
                minutes (record { id = refl; tenant = refl; status = refl })
                (record { id = refl; tenant = refl; ticket = refl; kind = refl; payload_eq = refl })
                (exists_false _ db.tickets (ground arith)) (rw n)
        ]

  attach-Change :
      (conversation_id subject : String)
      → Change fresh tenant_id db
          (Service.get_or_create_for_conversation wired fresh tenant_id conversation_id subject
            db).1
  unfolding Service.get_or_create_for_conversation
  attach-Change conversation_id subject =
      elim (Option-cases (get_for_conversation conversation_id tenant_id db)) [
        | inl e ↦
            let created : (Service.get_or_create_for_conversation wired fresh tenant_id
                  conversation_id subject db).1
                ≡ (Service.create wired fresh tenant_id conversation_id subject none p2 db).1 =
              ground arith in
            rw created (create-Change conversation_id subject none p2)
        | inr (t, e) ↦ same (ground arith)
      ]

  -- The result of the service's call, whatever it is, and the tables that it leaves.
  move_loaded-Change :
      (ticket_id : String) (target : TicketStatus) (actor_type : String) (actor_id : Option String)
      (t : Ticket)
      → get_by_id ticket_id tenant_id db ≡ some t
      → {db' : Db} (r : Result TicketError Ticket × Db)
      → Service.transition wired fresh ticket_id t.status target actor_type actor_id tenant_id db
        ≡ r
      → db' ≡ r.1
      → Change fresh tenant_id db db'
  move_loaded-Change ticket_id target actor_type actor_id t e (err x, db₁) h k = same (
      k
      ∙ transition_failure wired fresh ticket_id t.status target actor_type actor_id tenant_id db h)
  move_loaded-Change ticket_id target actor_type actor_id t e (ok t', db₁) h k =
      let (t₀, e₀, m, _, w) =
        transition_success wired fresh ticket_id t.status target actor_type actor_id tenant_id db
          h in
      moved ticket_id target actor_type actor_id t e (sm_transition-⟶ t.status target m)
        (ground arith)

  move-Change :
      (ticket_id : String) (target : TicketStatus) (actor_type : String) (actor_id : Option String)
      → Change fresh tenant_id db
          (transition_in_session fresh ticket_id target actor_type actor_id tenant_id db).1
  unfolding transition_in_session Service.load_ticket
  move-Change ticket_id target actor_type actor_id =
      elim (Option-cases (get_by_id ticket_id tenant_id db)) [
        | inl e ↦ same (ground arith)
        | inr (t, e) ↦
            move_loaded-Change ticket_id target actor_type actor_id t e
              (Service.transition wired fresh ticket_id t.status target actor_type actor_id
                tenant_id db)
              refl (ground arith)
      ]

  note-Change :
      (ticket_id author_id body : String)
      → Change fresh tenant_id db
          (with_session (Service.add_note fresh ticket_id tenant_id author_id body) db).1
  unfolding Service.add_note Repository.append_event
  note-Change ticket_id author_id body = elim (Option-cases (get_by_id ticket_id tenant_id db)) [
    | inl e ↦ same (ground arith)
    | inr (t, e) ↦
        noted t ticket_id body
          (Repository.new_event fresh.event_id fresh.now ticket_id tenant_id "agent"
            (some author_id) "note" (note_payload body))
          e (record { id = refl; tenant = refl; ticket = refl; kind = refl; payload_eq = refl })
          (ground arith)
  ]

  remove_note-Change :
      (ticket_id note_id author_id : String)
      → Change fresh tenant_id db
          (with_session (Service.delete_note ticket_id note_id tenant_id author_id) db).1
  unfolding Service.delete_note Repository.delete_event
  remove_note-Change ticket_id note_id author_id =
      elim (Option-cases (removable_note ticket_id note_id tenant_id author_id db)) [
        | inl e ↦ same (ground arith)
        | inr (event, e) ↦
            let (found, is_note) = removable_note_lem ticket_id note_id tenant_id author_id db e in
            erased note_id event found is_note (ground arith)
      ]

-- Every request leaves the tables as they are, or makes exactly one change for its tenant: it
-- inserts a new ticket with its event, moves one of the tenant's tickets along an edge with its
-- event, appends a note to one of them, or deletes one of the tenant's notes.
pub perform-Change : (r : Request) (db : Db) → Change r.fresh r.tenant_id db (perform r db)
unfolding perform
perform-Change r db = dispatch-Change r.operation
  where
    dispatch-Change :
        (o : Operation) → Change r.fresh r.tenant_id db (dispatch o r.fresh r.tenant_id db)
    dispatch-Change (open_ticket c s g p) = create-Change r.fresh r.tenant_id db c s g p
    dispatch-Change (attach c s) = attach-Change r.fresh r.tenant_id db c s
    dispatch-Change (move t s a b) = move-Change r.fresh r.tenant_id db t s a b
    dispatch-Change (note t a b) = note-Change r.fresh r.tenant_id db t a b
    dispatch-Change (remove_note t n a) = remove_note-Change r.fresh r.tenant_id db t n a
