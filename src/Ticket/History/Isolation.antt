-- ===== src/Ticket/History/Isolation.antt =====
-- ticket/service.py and ticket/repository.py: rows of other tenants, and the audit rows.
use mathlib.Core.List.{append-nil}
use lumen_ai_support_agent.Prelude.{
  Bool, List, String, [], ap, arith, eq_iff, false, if◌then◌else◌, length, none, not, refl, some,
  sym, true, ◌&&◌, ◌++◌, ◌==◌, ◌∙◌, ◌∷◌, ◌≡◌, ◌≤◌,
}
use lumen_ai_support_agent.Prelude.Table.{count_where, delete_where, select}
use lumen_ai_support_agent.Prelude.Table.Laws.{
  find_sound, select-append, select-delete_where, select-update_first, select-update_where,
}
use lumen_ai_support_agent.Ticket.Enums.{cancelled, status_eq}
use lumen_ai_support_agent.Ticket.Models.{Conversation, Db, Ticket, TicketEvent}
use lumen_ai_support_agent.Ticket.Repository.{get_event_by_id}
use lumen_ai_support_agent.Ticket.Service.{Fresh}
use lumen_ai_support_agent.Ticket.Service.Transition.{moved_ticket, unlinked}
use lumen_ai_support_agent.Ticket.History.{Request, perform}
use lumen_ai_support_agent.Ticket.History.Change.{
  Change, erased, moved, noted, opened, perform-Change, same,
}
use lumen_ai_support_agent.Ticket.History.Status.{get_by_id_lem}
use lumen_ai_support_agent.Ticket.History.Audit.{erase-select, is_system_event}

-- The rows of the tenants other than `tenant_id`.
abbrev pub foreign_tickets : String → Db → List Ticket
foreign_tickets tenant_id db = select (λ t. not (t.tenant_id == tenant_id)) db.tickets

abbrev pub foreign_events : String → Db → List TicketEvent
foreign_events tenant_id db = select (λ e. not (e.tenant_id == tenant_id)) db.ticket_events

abbrev pub foreign_conversations : String → Db → List Conversation
foreign_conversations tenant_id db = select (λ c. not (c.tenant_id == tenant_id)) db.conversations

-- A row of the tenant, appended, is not among the others.
select-append_out {ℓ} :
    {A : Type ℓ} (p : A → Bool) (xs : List A) (x : A)
    → p x ≡ false
    → select p (xs ++ x ∷ []) ≡ select p xs
select-append_out p [] x h = ground arith
select-append_out p (y ∷ xs) x h = ground (arith, select-append_out p xs x)

erase_foreign :
    (note_id tenant_id : String) (db : Db) {e : TicketEvent}
    → get_event_by_id note_id tenant_id db ≡ some e
    → count_where (λ x. x.id == e.id) db.ticket_events ≤ 1
    → select
        (λ x. not (x.tenant_id == tenant_id))
        (delete_where (λ x. x.id == e.id) db.ticket_events)
      ≡ foreign_events tenant_id db
unfolding get_event_by_id
erase_foreign note_id tenant_id db {e} g c =
    let found : (e.id == note_id && e.tenant_id == tenant_id) ≡ true =
      find_sound _ db.ticket_events g in
    let its_id : e.id ≡ note_id = (eq_iff e.id note_id).0 (ground arith) in
    select-delete_where (λ x. not (x.tenant_id == tenant_id)) (λ x. x.id == e.id)
      (λ x. x.id == note_id && x.tenant_id == tenant_id) db.ticket_events c
      (λ x h. rw its_id (ground arith)) g (ground arith)

unlinked_if-foreign :
    (tenant_id : String) (t : Ticket)
    → (t.tenant_id == tenant_id) ≡ true
    → (b : Bool) (cs : List Conversation)
    → select (λ c. not (c.tenant_id == tenant_id)) (if b then unlinked t cs else cs)
      ≡ select (λ c. not (c.tenant_id == tenant_id)) cs
unlinked_if-foreign tenant_id t mine false cs = refl
unlinked_if-foreign tenant_id t mine true cs =
    select-update_where _ _ (λ c. record c { ticket_id = none }) cs
      (λ c h. ground (
        arith,
        eq_iff t.tenant_id tenant_id,
        eq_iff c.tenant_id t.tenant_id,
        eq_iff c.tenant_id tenant_id,
      ))
      (λ c. refl)

module _ {fresh : Fresh} {tenant_id : String} {db db' : Db} where
  Change-tickets :
      Change fresh tenant_id db db' → foreign_tickets tenant_id db' ≡ foreign_tickets tenant_id db
  Change-tickets (same w) = rw w
  Change-tickets (opened t e minutes o l n w) =
      rw w (select-append_out _ db.tickets t (ap not ((eq_iff t.tenant_id tenant_id).1 o.tenant)))
  Change-tickets (moved ticket_id target actor_type actor_id t g s w) =
      let (_, mine, _, loaded) = get_by_id_lem ticket_id tenant_id db g in
      rw w (
        select-update_first _ _ (moved_ticket fresh target) db.tickets loaded (ap not mine)
          (ap not mine))
  Change-tickets (noted t ticket_id body e g l w) = rw w
  Change-tickets (erased note_id e g n w) = rw w

  Change-events :
      Change fresh tenant_id db db'
      → ((k : String) → count_where (λ e. e.id == k) db.ticket_events ≤ 1)
      → foreign_events tenant_id db' ≡ foreign_events tenant_id db
  Change-events (same w) u = rw w
  Change-events (opened t e minutes o l n w) u =
      rw w (
        select-append_out _ db.ticket_events e (ap not ((eq_iff e.tenant_id tenant_id).1 l.tenant)))
  Change-events (moved ticket_id target actor_type actor_id t g s w) u =
      let (_, mine, _, loaded) = get_by_id_lem ticket_id tenant_id db g in
      rw w (select-append_out _ db.ticket_events _ (ap not mine))
  Change-events (noted t ticket_id body e g l w) u =
      rw w (
        select-append_out _ db.ticket_events e (ap not ((eq_iff e.tenant_id tenant_id).1 l.tenant)))
  Change-events (erased note_id e g n w) u = rw w (erase_foreign note_id tenant_id db g (u e.id))

  Change-conversations :
      Change fresh tenant_id db db'
      → foreign_conversations tenant_id db' ≡ foreign_conversations tenant_id db
  Change-conversations (same w) = rw w
  Change-conversations (opened t e minutes o l n w) = rw w
  Change-conversations (moved ticket_id target actor_type actor_id t g s w) =
      let (_, mine, _, loaded) = get_by_id_lem ticket_id tenant_id db g in
      rw w
        (unlinked_if-foreign tenant_id t mine (status_eq target cancelled && true) db.conversations)
  Change-conversations (noted t ticket_id body e g l w) = rw w
  Change-conversations (erased note_id e g n w) = rw w

-- A request of one tenant leaves the tickets, the events and the conversations of every other
-- tenant as they were, if event ids stand once.
pub perform_isolated :
    (r : Request) (db : Db)
    → ((k : String) → count_where (λ e. e.id == k) db.ticket_events ≤ 1)
    → (foreign_tickets r.tenant_id (perform r db) ≡ foreign_tickets r.tenant_id db)
      × (foreign_events r.tenant_id (perform r db) ≡ foreign_events r.tenant_id db)
      × (foreign_conversations r.tenant_id (perform r db) ≡ foreign_conversations r.tenant_id db)
perform_isolated r db u =
    let c = perform-Change r db in (Change-tickets c, Change-events c u, Change-conversations c)

abbrev pub audit_rows : Db → List TicketEvent
audit_rows db = select is_system_event db.ticket_events

-- The audit rows, notes apart, are append-only if event ids stand once: a request adds at most one,
-- at the end, and removes none.
pub perform_append_only :
    (r : Request) (db : Db)
    → ((k : String) → count_where (λ e. e.id == k) db.ticket_events ≤ 1)
    → (more : List TicketEvent) × (audit_rows (perform r db) ≡ audit_rows db ++ more)
      × (length more ≤ 1)
perform_append_only r db u = added (perform-Change r db)
  where
    one :
        (e : TicketEvent)
        → (more : List TicketEvent) × (select is_system_event (db.ticket_events ++ e ∷ [])
            ≡ audit_rows db ++ more)
          × (length more ≤ 1)
    one e = (
      select is_system_event (e ∷ []),
      select-append is_system_event db.ticket_events (e ∷ []),
      ground arith,
    )

    added :
        {db' : Db}
        → Change r.fresh r.tenant_id db db'
        → (more : List TicketEvent) × (audit_rows db' ≡ audit_rows db ++ more) × (length more ≤ 1)
    added (same w) = ([], rw w (sym (append-nil _)), omega arith)
    added (opened t e minutes o l n w) = rw w (one e)
    added (moved ticket_id target actor_type actor_id t g s w) = rw w (one _)
    added (noted t ticket_id body e g l w) = rw w (one e)
    added (erased note_id e g n w) = (
      [],
      rw w (erase-select note_id r.tenant_id db g n (u e.id) ∙ sym (append-nil _)),
      omega arith,
    )
