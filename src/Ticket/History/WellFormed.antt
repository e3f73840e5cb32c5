-- ===== src/Ticket/History/WellFormed.antt =====
-- What holds of the tables after any requests.
use lumen_ai_support_agent.Ticket.History.{Request, perform, run}
use lumen_ai_support_agent.Ticket.Service.Transition.{moved_ticket}
use lumen_ai_support_agent.Ticket.History.Change.{
  Change, erased, moved, noted, opened, perform-Change, same,
}
use lumen_ai_support_agent.Prelude.Table.Laws.{
  count_where-append, count_where-delete_where, count_where-update_first,
}
use lumen_ai_support_agent.Prelude.{
  List, String, [], arith, eq_iff, none, refl, ◌++◌, ◌==◌, ◌∙◌, ◌∷◌, ◌≡◌, ◌≤◌,
}
use lumen_ai_support_agent.Prelude.Table.{count_where}
use lumen_ai_support_agent.Ticket.Models.{Db, TicketEvent}
use lumen_ai_support_agent.Ticket.Service.{Fresh}
use lumen_ai_support_agent.Ticket.History.Audit.{
  IsFresh, IsWellFormed, erase-replayed, note_step, replayed, replayed-append, status_at,
  status_at-moved, status_at-opened,
}

append_id :
    {fresh : Fresh} {db : Db} (e : TicketEvent)
    → e.id ≡ fresh.event_id
    → (k : String) → count_where (λ x. x.id == k) db.ticket_events ≤ 1
    → IsFresh fresh db
    → count_where (λ x. x.id == k) (db.ticket_events ++ e ∷ []) ≤ 1
append_id {fresh} {db} e i k h f = ground (
  arith,
  f.no_event,
  count_where-append (λ x. x.id == k) db.ticket_events (e ∷ []),
  eq_iff e.id k,
)

module _ {fresh : Fresh} {tenant_id : String} {db db' : Db} where
  -- A request keeps at most one ticket to a conversation. This one needs no fresh ids.
  pub Change-one_ticket :
      Change fresh tenant_id db db'
      → ((c : String) → count_where (λ t. t.conversation_id == c) db.tickets ≤ 1)
      → (c : String) → count_where (λ t. t.conversation_id == c) db'.tickets ≤ 1
  Change-one_ticket (same w) h c = ground (arith, h c)
  Change-one_ticket (opened t e minutes o l n w) h c = rw w (
      ground (
        arith,
        h c,
        n,
        count_where-append (λ r. r.conversation_id == c) db.tickets (t ∷ []),
        eq_iff t.conversation_id c,
      ))
  Change-one_ticket (moved ticket_id target actor_type actor_id t g s w) h c = rw w (
      omega (
        arith,
        h c,
        count_where-update_first (λ r. r.conversation_id == c) (λ r. r.id == t.id)
            (moved_ticket fresh target) db.tickets (λ x. refl),
      ))
  Change-one_ticket (noted t ticket_id body e g l w) h c = ground (arith, h c)
  Change-one_ticket (erased note_id e g n w) h c = ground (arith, h c)

  pub Change-event_ids :
      Change fresh tenant_id db db'
      → IsFresh fresh db
      → ((k : String) → count_where (λ e. e.id == k) db.ticket_events ≤ 1)
      → (k : String) → count_where (λ e. e.id == k) db'.ticket_events ≤ 1
  Change-event_ids (same w) f h k = ground (arith, h k)
  Change-event_ids (opened t e minutes o l n w) f h k = rw w (append_id e l.id k (h k) f)
  Change-event_ids (moved ticket_id target actor_type actor_id t g s w) f h k =
      rw w (append_id _ refl k (h k) f)
  Change-event_ids (noted t ticket_id body e g l w) f h k = rw w (append_id e l.id k (h k) f)
  Change-event_ids (erased note_id e g n w) f h k = rw w (
      omega (
        arith,
        h k,
        count_where-delete_where (λ x. x.id == k) (λ x. x.id == e.id) db.ticket_events,
      ))

  -- The row and the events of each ticket keep telling the same status.
  pub Change-audited :
      Change fresh tenant_id db db'
      → IsFresh fresh db
      → IsWellFormed db
      → (k : String) → replayed k none db'.ticket_events ≡ status_at k db'
  Change-audited (same w) f h k = rw w (h.audited k)
  Change-audited (opened t e minutes o l n w) f h k =
      rw w (rw (replayed-append, h.audited k) (status_at-opened f o l k))
  Change-audited (moved ticket_id target actor_type actor_id t g s w) f h k =
      rw w (
        rw (replayed-append, h.audited k) (status_at-moved fresh tenant_id ticket_id db target g k))
  Change-audited (noted t ticket_id body e g l w) f h k =
      rw w
        (rw replayed-append (note_step k _ e ((eq_iff e.event_type "note").1 l.kind) ∙ h.audited k))
  Change-audited (erased note_id e g n w) f h k =
      rw w (erase-replayed note_id tenant_id db g n (h.event_ids e.id) k ∙ h.audited k)

module _ {fresh : Fresh} {tenant_id : String} {db db' : Db} where
  Change-IsWellFormed :
      Change fresh tenant_id db db' → IsFresh fresh db → IsWellFormed db → IsWellFormed db'
  Change-IsWellFormed c f h = record {
    one_ticket = Change-one_ticket c h.one_ticket;
    event_ids = Change-event_ids c f h.event_ids;
    audited = Change-audited c f h;
  }

-- Each request's ids are new in the tables that it finds.
abbrev pub IsFreshRun : Db → List Request → Type 0
IsFreshRun db [] = Unit
IsFreshRun db (r ∷ rs) = IsFresh r.fresh db × IsFreshRun (perform r db) rs

-- From well-formed tables, after any requests whose generated ids are new: a conversation has at
-- most one ticket, an event id stands once, and replaying a ticket's events gives its status.
pub run-IsWellFormed :
    (db : Db) (rs : List Request) → IsWellFormed db → IsFreshRun db rs → IsWellFormed (run db rs)
unfolding run
run-IsWellFormed db [] h f = h
run-IsWellFormed db (r ∷ rs) h f =
    run-IsWellFormed (perform r db) rs (Change-IsWellFormed (perform-Change r db) f.0 h) f.1

-- Tables with no ticket and no event.
abbrev pub IsUnused : Db → Type 0
IsUnused db = (db.tickets ≡ []) × (db.ticket_events ≡ [])

pub IsUnused-IsWellFormed : (db : Db) → IsUnused db → IsWellFormed db
IsUnused-IsWellFormed db u = record {
  one_ticket = λ c. rw u.0 (omega arith);
  event_ids = λ k. rw u.1 (omega arith);
  audited = λ k. rw (u.0, u.1);
}
