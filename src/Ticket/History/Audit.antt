-- ===== src/Ticket/History/Audit.antt =====
-- The audit trail of ticket/service.py: what replaying the events of a ticket gives.

use lumen_ai_support_agent.Ticket.Service.Transition.{moved_ticket}
use lumen_ai_support_agent.Prelude.Table.Laws.{
  find-append_none, find-append_skip, find_sound, find-update_first, find-update_first_self,
  select-delete_where,
}
use lumen_ai_support_agent.Ticket.Repository.{get_by_id, get_event_by_id}
use lumen_ai_support_agent.Ticket.History.Change.{IsLogged, IsOpened}
use mathlib.Core.Option
use lumen_ai_support_agent.Prelude.{
  Bool, Bool-cases, List, Option, String, [], ap, arith, eq_iff, eq_refl, if◌then◌else◌, inl, inr,
  none, not, refl, some, subst, sym, true, ◌&&◌, ◌++◌, ◌==◌, ◌∙◌, ◌∷◌, ◌≡◌, ◌≤◌,
}
use lumen_ai_support_agent.Prelude.Table.{count_where, delete_where, find, select, update_first}
use lumen_ai_support_agent.Ticket.Enums.{TicketStatus, new}
use lumen_ai_support_agent.Ticket.Models.{Db, Payload, Ticket, TicketEvent, status_payload}
use lumen_ai_support_agent.Ticket.Service.{Fresh}
use lumen_ai_support_agent.Ticket.History.Status.{get_by_id_lem, ticket_at}

-- The status that a `status_changed` payload names.
abbrev pub target_of : Option TicketStatus → Payload → Option TicketStatus
target_of s (status_payload from to) = some to
target_of s _ = s

abbrev pub replay_event : Option TicketStatus → String → Payload → Option TicketStatus
replay_event s event_type payload =
    if event_type == "created"
    then some new
    else if event_type == "status_changed"
    then target_of s payload
    else s

abbrev pub replay_step : String → Option TicketStatus → TicketEvent → Option TicketStatus
replay_step k s e = if e.ticket_id == k then replay_event s e.event_type e.payload else s

-- The status of ticket `k` by its events, read in the order in which they were written.
abbrev pub replayed : String → Option TicketStatus → List TicketEvent → Option TicketStatus
replayed k s [] = s
replayed k s (e ∷ es) = replayed k (replay_step k s e) es

abbrev pub is_system_event : TicketEvent → Bool
is_system_event e = not (e.event_type == "note")

pub replayed-append :
    (k : String) (s : Option TicketStatus) (es fs : List TicketEvent)
    → replayed k s (es ++ fs) ≡ replayed k (replayed k s es) fs
replayed-append k s [] fs = refl
replayed-append k s (e ∷ es) fs = replayed-append k (replay_step k s e) es fs

pub note_step :
    (k : String) (s : Option TicketStatus) (e : TicketEvent)
    → (e.event_type == "note") ≡ true
    → replay_step k s e ≡ s
note_step k s e h =
    let kind : replay_event s e.event_type e.payload ≡ s =
      subst (λ x. replay_event s x e.payload ≡ s) (sym ((eq_iff e.event_type "note").0 h)) refl in
    ground (arith, kind)

-- Notes do not count.
replayed-select :
    (k : String) (s : Option TicketStatus) (es : List TicketEvent)
    → replayed k s (select is_system_event es) ≡ replayed k s es
replayed-select k s [] = refl
replayed-select k s (e ∷ es) = elim (Bool-cases (e.event_type == "note")) [
  | inl y ↦ rw y (replayed-select k s es ∙ ap (λ x. replayed k x es) (sym (note_step k s e y)))
  | inr n ↦ rw n (replayed-select k (replay_step k s e) es)
]

abbrev pub status_at : String → Db → Option TicketStatus
status_at k db = Option.map (λ (t : Ticket). t.status) (ticket_at k db)

-- What holds of the tables between two requests.
pub record IsWellFormed (db : Db) : Type 0 where
  pub one_ticket : (c : String) → count_where (λ t. t.conversation_id == c) db.tickets ≤ 1
  pub event_ids : (k : String) → count_where (λ e. e.id == k) db.ticket_events ≤ 1
  pub audited : (k : String) → replayed k none db.ticket_events ≡ status_at k db

-- The generated ids are new.
pub record IsFresh (fresh : Fresh) (db : Db) : Type 0 where
  pub no_ticket : ticket_at fresh.ticket_id db ≡ none
  pub no_event : count_where (λ e. e.id == fresh.event_id) db.ticket_events ≡ 0

created_step :
    (k : String) (s : Option TicketStatus) (e : TicketEvent)
    → e.event_type ≡ "created"
    → replay_step k s e ≡ (if e.ticket_id == k then some new else s)
created_step k s e h =
    let kind : replay_event s e.event_type e.payload ≡ some new =
      subst (λ x. replay_event s x e.payload ≡ some new) (sym h) refl in
    ground (arith, kind)

pub status_at-opened :
    {fresh : Fresh} {tenant_id : String} {db : Db} {t : Ticket} {e : TicketEvent}
    {payload : Payload}
    → IsFresh fresh db
    → IsOpened fresh tenant_id t
    → IsLogged fresh tenant_id t.id "created" payload e
    → (k : String)
    → replay_step k (status_at k db) e
      ≡ Option.map (λ (r : Ticket). r.status) (find (λ r. r.id == k) (db.tickets ++ t ∷ []))
status_at-opened {fresh} {db = db} {t} {e} f o l k =
    created_step k (status_at k db) e l.kind ∙ elim (Bool-cases (t.id == k)) [
      | inl y ↦
          let same_id : k ≡ fresh.ticket_id = sym ((eq_iff t.id k).0 y) ∙ o.id in
          let absent : ticket_at k db ≡ none =
            subst (λ j. ticket_at j db ≡ none) (sym same_id) f.no_ticket in
          rw (find-append_none _ db.tickets (t ∷ []) absent, l.ticket, y) (ap some (sym o.status))
      | inr n ↦ rw (find-append_skip _ db.tickets t n, l.ticket, n)
    ]

pub status_at-moved :
    (fresh : Fresh) (tenant_id ticket_id : String) (db : Db) (target : TicketStatus) {t : Ticket}
    → get_by_id ticket_id tenant_id db ≡ some t
    → (k : String)
    → (if ticket_id == k then some target else status_at k db)
      ≡ Option.map
          (λ (r : Ticket). r.status)
          (find
            (λ r. r.id == k)
            (update_first (λ r. r.id == t.id) (moved_ticket fresh target) db.tickets))
status_at-moved fresh tenant_id ticket_id db target {t} g k =
    let (_, _, is, loaded) = get_by_id_lem ticket_id tenant_id db g in
    elim (Bool-cases (ticket_id == k)) [
      | inl y ↦
          let same_id : t.id ≡ k = is ∙ (eq_iff ticket_id k).0 y in
          let moved_row =
            find-update_first_self (λ r. r.id == t.id) (moved_ticket fresh target) db.tickets
              (eq_refl t.id) loaded in
          rw y (
            subst
              (λ j.
                some target
                ≡ Option.map (λ (r : Ticket). r.status)
                    (find (λ r. r.id == j)
                      (update_first (λ r. r.id == t.id) (moved_ticket fresh target) db.tickets)))
              same_id (rw moved_row))
      | inr n ↦
          elim (find-update_first (λ r. r.id == k) (λ r. r.id == t.id) (moved_ticket fresh target)
            db.tickets (λ x. refl)) [
              | inl e ↦ rw (n, e)
              | inr (x, e, e', e'') ↦
                  let mine : (t.id == k) ≡ true = find_sound _ db.tickets (e ∙ sym e' ∙ loaded) in
                  cc
            ]
    ]

pub erase-select :
    (note_id tenant_id : String) (db : Db) {e : TicketEvent}
    → get_event_by_id note_id tenant_id db ≡ some e
    → e.event_type ≡ "note"
    → count_where (λ x. x.id == e.id) db.ticket_events ≤ 1
    → select is_system_event (delete_where (λ x. x.id == e.id) db.ticket_events)
      ≡ select is_system_event db.ticket_events
unfolding get_event_by_id
erase-select note_id tenant_id db {e} g n c =
    let found : (e.id == note_id && e.tenant_id == tenant_id) ≡ true =
      find_sound _ db.ticket_events g in
    let its_id : e.id ≡ note_id = (eq_iff e.id note_id).0 (ground arith) in
    select-delete_where is_system_event (λ x. x.id == e.id)
      (λ x. x.id == note_id && x.tenant_id == tenant_id) db.ticket_events c
      (λ x h. rw its_id (ground arith)) g (ap not ((eq_iff e.event_type "note").1 n))

-- Only the note goes.
pub erase-replayed :
    (note_id tenant_id : String) (db : Db) {e : TicketEvent}
    → get_event_by_id note_id tenant_id db ≡ some e
    → e.event_type ≡ "note"
    → count_where (λ x. x.id == e.id) db.ticket_events ≤ 1
    → (k : String)
    → replayed k none (delete_where (λ x. x.id == e.id) db.ticket_events)
      ≡ replayed k none db.ticket_events
erase-replayed note_id tenant_id db {e} g n c k =
    sym (replayed-select k none (delete_where (λ x. x.id == e.id) db.ticket_events))
    ∙ ap (replayed k none) (erase-select note_id tenant_id db g n c)
    ∙ replayed-select k none db.ticket_events
