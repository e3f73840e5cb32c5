-- ===== src/Ticket/Service/Moved.antt =====
-- ticket/service.py: what `TicketService.transition` leaves in the tables, column by column.
use lumen_ai_support_agent.Ticket.Lifecycle.{sm_transition-⟶}
use lumen_ai_support_agent.Ticket.History.Status.{get_by_id_lem}
use lumen_ai_support_agent.Ticket.StateMachine.{◌⟶◌}
use lumen_ai_support_agent.Prelude.Table.Laws.{select-update_where}
use lumen_ai_support_agent.Prelude.Exec.{ok}
use lumen_ai_support_agent.Prelude.Table.Keys.{find-update_key}
use lumen_ai_support_agent.Prelude.{
  All, Bool, Bool-cases, List, Option, String, [], arith, eq_iff, eq_refl, false, inl, inr, none,
  not, refl, some, true, ℕ, ◌&&◌, ◌++◌, ◌==◌, ◌∷◌, ◌≡◌,
}
use lumen_ai_support_agent.Prelude.Table.{find, select}
use lumen_ai_support_agent.Ticket.Enums.{
  TicketStatus, cancelled, closed, resolved, status_eq, status_eq_iff,
}
use lumen_ai_support_agent.Ticket.Models.{Conversation, Db, Ticket, TicketEvent, status_payload}
use lumen_ai_support_agent.Ticket.Service.{Fresh, TicketService, transition}
use lumen_ai_support_agent.Ticket.Service.Transition.{
  moved_db, moved_ticket, transition_success, unlinked,
}

-- The row before and after: the new status, the stamps of the two final states, and nothing else.
pub record IsMoved (now : ℕ) (target : TicketStatus) (t t' : Ticket) : Type 0 where
  pub status : t'.status ≡ target
  pub resolved_set : target ≡ resolved → t'.resolved_at ≡ some now
  pub resolved_kept : ¬ (target ≡ resolved) → t'.resolved_at ≡ t.resolved_at
  pub closed_set : target ≡ closed → t'.closed_at ≡ some now
  pub closed_kept : ¬ (target ≡ closed) → t'.closed_at ≡ t.closed_at
  pub updated : t'.updated_at ≡ now
  pub kept :
      record t' {
        status = t.status;
        resolved_at = t.resolved_at;
        closed_at = t.closed_at;
        updated_at = t.updated_at;
      }
      ≡ t

-- The conversation that the ticket belongs to.
abbrev pub of_ticket : Ticket → Conversation → Bool
of_ticket t c = c.id == t.conversation_id && c.tenant_id == t.tenant_id

-- The tables before and after.
pub record IsWritten (t t' : Ticket) (event : TicketEvent) (unlinks : Bool) (db db' : Db)
    : Type 0 where
  pub stored : find (λ r. r.id == t.id) db'.tickets ≡ some t'
  pub others :
      (k : String)
      → (k == t.id) ≡ false
      → find (λ r. r.id == k) db'.tickets ≡ find (λ r. r.id == k) db.tickets
  pub logged : db'.ticket_events ≡ db.ticket_events ++ event ∷ []
  pub unlinked_own :
      unlinks ≡ true → All (λ c. of_ticket t c ≡ true → c.ticket_id ≡ none) db'.conversations
  pub unlinked_others :
      select (λ c. not (of_ticket t c)) db'.conversations
      ≡ select (λ c. not (of_ticket t c)) db.conversations
  pub linked : unlinks ≡ false → db'.conversations ≡ db.conversations
  pub policies : db'.sla_policies ≡ db.sla_policies

moved_ticket-IsMoved :
    (fresh : Fresh) (target : TicketStatus) (t : Ticket)
    → IsMoved fresh.now target t (moved_ticket fresh target t)
moved_ticket-IsMoved fresh target t = record {
  status = refl;
  resolved_set = λ e. rw e refl;
  resolved_kept = λ n. elim (Bool-cases (status_eq target resolved)) [
    | inl y ↦ absurd (n ((status_eq_iff target resolved).0 y))
    | inr m ↦ rw m refl
  ];
  closed_set = λ e. rw e refl;
  closed_kept = λ n. elim (Bool-cases (status_eq target closed)) [
    | inl y ↦ absurd (n ((status_eq_iff target closed).0 y))
    | inr m ↦ rw m refl
  ];
  updated = refl;
  kept = refl;
}

unlinked_own :
    (t : Ticket) (cs : List Conversation)
    → All (λ c. of_ticket t c ≡ true → c.ticket_id ≡ none) (unlinked t cs)
unlinked_own t [] = tt
unlinked_own t (c ∷ cs) = elim (Bool-cases (of_ticket t c)) [
  | inl y ↦ rw y ((λ z. refl), unlinked_own t cs)
  | inr n ↦ rw n ((λ z. absurd (ground (arith, n, z))), unlinked_own t cs)
]

module _ (svc : TicketService) (fresh : Fresh) (ticket_id : String) (current target : TicketStatus)
    (actor_type : String) (actor_id : Option String) (tenant_id : String) (db : Db) where
  moved_db-IsWritten :
      (t : Ticket)
      → find (λ r. r.id == t.id) db.tickets ≡ some t
      → IsWritten t
          (moved_ticket fresh target t)
          (record {
            id = fresh.event_id;
            tenant_id = t.tenant_id;
            ticket_id = ticket_id;
            actor_type = actor_type;
            actor_id = actor_id;
            event_type = "status_changed";
            payload = status_payload current target;
            created_at = fresh.now;
          })
          (status_eq target cancelled && svc.has_conv_repo)
          db
          (moved_db svc fresh ticket_id current target actor_type actor_id tenant_id db t)
  moved_db-IsWritten t loaded =
      let write = find-update_key (λ (r : Ticket). r.id) (moved_ticket fresh target) (λ x. refl) in
      record {
        stored = ground (arith, write t.id t.id db.tickets, loaded, eq_refl t.id);
        others = λ k n. ground (arith, write k t.id db.tickets, eq_iff k t.id, eq_iff t.id k);
        logged = refl;
        unlinked_own = λ y. rw y (unlinked_own t db.conversations);
        unlinked_others = elim (Bool-cases (status_eq target cancelled && svc.has_conv_repo)) [
          | inl y ↦
              rw y (select-update_where _ _ _ db.conversations (λ c own. rw own refl) (λ c. refl))
          | inr n ↦ rw n refl
        ];
        linked = λ n. rw n refl;
        policies = refl;
      }

  -- A call that returns has followed an edge of the diagram from the status it was given, and answers
  -- the tenant's ticket with the new status, the time as its last update and as the stamp of the
  -- resolved or closed status it moved to, and nothing else changed. The tables hold this row, the
  -- other rows as before and one more event with both statuses; on a cancellation by a service with
  -- the conversation repository, and only then, the conversation of the ticket has no ticket, and
  -- other conversations and the policies are as before.
  pub transition_moves :
      {t' : Ticket} {db' : Db}
      → transition svc fresh ticket_id current target actor_type actor_id tenant_id db
        ≡ (ok t', db')
      → (current ⟶ target)
        × (t : Ticket) × (find (λ r. r.id == ticket_id) db.tickets ≡ some t)
        × (t.tenant_id ≡ tenant_id)
        × IsMoved fresh.now target t t'
        × IsWritten t t'
            (record {
              id = fresh.event_id;
              tenant_id = t.tenant_id;
              ticket_id = ticket_id;
              actor_type = actor_type;
              actor_id = actor_id;
              event_type = "status_changed";
              payload = status_payload current target;
              created_at = fresh.now;
            })
            (status_eq target cancelled && svc.has_conv_repo)
            db
            db'
  transition_moves {t'} {db'} h =
      let (t, g, s, row, tables) =
        transition_success svc fresh ticket_id current target actor_type actor_id tenant_id db h in
      let (found, mine, is, loaded) = get_by_id_lem ticket_id tenant_id db g in
      let written = moved_db-IsWritten t loaded in
      (
        sm_transition-⟶ current target s,
        t,
        found,
        (eq_iff t.tenant_id tenant_id).0 mine,
        rw row (moved_ticket-IsMoved fresh target t),
        rw (row, tables) written,
      )
