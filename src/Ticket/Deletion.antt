-- ===== src/Ticket/Deletion.antt =====
-- ticket/repository.py, delete_by_id: the deletion of a cancelled ticket.
use lumen_ai_support_agent.Prelude.Table.Laws.{find-update_first_self}
use lumen_ai_support_agent.Prelude.{
  All, Bool-cases, List, Option, String, [], arith, eq_iff, eq_refl, false, inl, inr, is_text, none,
  refl, some, subst, true, ◌==◌, ◌∷◌, ◌≡◌,
}
use lumen_ai_support_agent.Prelude.Exec.{ok}
use lumen_ai_support_agent.Prelude.Table.{exists, find, update_first}
use lumen_ai_support_agent.Prelude.Table.Rows.{find-delete_where}
use lumen_ai_support_agent.Ticket.Enums.{TicketStatus, cancelled}
use lumen_ai_support_agent.Ticket.Models.{Conversation, Db, Ticket}
use lumen_ai_support_agent.Ticket.Repository.{delete_by_id, get_by_id}
use lumen_ai_support_agent.Ticket.Service.{Fresh, TicketService, transition}
use lumen_ai_support_agent.Ticket.Service.Transition.{moved_ticket, transition_success, unlinked}
use lumen_ai_support_agent.Ticket.History.Status.{get_by_id_lem, ticket_at}

-- Only the ticket's own conversation points back at it.
abbrev pub IsLinkedBack : Ticket → List Conversation → Type 0
IsLinkedBack t = All (λ c.
    is_text c.ticket_id t.id ≡ true → (c.id ≡ t.conversation_id) × (c.tenant_id ≡ t.tenant_id))

unlinked_none :
    (t : Ticket) (cs : List Conversation)
    → IsLinkedBack t cs
    → exists (λ c. is_text c.ticket_id t.id) (unlinked t cs) ≡ false
unlinked_none t [] l = refl
unlinked_none t (c ∷ cs) l = elim (Bool-cases (is_text c.ticket_id t.id)) [
  | inl y ↦
      let (its, tenant) = l.0 y in
      ground (
        arith,
        (eq_iff c.id t.conversation_id).1 its,
        (eq_iff c.tenant_id t.tenant_id).1 tenant,
        unlinked_none t cs l.1,
      )
  | inr n ↦ ground (arith, unlinked_none t cs l.1)
]

-- The tables after the write: the ticket is still the tenant's, and nothing points at it.
moved-loaded :
    (fresh : Fresh) (target : TicketStatus) (ticket_id tenant_id : String) (db db' : Db)
    {t : Ticket}
    → get_by_id ticket_id tenant_id db ≡ some t
    → db'.tickets ≡ update_first (λ r. r.id == t.id) (moved_ticket fresh target) db.tickets
    → get_by_id ticket_id tenant_id db' ≡ some (moved_ticket fresh target t)
moved-loaded fresh target ticket_id tenant_id db db' {t} g w =
    let (_, mine, is, loaded) = get_by_id_lem ticket_id tenant_id db g in
    let row =
      find-update_first_self (λ r. r.id == t.id) (moved_ticket fresh target) db.tickets
        (eq_refl t.id) loaded in
    let row' : ticket_at ticket_id db' ≡ some (moved_ticket fresh target t) = rw w (
      subst
        (λ j.
          find (λ r. r.id == j)
            (update_first (λ r. r.id == t.id) (moved_ticket fresh target) db.tickets)
          ≡ some (moved_ticket fresh target t))
        is row) in
    unfold get_by_id in ground arith

-- DELETE of a ticket that the tenant sees and nothing points at.
delete_by_id_lem :
    (ticket_id tenant_id : String) (db : Db) {t : Ticket}
    → get_by_id ticket_id tenant_id db ≡ some t
    → exists (λ c. is_text c.ticket_id ticket_id) db.conversations ≡ false
    → ((delete_by_id ticket_id tenant_id db).0 ≡ ok true)
      × (ticket_at ticket_id (delete_by_id ticket_id tenant_id db).1 ≡ none)
unfolding delete_by_id
delete_by_id_lem ticket_id tenant_id db g free =
    (ground arith, ground (arith, find-delete_where (λ t. t.id == ticket_id) db.tickets))

module _ (svc : TicketService) (fresh : Fresh) (ticket_id : String) (current : TicketStatus)
    (actor_type : String) (actor_id : Option String) (tenant_id : String) (db : Db) where
  -- Where only the ticket's own conversation points back at it, a cancellation by a service that has
  -- the conversation repository lets the tenant delete the ticket: the deletion answers True, raising
  -- nothing, and the ticket is gone.
  pub delete_by_id-cancelled :
      {t t' : Ticket} {db' : Db}
      → svc.has_conv_repo ≡ true
      → get_by_id ticket_id tenant_id db ≡ some t
      → IsLinkedBack t db.conversations
      → transition svc fresh ticket_id current cancelled actor_type actor_id tenant_id db
        ≡ (ok t', db')
      → ((delete_by_id ticket_id tenant_id db').0 ≡ ok true)
        × (ticket_at ticket_id (delete_by_id ticket_id tenant_id db').1 ≡ none)
  delete_by_id-cancelled {t} {t'} {db'} repo g linked h =
      let (t₀, g₀, m, e, w) =
        transition_success svc fresh ticket_id current cancelled actor_type actor_id tenant_id db
          h in
      let (_, mine, is, loaded) = get_by_id_lem ticket_id tenant_id db g in
      let same_row : t ≡ t₀ = cc in
      let tickets : db'.tickets
          ≡ update_first (λ r. r.id == t.id) (moved_ticket fresh cancelled) db.tickets =
        rw (w, same_row) in
      let links : db'.conversations ≡ unlinked t db.conversations = rw (w, repo, same_row) in
      let free : exists (λ c. is_text c.ticket_id ticket_id) db'.conversations ≡ false = rw links (
        subst (λ j. exists (λ c. is_text c.ticket_id j) (unlinked t db.conversations) ≡ false) is
          (unlinked_none t db.conversations linked)) in
      delete_by_id_lem ticket_id tenant_id db'
        (moved-loaded fresh cancelled ticket_id tenant_id db db' g tickets) free
