-- ===== src/Ticket/History/Status.antt =====
-- What a history does to the status of one ticket.
use lumen_ai_support_agent.Ticket.Lifecycle.{cancelled_final, closed_final, here, then, ◌⟶*◌}
use lumen_ai_support_agent.Ticket.Enums.{cancelled, closed}
use lumen_ai_support_agent.Ticket.History.{Request, perform, run}
use lumen_ai_support_agent.Prelude.{
  List, Option, String, [], arith, eq_iff, inl, inr, refl, some, subst, sym, true, ◌==◌, ◌∙◌, ◌∷◌,
  ◌≡◌, ◌⊎◌,
}
use lumen_ai_support_agent.Prelude.Table.{find}
use lumen_ai_support_agent.Prelude.Table.Laws.{find-append_some, find_sound, find-update_first}
use lumen_ai_support_agent.Ticket.StateMachine.{◌⟶◌}
use lumen_ai_support_agent.Ticket.Models.{Db, Ticket}
use lumen_ai_support_agent.Ticket.Repository.{get_by_id}
use lumen_ai_support_agent.Ticket.Service.{Fresh}
use lumen_ai_support_agent.Ticket.Service.Transition.{moved_ticket}
use lumen_ai_support_agent.Ticket.History.Change.{
  Change, erased, moved, noted, opened, perform-Change, same,
}

abbrev pub ticket_at : String → Db → Option Ticket
ticket_at k db = find (λ t. t.id == k) db.tickets

-- A row that the repository loads for a tenant is the row with that id, and is the tenant's.
pub get_by_id_lem :
    (ticket_id tenant_id : String) (db : Db) {t : Ticket}
    → get_by_id ticket_id tenant_id db ≡ some t
    → (ticket_at ticket_id db ≡ some t)
      × ((t.tenant_id == tenant_id) ≡ true)
      × (t.id ≡ ticket_id)
      × (ticket_at t.id db ≡ some t)
unfolding get_by_id
get_by_id_lem ticket_id tenant_id db {t} h =
    let found : ticket_at ticket_id db ≡ some t = ground arith in
    let is = (eq_iff t.id ticket_id).0 (find_sound _ db.tickets found) in
    (found, ground arith, is, subst (λ j. ticket_at j db ≡ some t) (sym is) found)

module _ {fresh : Fresh} {tenant_id : String} {db db' : Db} where
  -- One request leaves a ticket's status as it is, or moves it along one edge.
  pub Change-status :
      (k : String) {a : Ticket}
      → Change fresh tenant_id db db'
      → ticket_at k db ≡ some a
      → (b : Ticket) × (ticket_at k db' ≡ some b) × ((a.status ≡ b.status) ⊎ (a.status ⟶ b.status))
  Change-status k {a} (same e) h = (a, ground arith, inl refl)
  Change-status k {a} (opened t e minutes o l c w) h =
      (a, rw w (find-append_some (λ r. r.id == k) db.tickets (t ∷ []) h), inl refl)
  Change-status k {a} (moved ticket_id target actor_type actor_id t g s w) h =
      elim (find-update_first (λ r. r.id == k) (λ r. r.id == t.id) (moved_ticket fresh target)
        db.tickets (λ x. refl)) [
          | inl e ↦ (a, rw w (e ∙ h), inl refl)
          | inr (x, e, e', e'') ↦
              let (_, _, _, loaded) = get_by_id_lem ticket_id tenant_id db g in
              let it : a ≡ t = cc in (moved_ticket fresh target x, rw w e'', inr (rw it s))
        ]
  Change-status k {a} (noted t ticket_id body e g l w) h = (a, ground arith, inl refl)
  Change-status k {a} (erased note_id e g n w) h = (a, ground arith, inl refl)

-- Whatever the requests and whoever made them, a ticket that is there stays there, and its status
-- goes along the edges of the diagram.
pub run-⟶* :
    (k : String) (db : Db) (rs : List Request) {a : Ticket}
    → ticket_at k db ≡ some a
    → (b : Ticket) × (ticket_at k (run db rs) ≡ some b) × (a.status ⟶* b.status)
unfolding run
run-⟶* k db [] {a} h = (a, h, here)
run-⟶* k db (r ∷ rs) {a} h =
    let (b, found, edge) = Change-status k (perform-Change r db) h in
    let (c, found', path) = run-⟶* k (perform r db) rs found in
    elim edge [
      | inl e ↦ (c, found', subst (λ x. x ⟶* c.status) (sym e) path)
      | inr s ↦ (c, found', then s path)
    ]

-- Once closed, a ticket is closed after any further requests; so is a cancelled one.
pub run-final :
    (k : String) (db : Db) (rs : List Request) {a : Ticket}
    → ticket_at k db ≡ some a
    → (a.status ≡ closed) ⊎ (a.status ≡ cancelled)
    → (b : Ticket) × (ticket_at k (run db rs) ≡ some b) × (b.status ≡ a.status)
run-final k db rs {a} h final =
    let (b, found, path) = run-⟶* k db rs h in
    elim final [
      | inl c ↦ (b, found, closed_final path c ∙ sym c)
      | inr c ↦ (b, found, cancelled_final path c ∙ sym c)
    ]
