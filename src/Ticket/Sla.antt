-- ===== src/Ticket/Sla.antt =====
-- Creating a ticket: the policy that sets the deadline, and when the database refuses.
use lumen_ai_support_agent.Ticket.StateMachine.{integrity_error}
use lumen_ai_support_agent.Prelude.{
  All, Bool, Bool-cases, List, Option, Option-cases, String, [], arith, false, inl, inr, ltb,
  ltb→lt, none, none≢some, refl, some, some-injective, true, ◌&&◌, ◌*◌, ◌+◌, ◌==◌, ◌∷◌, ◌≡◌, ◌≤◌,
  ◌⊎◌,
}
use lumen_ai_support_agent.Prelude.Exec.{err, ok}
use lumen_ai_support_agent.Prelude.Table.{count_where, find, select}
use lumen_ai_support_agent.Prelude.Table.Rows.{Among, find-exists, find-none_unique, select-Among}
use lumen_ai_support_agent.Ticket.Enums.{TicketPriority, priority_eq}
use lumen_ai_support_agent.Ticket.Models.{Db, SlaPolicy, Ticket}
use lumen_ai_support_agent.Ticket.Repository
use lumen_ai_support_agent.Ticket.Repository.{find_sla_policy, get_for_conversation, newest}
use lumen_ai_support_agent.Ticket.Service
use lumen_ai_support_agent.Ticket.Service.{Fresh, TicketService}

-- A policy of the tenant for the priority.
abbrev pub applies : String → TicketPriority → SlaPolicy → Bool
applies tenant_id priority p = p.tenant_id == tenant_id && priority_eq p.priority priority

-- No policy of the list is newer than the chosen one; where none is chosen there is none.
abbrev IsNewest : List SlaPolicy → Option SlaPolicy → Type 0
IsNewest ps none = ps ≡ []
IsNewest ps (some p) = All (λ q. q.created_at ≤ p.created_at) ps

newest_bound :
    (b : SlaPolicy) (ps : List SlaPolicy)
    → (p : SlaPolicy) × (newest (some b) ps ≡ some p)
      × (b.created_at ≤ p.created_at)
      × All (λ q. q.created_at ≤ p.created_at) ps
newest_bound b [] = (b, refl, omega arith, tt)
newest_bound b (q ∷ ps) = elim (Bool-cases (ltb b.created_at q.created_at)) [
  | inl y ↦
      let (p, e, l, a) = newest_bound q ps in
      (p, rw y e, omega (arith, ltb→lt b.created_at q.created_at y), (l, a))
  | inr n ↦
      let (p, e, l, a) = newest_bound b ps in
      let below : q.created_at ≤ b.created_at = ground arith in (p, rw n e, l, (omega arith, a))
]

newest-IsNewest : (ps : List SlaPolicy) → IsNewest ps (newest none ps)
newest-IsNewest [] = refl
newest-IsNewest (b ∷ ps) = let (p, e, l, a) = newest_bound b ps in rw e (l, a)

newest-Among :
    (best : Option SlaPolicy) (ps : List SlaPolicy) {p : SlaPolicy}
    → newest best ps ≡ some p
    → (best ≡ some p) ⊎ Among p ps
newest-Among best [] h = inl h
newest-Among none (q ∷ ps) h = elim (newest-Among (some q) ps h) [
  | inl e ↦ inr (inl (some-injective e))
  | inr a ↦ inr (inr a)
]
newest-Among (some b) (q ∷ ps) h = elim (Bool-cases (ltb b.created_at q.created_at)) [
  | inl y ↦ elim (newest-Among (some q) ps (rw y at h)) [
    | inl e ↦ inr (inl (some-injective e))
    | inr a ↦ inr (inr a)
  ]
  | inr n ↦ elim (newest-Among (some b) ps (rw n at h)) [ inl e ↦ inl e | inr a ↦ inr (inr a) ]
]

newest_stored :
    (f : SlaPolicy → Bool) (ps : List SlaPolicy) {p : SlaPolicy}
    → newest none (select f ps) ≡ some p
    → Among p ps × (f p ≡ true)
newest_stored f ps {p} h = elim (newest-Among none (select f ps) h) [
  | inl e ↦ absurd (none≢some e)
  | inr a ↦ select-Among f ps p a
]

-- A created ticket's deadline is the response time of a stored policy of the tenant for the priority,
-- than which the tenant has no newer one for it, and the default where the tenant has none.
pub create_deadline :
    (svc : TicketService) (fresh : Fresh) (tenant_id conversation_id subject : String)
    (category : Option String) (priority : TicketPriority) (db : Db) {t : Ticket}
    → (Service.create svc fresh tenant_id conversation_id subject category priority db).0 ≡ ok t
    → ((p : SlaPolicy) × Among p db.sla_policies
        × (applies tenant_id priority p ≡ true)
        × All
            (λ q. q.created_at ≤ p.created_at)
            (select (applies tenant_id priority) db.sla_policies)
        × (t.sla_deadline_at ≡ some (fresh.now + p.first_response_minutes * 60)))
      ⊎ ((select (applies tenant_id priority) db.sla_policies ≡ [])
          × (t.sla_deadline_at ≡ some (fresh.now + svc.default_minutes * 60)))
unfolding Service.create find_sla_policy Repository.create
create_deadline svc fresh tenant_id conversation_id subject category priority db {t} h =
    let policies = select (applies tenant_id priority) db.sla_policies in
    elim (Option-cases (newest none policies)) [
      | inl e ↦ inr (rw e at (newest-IsNewest policies), ground arith)
      | inr (p, e) ↦
          let (stored, mine) = newest_stored (applies tenant_id priority) db.sla_policies e in
          inl (p, stored, mine, rw e at (newest-IsNewest policies), ground arith)
    ]

-- Where the one ticket of a conversation is another tenant's, `get_or_create_for_conversation` serves
-- no ticket: it raises the integrity error and leaves the tables as they were.
pub get_or_create_collides :
    (svc : TicketService) (fresh : Fresh) (tenant_id conversation_id subject : String) (db : Db)
    {t : Ticket}
    → count_where (λ r. r.conversation_id == conversation_id) db.tickets ≤ 1
    → find (λ r. r.conversation_id == conversation_id) db.tickets ≡ some t
    → (t.tenant_id == tenant_id) ≡ false
    → Service.get_or_create_for_conversation svc fresh tenant_id conversation_id subject db
      ≡ (err integrity_error, db)
unfolding Service.get_or_create_for_conversation Service.create Repository.create
    get_for_conversation
get_or_create_collides svc fresh tenant_id conversation_id subject db {t} one found foreign =
    let none_own =
      find-none_unique (λ (r : Ticket). r.conversation_id == conversation_id)
        (λ (r : Ticket). r.conversation_id == conversation_id && r.tenant_id == tenant_id)
        (λ x y. ground (arith, y)) db.tickets one found (ground (arith, foreign)) in
    let taken =
      find-exists (λ (r : Ticket). r.conversation_id == conversation_id) db.tickets found in
    ground (arith, none_own, taken)
