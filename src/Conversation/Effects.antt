-- ===== src/Conversation/Effects.antt =====
-- What the calls of conversation/service.py do to the rows: the moves of a conversation between the
-- AI, the queue and an agent, as a step relation.
use lumen_ai_support_agent.Prelude.Exec.{err, ok}
use lumen_ai_support_agent.Prelude.Table.Laws.{find_sound}
use lumen_ai_support_agent.Prelude.{
  Bool, Bool-cases, List, Option, Option-cases, String, [], ap, eq_iff, false, if◌then◌else◌, inl,
  inr, none, none≢some, not, refl, some, some-injective, subst, sym, true, ℕ, ◌++◌, ◌==◌, ◌∙◌, ◌∷◌,
  ◌≡◌,
}
use lumen_ai_support_agent.Prelude.Table.{exists, find, update_first}
use lumen_ai_support_agent.Assignment.{
  ConversationStatus, closed_status, open_status, pending_status,
}
use lumen_ai_support_agent.Conversation.{ConversationRow, Store, integrity_error}
use lumen_ai_support_agent.Conversation.Repository.{
  get_by_id, has_id, refused, set_state, update, write_row,
}
use lumen_ai_support_agent.Conversation.Service.{get, is_visible}

-- The status, the assigned agent and whether the AI handles the conversation.
pub record Flags : Type 0 where
  pub status : ConversationStatus
  pub assigned : Option String
  pub ai : Bool

abbrev pub flags : ConversationRow → Flags
flags r = record { status = r.status; assigned = r.assigned_agent_id; ai = r.ai_handling }

-- A move; the first index tells whether it may take the conversation from its agent.
pub data Move : Bool → Flags → Flags → Type 0 where
  to_agent :
      {may : Bool} (f : Flags) (agent_id : String)
      → Move may f (record { status = pending_status; assigned = some agent_id; ai = false })
  to_queue :
      (f : Flags) → Move true f (record { status = pending_status; assigned = none; ai = false })
  to_ai : (f : Flags) → Move true f (record { status = open_status; assigned = none; ai = true })
  to_closed :
      {may : Bool} (f : Flags)
      → Move may f (record { status = closed_status; assigned = f.assigned; ai = false })
  stay : {may : Bool} (f : Flags) → Move may f f

-- One write: a conversation of the tenant moves and keeps its keys, or a new one is opened with the AI.
pub data Effect (may : Bool) (tenant_id : String) (s s' : Store) : Type 0 where
  unchanged : s'.rows ≡ s.rows → Effect may tenant_id s s'
  opened :
      (new : ConversationRow)
      → new.tenant_id ≡ tenant_id
      → flags new ≡ record { status = open_status; assigned = none; ai = true }
      → exists (has_id new.id) s.rows ≡ false
      → s'.rows ≡ s.rows ++ new ∷ []
      → Effect may tenant_id s s'
  moved :
      (old : ConversationRow) (f : ConversationRow → ConversationRow)
      → find (has_id old.id) s.rows ≡ some old
      → old.tenant_id ≡ tenant_id
      → ((r : ConversationRow) → ((f r).id ≡ r.id) × ((f r).tenant_id ≡ r.tenant_id))
      → Move may (flags old) (flags (f old))
      → s'.rows ≡ update_first (has_id old.id) f s.rows
      → Effect may tenant_id s s'

-- Writes one after the other.
pub data Effects (may : Bool) (tenant_id : String) : Store → Store → Type 0 where
  done : (s : Store) → Effects may tenant_id s s
  then :
      (s s' s'' : Store)
      → Effect may tenant_id s s'
      → Effects may tenant_id s' s''
      → Effects may tenant_id s s''

abbrev pub once :
    {may : Bool} {tenant_id : String} (s s' : Store)
    → Effect may tenant_id s s'
    → Effects may tenant_id s s'
once s s' e = Effects.then s s' s' e (Effects.done s')

-- `get` without a viewer, where the row is found.
get-found :
    (tenant_id conversation_id : String) (s : Store) (conv : ConversationRow)
    → find (has_id conversation_id) s.rows ≡ some conv
    → get tenant_id conversation_id none s
      ≡ (if not (conv.tenant_id == tenant_id) then none else some conv)
unfolding get get_by_id is_visible
get-found tenant_id conversation_id s conv h = rw (h, get, get_by_id) refl

get-missing :
    (tenant_id conversation_id : String) (s : Store)
    → find (has_id conversation_id) s.rows ≡ none
    → get tenant_id conversation_id none s ≡ none
unfolding get get_by_id is_visible
get-missing tenant_id conversation_id s h = rw (h, get, get_by_id) refl

pub own_id :
    (conversation_id : String) (rows : List ConversationRow) (conv : ConversationRow)
    → find (has_id conversation_id) rows ≡ some conv
    → conversation_id ≡ conv.id
own_id conversation_id rows conv h =
    sym ((eq_iff conv.id conversation_id).0 (find_sound (has_id conversation_id) rows h))

-- What a lookup finds is the stored row, of the tenant.
pub get_sound :
    (tenant_id conversation_id : String) (s : Store) (conv : ConversationRow)
    → get tenant_id conversation_id none s ≡ some conv
    → (find (has_id conversation_id) s.rows ≡ some conv)
      × (find (has_id conv.id) s.rows ≡ some conv)
      × (conv.tenant_id ≡ tenant_id)
unfolding get get_by_id is_visible
get_sound tenant_id conversation_id s conv h =
    elim (Option-cases (find (has_id conversation_id) s.rows)) [
      | inl n ↦ absurd (none≢some (sym (get-missing tenant_id conversation_id s n) ∙ h))
      | inr (c, e) ↦
          let g = sym (get-found tenant_id conversation_id s c e) ∙ h in
          elim (Bool-cases (c.tenant_id == tenant_id)) [
            | inl y ↦
                let c≡conv : c ≡ conv = some-injective (rw y at g) in
                let found = e ∙ ap some c≡conv in
                (
                  found,
                  subst (λ i. find (has_id i) s.rows ≡ some conv)
                      (own_id conversation_id s.rows conv found) found,
                  rw (← c≡conv) ((eq_iff c.tenant_id tenant_id).0 y),
                )
            | inr n ↦ absurd (none≢some (rw n at g))
          ]
    ]

update-found :
    (new old : ConversationRow) (s : Store)
    → find (has_id new.id) s.rows ≡ some old
    → update new s ≡ (
        let set = set_state new.status new.assigned_agent_id new.ai_handling new.last_activity_at in
        if refused (set old) s.rows
        then (err integrity_error, s)
        else (ok (some (set old)), write_row new.id set s))
unfolding update
update-found new old s h = rw (h, update) refl

-- The write of a found row's new state.
pub update-Effect :
    {may : Bool} (tenant_id conversation_id : String) (s : Store) (conv : ConversationRow)
    (st : ConversationStatus) (agent_id : Option String) (ai : Bool) (now : ℕ)
    → get tenant_id conversation_id none s ≡ some conv
    → Move may (flags conv) (record { status = st; assigned = agent_id; ai = ai })
    → Effect may tenant_id s (update (set_state st agent_id ai now conv) s).1
unfolding write_row set_state
update-Effect tenant_id conversation_id s conv st agent_id ai now h m =
    let new = set_state st agent_id ai now conv in
    let (_, found, own) = get_sound tenant_id conversation_id s conv h in
    rw (update-found new conv s found) (elim (Bool-cases (refused new s.rows)) [
      | inl y ↦ rw y (Effect.unchanged refl)
      | inr n ↦
          rw n
            (Effect.moved conv (set_state st agent_id ai now) found own (λ r. (refl, refl)) m refl)
    ])

pub write_row-Effect :
    {may : Bool} (tenant_id conversation_id : String) (s : Store) (conv : ConversationRow)
    (f : ConversationRow → ConversationRow)
    → find (has_id conversation_id) s.rows ≡ some conv
    → conv.tenant_id ≡ tenant_id
    → ((r : ConversationRow) → ((f r).id ≡ r.id) × ((f r).tenant_id ≡ r.tenant_id))
    → Move may (flags conv) (flags (f conv))
    → Effect may tenant_id s (write_row conversation_id f s)
unfolding write_row
write_row-Effect tenant_id conversation_id s conv f h t keeps m =
    let e = own_id conversation_id s.rows conv h in
    Effect.moved conv f (subst (λ i. find (has_id i) s.rows ≡ some conv) e h) t keeps m
      (ap (λ i. update_first (has_id i) f s.rows) e)
