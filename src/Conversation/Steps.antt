-- ===== src/Conversation/Steps.antt =====
-- Each call of conversation/service.py as a sequence of writes.
use lumen_ai_support_agent.Prelude.Exec.{Result-cases}
use lumen_ai_support_agent.Prelude.Table.Laws.{find_sound}
use lumen_ai_support_agent.Prelude.Table.Rows.{Among, select-Among}
use lumen_ai_support_agent.Conversation.Effects.{
  Effect, Effects, Move, flags, once, update-Effect, write_row-Effect,
}
use lumen_ai_support_agent.Conversation.Service.{
  PolicyResolver, assign_to_agent, auto_assign_after_escalate, claim, close,
  escalate_to_human_queue, get, is_claimable, return_to_ai,
}
use lumen_ai_support_agent.Assignment.{
  ConversationStatus, closed_status, open_status, pending_status,
}
use lumen_ai_support_agent.Prelude.{
  Bool, Bool-cases, List, Option, Option-cases, String, [], ap, arith, eq_iff, eq_refl, false, inl,
  inr, ltb, none, none≢some, refl, some, some-injective, subst, sym, true, ℕ, ◌&&◌, ◌==◌, ◌∷◌, ◌≡◌,
  ◌≤◌, ◌⊎◌,
}
use lumen_ai_support_agent.Prelude.Table.{count_where, find, select}
use lumen_ai_support_agent.Conversation.{ConversationRow, Store, status_eq}
use lumen_ai_support_agent.Conversation.Repository.{
  find_open_by_channel_customer, get_by_id_for_update, has_id, is_open_for, newest, set_state,
  update,
}

-- The primary key: no id stands twice.
unfoldable pub IsUnique : List ConversationRow → Type 0
IsUnique rows = (i : String) → count_where (has_id i) rows ≤ 1

Among-counted :
    (r : ConversationRow) (xs : List ConversationRow)
    → Among r xs
    → 1 ≤ count_where (has_id r.id) xs
Among-counted r [] a = absurd a
Among-counted r (x ∷ xs) (inl e) =
    let y : has_id r.id x ≡ true = subst (λ z. (x.id == z.id) ≡ true) e (eq_refl x.id) in
    ground (arith, y)
Among-counted r (x ∷ xs) (inr a) = ground (arith, Among-counted r xs a)

unique-find :
    (r : ConversationRow) (xs : List ConversationRow)
    → Among r xs
    → count_where (has_id r.id) xs ≤ 1
    → find (has_id r.id) xs ≡ some r
unique-find r [] a h = absurd a
unique-find r (x ∷ xs) (inl e) h =
    let y : has_id r.id x ≡ true = subst (λ z. (x.id == z.id) ≡ true) e (eq_refl x.id) in
    rw y (ap some e)
unique-find r (x ∷ xs) (inr a) h = elim (Bool-cases (has_id r.id x)) [
  | inl y ↦ let n = Among-counted r xs a in absurd (ground (arith, y, n))
  | inr n ↦ rw n (unique-find r xs a (ground (arith, n)))
]

newest-Among :
    (best : Option ConversationRow) (xs : List ConversationRow) (r : ConversationRow)
    → newest best xs ≡ some r
    → (best ≡ some r) ⊎ Among r xs
unfolding newest
newest-Among best [] r h = inl h
newest-Among none (x ∷ xs) r h = elim (newest-Among (some x) xs r h) [
  | inl e ↦ inr (inl (some-injective e))
  | inr a ↦ inr (inr a)
]
newest-Among (some b) (x ∷ xs) r h = elim (newest-Among _ xs r h) [
  | inl e ↦ elim (Bool-cases (ltb b.last_activity_at x.last_activity_at)) [
    | inl y ↦ inr (inl (some-injective (rw y at e)))
    | inr n ↦ inl (rw n at e)
  ]
  | inr a ↦ inr (inr a)
]

pub find_open_sound :
    (channel_id customer_external_id : String) (s : Store) (r : ConversationRow)
    → IsUnique s.rows
    → find_open_by_channel_customer channel_id customer_external_id s ≡ some r
    → (find (has_id r.id) s.rows ≡ some r) × (is_open_for channel_id customer_external_id r ≡ true)
unfolding find_open_by_channel_customer IsUnique
find_open_sound channel_id customer_external_id s r u h =
    elim (newest-Among none (select (is_open_for channel_id customer_external_id) s.rows) r h) [
      | inl e ↦ absurd (none≢some e)
      | inr a ↦
          let (b, matches) =
            select-Among (is_open_for channel_id customer_external_id) s.rows r a in
          (unique-find r s.rows b (u r.id), matches)
    ]

find-Among :
    (p : ConversationRow → Bool) (xs : List ConversationRow) (r : ConversationRow)
    → find p xs ≡ some r
    → Among r xs
find-Among p [] r h = absurd (none≢some h)
find-Among p (x ∷ xs) r h = elim (Bool-cases (p x)) [
  | inl y ↦ inl (some-injective (rw y at h))
  | inr n ↦ inr (find-Among p xs r (rw n at h))
]

pending_of : (st : ConversationStatus) → status_eq st pending_status ≡ true → st ≡ pending_status
pending_of open_status h = absurd (ground (arith, h))
pending_of pending_status h = refl
pending_of closed_status h = absurd (ground (arith, h))

-- The row that the locking lookup finds.
pub for_update_sound :
    (tenant_id conversation_id : String) (s : Store) (conv : ConversationRow)
    → IsUnique s.rows
    → get_by_id_for_update tenant_id conversation_id s ≡ some conv
    → (find (has_id conversation_id) s.rows ≡ some conv) × (conv.tenant_id ≡ tenant_id)
unfolding get_by_id_for_update IsUnique
for_update_sound tenant_id conversation_id s conv u e =
    let both = find_sound (λ r. r.id == conversation_id && r.tenant_id == tenant_id) s.rows e in
    let i : conv.id ≡ conversation_id = (eq_iff conv.id conversation_id).0 (ground (arith, both)) in
    let t : conv.tenant_id ≡ tenant_id =
      (eq_iff conv.tenant_id tenant_id).0 (ground (arith, both)) in
    let a = find-Among (λ r. r.id == conversation_id && r.tenant_id == tenant_id) s.rows conv e in
    (subst (λ j. find (has_id j) s.rows ≡ some conv) i (unique-find conv s.rows a (u conv.id)), t)

keeps_state :
    (st : ConversationStatus) (agent_id : Option String) (ai : Bool) (now : ℕ) (r : ConversationRow)
    → ((set_state st agent_id ai now r).id ≡ r.id)
      × ((set_state st agent_id ai now r).tenant_id ≡ r.tenant_id)
unfolding set_state
keeps_state st agent_id ai now r = (refl, refl)

module _ (tenant_id conversation_id : String) (now : ℕ) (s : Store) where
  pub assign_to_agent-Effect :
      {may : Bool} (agent_id : String)
      → Effect may tenant_id s (assign_to_agent tenant_id conversation_id agent_id now s).1
  unfolding assign_to_agent
  assign_to_agent-Effect agent_id = elim (Option-cases (get tenant_id conversation_id none s)) [
    | inl n ↦ rw (n, assign_to_agent) (Effect.unchanged refl)
    | inr (conv, e) ↦
        rw (e, assign_to_agent)
          (update-Effect tenant_id conversation_id s conv pending_status (some agent_id) false now e
            (Move.to_agent (flags conv) agent_id))
  ]

  pub return_to_ai-Effect : Effect true tenant_id s (return_to_ai tenant_id conversation_id now s).1
  unfolding return_to_ai
  return_to_ai-Effect = elim (Option-cases (get tenant_id conversation_id none s)) [
    | inl n ↦ rw (n, return_to_ai) (Effect.unchanged refl)
    | inr (conv, e) ↦
        rw (e, return_to_ai)
          (update-Effect tenant_id conversation_id s conv open_status none true now e
            (Move.to_ai (flags conv)))
  ]

  pub close-Effect : {may : Bool} → Effect may tenant_id s (close tenant_id conversation_id now s).1
  unfolding close
  close-Effect = elim (Option-cases (get tenant_id conversation_id none s)) [
    | inl n ↦ rw (n, close) (Effect.unchanged refl)
    | inr (conv, e) ↦
        rw (e, close)
          (update-Effect tenant_id conversation_id s conv closed_status conv.assigned_agent_id false
            now e (Move.to_closed (flags conv)))
  ]

  pub claim-Effect :
      {may : Bool} (agent_id : String)
      → IsUnique s.rows
      → Effect may tenant_id s (claim tenant_id conversation_id agent_id now s).1
  unfolding claim set_state
  claim-Effect {may} agent_id u =
      elim (Option-cases (get_by_id_for_update tenant_id conversation_id s)) [
        | inl n ↦ rw (n, claim) (Effect.unchanged refl)
        | inr (conv, e) ↦
            let (found, own) = for_update_sound tenant_id conversation_id s conv u e in
            elim (Bool-cases (is_claimable conv)) [
              | inl y ↦
                  let p : conv.status ≡ pending_status =
                    pending_of conv.status (ground (arith, y)) in
                  rw (e, claim, y)
                    (write_row-Effect tenant_id conversation_id s conv
                      (set_state conv.status (some agent_id) false now) found own
                      (keeps_state conv.status (some agent_id) false now)
                      (subst
                        (λ st.
                          Move may (flags conv)
                            (record { status = st; assigned = some agent_id; ai = false }))
                        (sym p) (Move.to_agent (flags conv) agent_id)))
              | inr n ↦ rw (e, claim, n) (Effect.unchanged refl)
            ]
      ]

  pub auto_assign-Effects :
      (policy : PolicyResolver)
      → Effects true tenant_id s (auto_assign_after_escalate policy tenant_id conversation_id now s)
  unfolding auto_assign_after_escalate
  auto_assign-Effects policy = elim (Option-cases (policy tenant_id s)) [
    | inl n ↦ rw (n, auto_assign_after_escalate) (Effects.done s)
    | inr (agent_id, e) ↦
        rw (e, auto_assign_after_escalate) (once s _ (assign_to_agent-Effect agent_id))
  ]

  -- What escalation leaves, when the row is found and written.
  pub escalate-written :
      (policy : PolicyResolver) (conv : ConversationRow)
      → get tenant_id conversation_id none s ≡ some conv
      → (s' : Store) × Effect true tenant_id s s'
        × (((escalate_to_human_queue policy tenant_id conversation_id now s).1 ≡ s')
            ⊎ ((escalate_to_human_queue policy tenant_id conversation_id now s).1
                ≡ auto_assign_after_escalate policy tenant_id conversation_id now s'))
  unfolding escalate_to_human_queue
  escalate-written policy conv e =
      let new = set_state pending_status none false now conv in
      (
        (update new s).1,
        update-Effect tenant_id conversation_id s conv pending_status none false now e
            (Move.to_queue (flags conv)),
        elim (Result-cases (update new s).0) [
          | inl (x, h) ↦ inl (rw (e, escalate_to_human_queue, h) refl)
          | inr (updated, h) ↦ elim (Option-cases updated) [
            | inl n ↦ inl (rw (e, escalate_to_human_queue, h, n) refl)
            | inr (row, o) ↦ inr (rw (e, escalate_to_human_queue, h, o) refl)
          ]
        ],
      )
