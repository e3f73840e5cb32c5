-- ===== src/Conversation/Calls.antt =====
-- Every call of conversation/service.py leaves the rows as a sequence of writes does.
use lumen_ai_support_agent.Prelude.Exec.{err, ok}
use lumen_ai_support_agent.Prelude.{
  Bool, Bool-cases, Option, Option-cases, String, [], ap, arith, eq_iff, false, inl, inr, none,
  refl, some, true, ℕ, ◌++◌, ◌==◌, ◌||◌, ◌∙◌, ◌∷◌, ◌≡◌, ◌⊎◌,
}
use lumen_ai_support_agent.Prelude.Table.{exists, find, update_first}
use lumen_ai_support_agent.Conversation.{ConversationRow, MessageRole, Store, integrity_error}
use lumen_ai_support_agent.Conversation.Repository.{
  create, find_open_by_channel_customer, has_id, refused, touch_last_activity, write_row,
}
use lumen_ai_support_agent.Conversation.Service.{
  PolicyResolver, escalate_to_human_queue, find_or_create_for_inbound, get, opened_row,
}
use lumen_ai_support_agent.Conversation.Messages.{is_customer, record_message}
use lumen_ai_support_agent.Conversation.Requests.{Call, Request, perform, perform_call}
use lumen_ai_support_agent.Conversation.Effects.{
  Effect, Effects, Move, flags, get_sound, once, own_id, write_row-Effect,
}
use lumen_ai_support_agent.Conversation.Steps.{
  IsUnique, assign_to_agent-Effect, auto_assign-Effects, claim-Effect, close-Effect,
  escalate-written, find_open_sound, return_to_ai-Effect,
}
use lumen_ai_support_agent.Ticket.Service.{Fresh, TicketService}

module _ (tenant_id : String) (now : ℕ) (s : Store) where
  escalate-Effects :
      (policy : PolicyResolver) (conversation_id : String)
      → Effects true tenant_id s (escalate_to_human_queue policy tenant_id conversation_id now s).1
  unfolding escalate_to_human_queue
  escalate-Effects policy conversation_id =
      elim (Option-cases (get tenant_id conversation_id none s)) [
        | inl n ↦ rw (n, escalate_to_human_queue) (Effects.done s)
        | inr (conv, e) ↦
            let (s', step, ends) = escalate-written tenant_id conversation_id now s policy conv e in
            elim ends [
              | inl h ↦ rw h (once s s' step)
              | inr h ↦ rw h (
                  Effects.then s s' _ step
                    (auto_assign-Effects tenant_id conversation_id now s' policy))
            ]
      ]

  touched-Effect :
      {may : Bool} (existing : ConversationRow)
      → find (has_id existing.id) s.rows ≡ some existing
      → existing.tenant_id ≡ tenant_id
      → Effect may tenant_id s (touch_last_activity existing.id now s)
  unfolding touch_last_activity
  touched-Effect existing h own =
      write_row-Effect tenant_id existing.id s existing (λ r. record r { last_activity_at = now }) h
        own (λ r. (refl, refl)) (Move.stay (flags existing))

  create-cases :
      (row : ConversationRow)
      → (((create row s).0 ≡ err integrity_error) × ((create row s).1 ≡ s))
        ⊎ ((create row s).0 ≡ ok row)
          × ((create row s).1.rows ≡ s.rows ++ row ∷ [])
          × (exists (has_id row.id) s.rows ≡ false)
  unfolding create
  create-cases row = elim (Bool-cases (exists (has_id row.id) s.rows || refused row s.rows)) [
    | inl y ↦ inl (rw y refl, rw y refl)
    | inr n ↦ inr (rw n refl, rw n refl, ground (arith, n))
  ]

  inbound-Effect :
      {may : Bool} (new_id channel_id customer_external_id : String)
      → IsUnique s.rows
      → Effect may tenant_id s
          (find_or_create_for_inbound
            (λ t. t)
            new_id
            tenant_id
            channel_id
            customer_external_id
            now
            s).1
  unfolding find_or_create_for_inbound opened_row
  inbound-Effect new_id channel_id customer_external_id u =
      elim (Option-cases (find_open_by_channel_customer channel_id customer_external_id s)) [
        | inr (existing, e) ↦ elim (Bool-cases (existing.tenant_id == tenant_id)) [
          | inl y ↦
              rw (e, find_or_create_for_inbound, y)
                (touched-Effect existing
                  (find_open_sound channel_id customer_external_id s existing u e).0
                  ((eq_iff existing.tenant_id tenant_id).0 y))
          | inr n ↦ rw (e, find_or_create_for_inbound, n) (Effect.unchanged refl)
        ]
        | inl e ↦
            elim (create-cases (opened_row new_id tenant_id channel_id customer_external_id now)) [
              | inl (h, back) ↦
                  rw (e, find_or_create_for_inbound, h, back, e)
                    (Effect.unchanged (ap (λ t. t.rows) back))
              | inr (h, rows, fresh) ↦
                  rw (e, find_or_create_for_inbound, h)
                    (Effect.opened (opened_row new_id tenant_id channel_id customer_external_id now)
                      refl refl fresh rows)
            ]
      ]

  record_message-rows :
      (factory : Option TicketService) (fresh : Fresh) (new_id conversation_id : String)
      (role : MessageRole) (content_text : String) (sender_id : Option String)
      (conv : ConversationRow)
      → get tenant_id conversation_id none s ≡ some conv
      → (record_message factory fresh new_id tenant_id conversation_id role content_text sender_id
          now s).1.rows
        ≡ update_first (has_id conversation_id) (λ r. record r { last_activity_at = now }) s.rows
  unfolding record_message touch_last_activity write_row
  record_message-rows none fresh new_id conversation_id role content_text sender_id conv e =
      rw (e, record_message) refl
  record_message-rows (some svc) fresh new_id conversation_id role content_text sender_id conv e =
      elim (Bool-cases (is_customer role)) [
        | inl y ↦ rw (e, record_message, y) refl
        | inr n ↦ rw (e, record_message, n) refl
      ]

  record_message-Effect :
      {may : Bool} (factory : Option TicketService) (fresh : Fresh)
      (new_id conversation_id : String) (role : MessageRole) (content_text : String)
      (sender_id : Option String)
      → Effect may tenant_id s
          (record_message factory fresh new_id tenant_id conversation_id role content_text sender_id
            now s).1
  unfolding record_message
  record_message-Effect factory fresh new_id conversation_id role content_text sender_id =
      elim (Option-cases (get tenant_id conversation_id none s)) [
        | inl n ↦ rw (n, record_message) (Effect.unchanged refl)
        | inr (conv, e) ↦
            let (found, found', own) = get_sound tenant_id conversation_id s conv e in
            let i = own_id conversation_id s.rows conv found in
            let touch = λ (r : ConversationRow). record r { last_activity_at = now } in
            Effect.moved conv touch found' own (λ r. (refl, refl)) (Move.stay (flags conv))
              (record_message-rows factory fresh new_id conversation_id role content_text sender_id
                  conv e
                ∙ ap (λ j. update_first (has_id j) touch s.rows) i)
      ]

-- The calls that may take a conversation from its agent.
unfoldable pub releases : Call → Bool
releases (Call.escalates conversation_id) = true
releases (Call.returns conversation_id) = true
releases _ = false

perform_call-Effects :
    (policy : PolicyResolver) (tenant_id : String) (now : ℕ) (call : Call) (s : Store)
    → IsUnique s.rows
    → Effects (releases call) tenant_id s (perform_call policy tenant_id now call s)
unfolding perform_call releases
perform_call-Effects policy tenant_id now (Call.assigns conversation_id agent_id) s u =
    once s _ (assign_to_agent-Effect tenant_id conversation_id now s agent_id)
perform_call-Effects policy tenant_id now (Call.claims conversation_id agent_id) s u =
    once s _ (claim-Effect tenant_id conversation_id now s agent_id u)
perform_call-Effects policy tenant_id now (Call.escalates conversation_id) s u =
    escalate-Effects tenant_id now s policy conversation_id
perform_call-Effects policy tenant_id now (Call.returns conversation_id) s u =
    once s _ (return_to_ai-Effect tenant_id conversation_id now s)
perform_call-Effects policy tenant_id now (Call.closes conversation_id) s u =
    once s _ (close-Effect tenant_id conversation_id now s)
perform_call-Effects policy tenant_id now (Call.arrives new_id channel_id customer_external_id) s
      u =
    once s _ (inbound-Effect tenant_id now s new_id channel_id customer_external_id u)
perform_call-Effects policy tenant_id now
      (Call.writes factory fresh new_id conversation_id role content_text sender_id) s u =
    once s _ (
      record_message-Effect tenant_id now s factory fresh new_id conversation_id role content_text
        sender_id)

pub perform-Effects :
    (policy : PolicyResolver) (request : Request) (s : Store)
    → IsUnique s.rows
    → Effects (releases request.call) request.tenant_id s (perform policy request s)
unfolding perform
perform-Effects policy request s u =
    perform_call-Effects policy request.tenant_id request.now request.call s u
