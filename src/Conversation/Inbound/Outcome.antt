-- ===== src/Conversation/Inbound/Outcome.antt =====
-- The outcomes of `find_or_create_for_inbound`, with the tables that they leave.
use lumen_ai_support_agent.Prelude.Table.Keys.{find-update_key}
use lumen_ai_support_agent.Prelude.{
  Option, String, [], arith, eq_iff, eq_refl, false, none, refl, some, true, ℕ, ◌++◌, ◌==◌, ◌∷◌,
  ◌≡◌, ◌⊎◌,
}
use lumen_ai_support_agent.Prelude.Exec.{Result, err, ok}
use lumen_ai_support_agent.Prelude.Table.{exists, find}
use lumen_ai_support_agent.Conversation.{ConversationError, ConversationRow, Store, integrity_error}
use lumen_ai_support_agent.Conversation.Repository.{
  has_id, is_open_for, touch_last_activity, write_row,
}

-- The tables before and after a new time of activity for a stored row.
pub record IsTouched (now : ℕ) (conv : ConversationRow) (s s' : Store) : Type 0 where
  pub before : find (has_id conv.id) s.rows ≡ some conv
  pub stored : find (has_id conv.id) s'.rows ≡ some (record conv { last_activity_at = now })
  pub others :
      (k : String) → (k == conv.id) ≡ false → find (has_id k) s'.rows ≡ find (has_id k) s.rows
  pub messages : s'.messages ≡ s.messages
  pub tickets : s'.tickets ≡ s.tickets

-- The new row.
pub record IsOpened (new_id tenant_id channel_id customer_external_id : String) (now : ℕ)
    (conv : ConversationRow) : Type 0 where
  pub id : conv.id ≡ new_id
  pub tenant : conv.tenant_id ≡ tenant_id
  pub opens : is_open_for channel_id customer_external_id conv ≡ true
  pub unassigned : conv.assigned_agent_id ≡ none
  pub ai : conv.ai_handling ≡ true
  pub active : conv.last_activity_at ≡ now

-- The outcome for the tenant's inbound message, when the lookup ran on `s` and the insert on `t`:
-- what is answered, and the tables.
pub data IsInbound (new_id tenant_id channel_id customer_external_id : String) (now : ℕ)
    (s t : Store) (r : Result ConversationError (Option ConversationRow) × Store) : Type 0 where
  existing :
      (conv : ConversationRow)
      → r.0 ≡ ok (some conv)
      → conv.tenant_id ≡ tenant_id
      → is_open_for channel_id customer_external_id conv ≡ true
      → IsTouched now conv s r.1 ⊎ IsTouched now conv t r.1
      → IsInbound new_id tenant_id channel_id customer_external_id now s t r
  opened :
      (conv : ConversationRow)
      → r.0 ≡ ok (some conv)
      → IsOpened new_id tenant_id channel_id customer_external_id now conv
      → exists (is_open_for channel_id customer_external_id) s.rows ≡ false
      → exists (is_open_for channel_id customer_external_id) t.rows ≡ false
      → exists (has_id new_id) t.rows ≡ false
      → r.1.rows ≡ t.rows ++ conv ∷ []
      → r.1.messages ≡ t.messages
      → IsInbound new_id tenant_id channel_id customer_external_id now s t r
  foreign :
      (conv : ConversationRow)
      → (conv.tenant_id == tenant_id) ≡ false
      → is_open_for channel_id customer_external_id conv ≡ true
      → ((find (has_id conv.id) s.rows ≡ some conv) × (r.0 ≡ ok none) × (r.1 ≡ s))
        ⊎ ((find (has_id conv.id) t.rows ≡ some conv) × (r.0 ≡ err integrity_error) × (r.1 ≡ t))
      → IsInbound new_id tenant_id channel_id customer_external_id now s t r
  id_taken :
      r.0 ≡ err integrity_error
      → r.1 ≡ t
      → exists (has_id new_id) t.rows ≡ true
      → IsInbound new_id tenant_id channel_id customer_external_id now s t r

pub touch_last_activity-IsTouched :
    (now : ℕ) (conv : ConversationRow) (s : Store)
    → find (has_id conv.id) s.rows ≡ some conv
    → IsTouched now conv s (touch_last_activity conv.id now s)
unfolding touch_last_activity write_row
touch_last_activity-IsTouched now conv s found =
    let write =
      find-update_key (λ (r : ConversationRow). r.id) (λ r. record r { last_activity_at = now })
        (λ x. refl) in
    record {
      before = found;
      stored = ground (arith, write conv.id conv.id s.rows, found, eq_refl conv.id);
      others = λ k n. ground (arith, write k conv.id s.rows, eq_iff k conv.id, eq_iff conv.id k);
      messages = refl;
      tickets = refl;
    }
