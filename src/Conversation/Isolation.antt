-- ===== src/Conversation/Isolation.antt =====
-- The calls of one tenant and the conversations of the others.
use lumen_ai_support_agent.Prelude.{
  Bool, String, [], ap, append-nil, eq_refl, false, not, refl, ◌==◌, ◌∙◌, ◌∷◌, ◌≡◌,
}
use lumen_ai_support_agent.Prelude.Table.{select}
use lumen_ai_support_agent.Prelude.Table.Laws.{select-append, select-update_first}
use lumen_ai_support_agent.Conversation.{ConversationRow, Store}
use lumen_ai_support_agent.Conversation.Repository.{has_id}
use lumen_ai_support_agent.Conversation.Requests.{Request, perform}
use lumen_ai_support_agent.Conversation.Effects.{Effect, Effects}
use lumen_ai_support_agent.Conversation.Steps.{IsUnique}
use lumen_ai_support_agent.Conversation.Calls.{perform-Effects}
use lumen_ai_support_agent.Conversation.Service.{PolicyResolver}

-- The rows of the other tenants.
abbrev pub of_others : String → ConversationRow → Bool
of_others tenant_id r = not (r.tenant_id == tenant_id)

own_row :
    (tenant_id : String) (r : ConversationRow)
    → r.tenant_id ≡ tenant_id
    → of_others tenant_id r ≡ false
own_row tenant_id r h = rw h (ap not (eq_refl tenant_id))

Effect-select :
    {may : Bool} (tenant_id : String) (s s' : Store)
    → Effect may tenant_id s s'
    → select (of_others tenant_id) s'.rows ≡ select (of_others tenant_id) s.rows
Effect-select tenant_id s s' (Effect.unchanged e) = ap (select (of_others tenant_id)) e
Effect-select tenant_id s s' (Effect.opened new own f fresh e) =
    let skip = own_row tenant_id new own in
    ap (select (of_others tenant_id)) e
    ∙ select-append (of_others tenant_id) s.rows (new ∷ [])
    ∙ rw skip (append-nil _)
Effect-select tenant_id s s' (Effect.moved old f found own keeps m e) =
    ap (select (of_others tenant_id)) e
    ∙ select-update_first (of_others tenant_id) (has_id old.id) f s.rows {a = old} found
        (own_row tenant_id old own) (own_row tenant_id (f old) ((keeps old).1 ∙ own))

Effects-select :
    {may : Bool} (tenant_id : String) (s s' : Store)
    → Effects may tenant_id s s'
    → select (of_others tenant_id) s'.rows ≡ select (of_others tenant_id) s.rows
Effects-select tenant_id s s' (Effects.done _) = refl
Effects-select tenant_id s s' (Effects.then _ t _ step rest) =
    Effects-select tenant_id t s' rest ∙ Effect-select tenant_id s t step

-- In rows with unique ids, a call for one tenant leaves the conversations of all other tenants as
-- they are, whatever the ids that it names.
pub perform-select :
    (policy : PolicyResolver) (request : Request) (s : Store)
    → IsUnique s.rows
    → select (of_others request.tenant_id) (perform policy request s).rows
      ≡ select (of_others request.tenant_id) s.rows
perform-select policy request s u =
    Effects-select request.tenant_id s (perform policy request s)
      (perform-Effects policy request s u)
