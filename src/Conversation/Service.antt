-- ===== src/Conversation/Service.antt =====
-- conversation/service.py: lookup and the changes of a conversation's state.
use lumen_ai_support_agent.Prelude.{
  Bool, List, Option, String, false, if◌then◌else◌, map, none, not, some, true, ℕ, ◌&&◌, ◌==◌, ◌||◌,
}
use lumen_ai_support_agent.Prelude.Exec.{Exec, err, ok}
use lumen_ai_support_agent.Assignment.{
  Directory, Tenant, User, closed_status, open_status, pending_status, select_agent,
}
use lumen_ai_support_agent.Conversation.{
  ConversationError, ConversationRow, Store, not_claimable, status_eq, value_error,
}
use lumen_ai_support_agent.Conversation.Repository.{
  create, find_open_by_channel_customer, get_by_id, get_by_id_for_update, set_state,
  touch_last_activity, update, write_row,
}

-- `viewer_role` with `viewer_id`, when the caller gives both.
pub record Viewer : Type 0 where
  pub role : String
  pub id : String

-- An agent's view of a row: unless it is assigned to somebody else.
unfoldable pub is_visible : Option Viewer → ConversationRow → Bool
is_visible none r = true
is_visible (some v) r =
    (v.role == "admin" || v.role == "owner")
    || elim r.assigned_agent_id [ none ↦ true | some agent_id ↦ agent_id == v.id ]

unfoldable pub get : String → String → Option Viewer → Store → Option ConversationRow
get tenant_id conversation_id caller s = elim (get_by_id conversation_id s) [
  | none ↦ none
  | some conv ↦
      if not (conv.tenant_id == tenant_id)
      then none
      else if is_visible caller conv
      then some conv
      else none
]

unfoldable pub assign_to_agent :
    String → String → String → ℕ → Exec Store ConversationError (Option ConversationRow)
assign_to_agent tenant_id conversation_id agent_id now s =
    elim (get tenant_id conversation_id none s) [
      | none ↦ (ok none, s)
      | some conv ↦ update (set_state pending_status (some agent_id) false now conv) s
    ]

abbrev pub is_claimable : ConversationRow → Bool
is_claimable conv =
    status_eq conv.status pending_status
    && elim conv.assigned_agent_id [ none ↦ true | some agent_id ↦ false ]

-- One transaction, under the row lock.
unfoldable pub claim : String → String → String → ℕ → Exec Store ConversationError ConversationRow
claim tenant_id conversation_id agent_id now s =
    elim (get_by_id_for_update tenant_id conversation_id s) [
      | none ↦ (err value_error, s)
      | some conv ↦
          let taken = set_state conv.status (some agent_id) false now in
          if is_claimable conv
          then (ok (taken conv), write_row conversation_id taken s)
          else (err not_claimable, s)
    ]

-- What the policy resolver answers for a tenant: an agent, or nothing where it has none or raises.
abbrev pub PolicyResolver : Type 0
PolicyResolver = String → Store → Option String

-- The errors of the assignment are swallowed.
unfoldable pub auto_assign_after_escalate : PolicyResolver → String → String → ℕ → Store → Store
auto_assign_after_escalate policy_resolver tenant_id conversation_id now s =
    elim (policy_resolver tenant_id s) [
      | none ↦ s
      | some agent_id ↦ (assign_to_agent tenant_id conversation_id agent_id now s).1
    ]

unfoldable pub escalate_to_human_queue :
    PolicyResolver → String → String → ℕ → Exec Store ConversationError (Option ConversationRow)
escalate_to_human_queue policy_resolver tenant_id conversation_id now s =
    elim (get tenant_id conversation_id none s) [
      | none ↦ (ok none, s)
      | some conv ↦
          let (r, s') = update (set_state pending_status none false now conv) s in
          elim r [
            | err e ↦ (err e, s')
            | ok updated ↦ elim updated [
              | none ↦ (ok none, s')
              | some row ↦ (
                ok (some row),
                auto_assign_after_escalate policy_resolver tenant_id conversation_id now s',
              )
            ]
          ]
    ]

unfoldable pub return_to_ai :
    String → String → ℕ → Exec Store ConversationError (Option ConversationRow)
return_to_ai tenant_id conversation_id now s = elim (get tenant_id conversation_id none s) [
  | none ↦ (ok none, s)
  | some conv ↦ update (set_state open_status none true now conv) s
]

-- The assigned agent is kept.
unfoldable pub close : String → String → ℕ → Exec Store ConversationError (Option ConversationRow)
close tenant_id conversation_id now s = elim (get tenant_id conversation_id none s) [
  | none ↦ (ok none, s)
  | some conv ↦ update (set_state closed_status conv.assigned_agent_id false now conv) s
]

unfoldable pub opened_row : String → String → String → String → ℕ → ConversationRow
opened_row new_id tenant_id channel_id customer_external_id now = record {
  id = new_id;
  tenant_id = tenant_id;
  channel_id = channel_id;
  customer_external_id = customer_external_id;
  status = open_status;
  assigned_agent_id = none;
  ai_handling = true;
  opened_at = now;
  last_activity_at = now;
}

-- `find_or_create_for_inbound`; `between` is what other sessions do after its lookup and before its
-- insert.
unfoldable pub find_or_create_for_inbound :
    (Store → Store)
    → String
    → String
    → String
    → String
    → ℕ
    → Exec Store ConversationError (Option ConversationRow)
find_or_create_for_inbound between new_id tenant_id channel_id customer_external_id now s =
    elim (find_open_by_channel_customer channel_id customer_external_id s) [
      | some existing ↦
          if existing.tenant_id == tenant_id
          then (ok (some existing), touch_last_activity existing.id now s)
          else (ok none, s)
      | none ↦
          let (r, s') =
            create (opened_row new_id tenant_id channel_id customer_external_id now) (between s) in
          elim r [
            | ok row ↦ (ok (some row), s')
            | err e ↦ elim (find_open_by_channel_customer channel_id customer_external_id s') [
              | none ↦ (err e, s')
              | some existing ↦
                  if existing.tenant_id == tenant_id
                  then (ok (some existing), touch_last_activity existing.id now s')
                  else (err e, s')
            ]
          ]
    ]

-- `assignment.service.default_resolver`, reading the load from the stored conversations.
unfoldable pub directory : List Tenant → List User → Store → Directory
directory tenants users s = record {
  tenants = tenants;
  users = users;
  conversations =
      map
        (λ (r : ConversationRow). record {
          tenant_id = r.tenant_id;
          assigned_agent_id = r.assigned_agent_id;
          status = r.status;
        })
        s.rows;
}

unfoldable pub default_resolver : List Tenant → List User → PolicyResolver
default_resolver tenants users tenant_id s = select_agent tenant_id (directory tenants users s)
