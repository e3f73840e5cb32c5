-- ===== src/Assignment.antt =====
-- The assignment policy (apps/api/src/assignment/service.py), with what it reads of
-- tenant/repository.py and conversation/repository.py.
pub mod LeastBusy
mod Examples
use Prim.Native.String.{compare}
use Prim.Native.Nat.{Ordering}
use lumen_ai_support_agent.Prelude.{
  Bool, List, Option, String, [], false, if◌then◌else◌, is_text, ltb, map, nat_eq, none, not, some,
  true, ℕ, ◌&&◌, ◌==◌, ◌||◌, ◌∷◌,
}
use lumen_ai_support_agent.Prelude.Table.{count_where, find, select}

pub data UserRole : Type 0 where
  admin supervisor agent viewer : UserRole

pub record User : Type 0 where
  pub id : String
  pub tenant_id : String
  pub is_active : Bool
  pub role : UserRole

pub data ConversationStatus : Type 0 where
  open_status pending_status closed_status : ConversationStatus

-- The columns of `conversations` that count as load.
pub record AssignedConversation : Type 0 where
  pub tenant_id : String
  pub assigned_agent_id : Option String
  pub status : ConversationStatus

-- `settings["assignment_policy"]`, an empty dict being none.
pub record AssignmentPolicy : Type 0 where
  pub enabled : Bool
  pub strategy : Option String

pub record Tenant : Type 0 where
  pub id : String
  pub assignment_policy : Option AssignmentPolicy

pub record Directory : Type 0 where
  pub tenants : List Tenant
  pub users : List User
  pub conversations : List AssignedConversation

-- ASSIGNABLE_ROLES
abbrev pub is_assignable : UserRole → Bool
is_assignable agent = true
is_assignable supervisor = true
is_assignable _ = false

abbrev is_load : ConversationStatus → Bool
is_load open_status = true
is_load pending_status = true
is_load closed_status = false

abbrev policy_of : Option Tenant → Option AssignmentPolicy
policy_of none = none
policy_of (some t) = t.assignment_policy

unfoldable pub get_assignment_policy : String → Directory → Option AssignmentPolicy
get_assignment_policy tenant_id d = policy_of (find (λ t. t.id == tenant_id) d.tenants)

-- The order of `str`, by code points.
abbrev pub text_ltb : String → String → Bool
text_ltb a b = elim (compare a b) [ Ordering.lt ↦ true | _ ↦ false ]

unfoldable pub insert_text : String → List String → List String
insert_text x [] = x ∷ []
insert_text x (y ∷ ys) =
    let rest = insert_text x ys in if text_ltb y x then y ∷ rest else x ∷ y ∷ ys

unfoldable pub sorted : List String → List String
unfolding insert_text
sorted [] = []
sorted (x ∷ xs) = insert_text x (sorted xs)

abbrev pub is_eligible : String → User → Bool
is_eligible tenant_id u = u.tenant_id == tenant_id && u.is_active && is_assignable u.role

abbrev pub candidates : String → List User → List String
candidates tenant_id users = map (λ (u : User). u.id) (select (is_eligible tenant_id) users)

unfoldable pub eligible_ids : String → Directory → List String
unfolding sorted
eligible_ids tenant_id d = sorted (candidates tenant_id d.users)

-- The entry of `count_open_pending_per_agent` for a candidate.
unfoldable pub load_of : String → Directory → String → ℕ
load_of tenant_id d aid =
    count_where
      (λ c. c.tenant_id == tenant_id && is_text c.assigned_agent_id aid && is_load c.status)
      d.conversations

-- `(load, id)` of the one is less than that of the other.
abbrev pub is_less_busy : (String → ℕ) → String → String → Bool
is_less_busy load a b = ltb (load a) (load b) || (nat_eq (load a) (load b) && text_ltb a b)

-- `min` with a key: the first of the least.
unfoldable pub min_by : (String → ℕ) → String → List String → String
min_by load best [] = best
min_by load best (x ∷ xs) = min_by load (if is_less_busy load x best then x else best) xs

unfoldable pub least_busy : String → Directory → Option String
unfolding eligible_ids min_by load_of
least_busy tenant_id d = elim (eligible_ids tenant_id d) [
  | [] ↦ none
  | x ∷ xs ↦ some (min_by (load_of tenant_id d) x xs)
]

unfoldable pub enabled_for : String → Directory → Bool
unfolding get_assignment_policy
enabled_for tenant_id d = elim (get_assignment_policy tenant_id d) [
  | none ↦ false
  | some p ↦
      if not p.enabled
      then false
      else (is_text p.strategy "least_busy" || is_text p.strategy "manual")
        && not (is_text p.strategy "manual")
]

unfoldable pub select_agent : String → Directory → Option String
unfolding get_assignment_policy least_busy
select_agent tenant_id d = elim (get_assignment_policy tenant_id d) [
  | none ↦ none
  | some p ↦
      if not p.enabled
      then none
      else if is_text p.strategy "manual"
      then none
      else if not (is_text p.strategy "least_busy")
      then none
      else least_busy tenant_id d
]
