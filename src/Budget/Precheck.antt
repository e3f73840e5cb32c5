-- ===== src/Budget/Precheck.antt =====
-- budget/precheck_cache.py and `PerModelBreakdownCache` of budget/per_model.py
use lumen_ai_support_agent.Prelude.{
  Bool, List, Option, String, [], if◌then◌else◌, ltb, none, some, ℕ, ◌++◌, ◌-◌, ◌∷◌,
}
use lumen_ai_support_agent.Prelude.Table.{delete_where, exists, find, update_first}
use lumen_ai_support_agent.Budget.Models.{Key, TenantBudgetSnapshot, key_eq}

-- An entry of a cache by key, and when it was stored.
pub record Stored (A : Type 0) : Type 0 where
  pub key : Key
  pub stored_at : ℕ
  pub value : A

abbrev pub stored_at_key : {A : Type 0} → Key → Stored A → Bool
stored_at_key key e = key_eq e.key key

pub record TtlCache (A : Type 0) : Type 0 where
  pub ttl : ℕ
  pub store : List (Stored A)

abbrev drop_key : {A : Type 0} → Key → TtlCache A → TtlCache A
drop_key key c = record c { store = delete_where (stored_at_key key) c.store }

-- A dict assignment.
abbrev store_at : {A : Type 0} → Key → ℕ → A → TtlCache A → TtlCache A
store_at {A} key now value c =
    let entry : Stored A = record { key = key; stored_at = now; value = value } in
    record c {
      store =
          if exists (stored_at_key key) c.store
          then update_first (stored_at_key key) (λ x. entry) c.store
          else c.store ++ entry ∷ [];
    }

-- The snapshot and the effective cap that a pre-check compares.
abbrev pub Decision : Type 0
Decision = TenantBudgetSnapshot × ℕ

abbrev pub PrecheckCache : Type 0
PrecheckCache = TtlCache Decision

-- What a pre-check finds: a value stored less than `ttl` ago.
unfoldable pub fresh_value : {A : Type 0} → ℕ → Key → TtlCache A → Option A
fresh_value now key c = elim (find (stored_at_key key) c.store) [
  | none ↦ none
  | some e ↦ if ltb (now - e.stored_at) c.ttl then some e.value else none
]

-- `get_or_load`: the loader runs on its own state `S`, and only where no fresh value is stored.
unfoldable pub precheck_get_or_load :
    {S : Type 0} → ℕ → Key → (S → Decision × S) → PrecheckCache × S → Decision × (PrecheckCache × S)
unfolding fresh_value
precheck_get_or_load now key loader (c, s) = elim (fresh_value now key c) [
  | some value ↦ (value, (c, s))
  | none ↦ let (value, s') = loader s in (value, (store_at key now value (drop_key key c), s'))
]

unfoldable pub precheck_invalidate : Key → PrecheckCache → PrecheckCache
precheck_invalidate key c = drop_key key c

pub record ModelUsage : Type 0 where
  pub provider : String
  pub model : String
  pub prompt_tokens : ℕ
  pub completion_tokens : ℕ
  pub total_tokens : ℕ
  pub request_count : ℕ

abbrev pub PerModelBreakdownCache : Type 0
PerModelBreakdownCache = TtlCache (List ModelUsage)

-- Here an entry of exactly `ttl` seconds still counts.
unfoldable pub per_model_get :
    ℕ → Key → PerModelBreakdownCache → Option (List ModelUsage) × PerModelBreakdownCache
per_model_get now key c = elim (find (stored_at_key key) c.store) [
  | none ↦ (none, c)
  | some e ↦ if ltb c.ttl (now - e.stored_at) then (none, drop_key key c) else (some e.value, c)
]

unfoldable pub per_model_set :
    ℕ → Key → List ModelUsage → PerModelBreakdownCache → PerModelBreakdownCache
per_model_set now key usages c = store_at key now usages c

unfoldable pub per_model_invalidate : Key → PerModelBreakdownCache → PerModelBreakdownCache
per_model_invalidate key c = drop_key key c
