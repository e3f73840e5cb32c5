-- ===== src/Budget/Repository.antt =====
-- budget/repository.py and budget/credits.py
use lumen_ai_support_agent.Prelude.{
  List, Option, String, [], if◌then◌else◌, leb, none, some, ℕ, ◌&&◌, ◌++◌, ◌+◌, ◌==◌, ◌∷◌,
}
use lumen_ai_support_agent.Prelude.Table.{exists, find, update_first}
use lumen_ai_support_agent.Budget.Models.{
  BudgetDb, Key, LlmUsage, TenantBudget, TenantBudgetCredit, TenantBudgetSnapshot, key_eq,
}

unfoldable pub get_by_tenant : String → BudgetDb → Option TenantBudget
get_by_tenant tenant_id db = find (λ b. b.tenant_id == tenant_id) db.budgets

-- INSERT ... ON CONFLICT (tenant_id) DO UPDATE
unfoldable pub upsert : TenantBudget → BudgetDb → BudgetDb
upsert b db = record db {
  budgets =
      if exists (λ x. x.tenant_id == b.tenant_id) db.budgets
      then update_first (λ x. x.tenant_id == b.tenant_id) (λ x. b) db.budgets
      else db.budgets ++ b ∷ [];
}

unfoldable pub get_for_tenant_period : Key → BudgetDb → Option TenantBudgetSnapshot
get_for_tenant_period key db = find (λ s. key_eq s.key key) db.snapshots

-- INSERT ... ON CONFLICT (tenant_id, period) DO UPDATE ... RETURNING
abbrev pub upsert_snapshot :
    TenantBudgetSnapshot
    → (TenantBudgetSnapshot → TenantBudgetSnapshot)
    → BudgetDb
    → TenantBudgetSnapshot × BudgetDb
upsert_snapshot inserted set_clause db = elim (find (λ s. key_eq s.key inserted.key) db.snapshots) [
  | none ↦ (inserted, record db { snapshots = db.snapshots ++ inserted ∷ [] })
  | some s ↦ (
    set_clause s,
    record db { snapshots = update_first (λ x. key_eq x.key inserted.key) set_clause db.snapshots },
  )
]

-- A null `soft_warn_fired_at` leaves the column of an existing row as it is.
abbrev pub set_clause : ℕ → Option ℕ → TenantBudgetSnapshot → TenantBudgetSnapshot
set_clause tokens_used none s = record s { tokens_used = tokens_used }
set_clause tokens_used (some t) s = record s {
  tokens_used = tokens_used;
  soft_warn_fired_at = some t;
}

unfoldable pub set_tokens_used : Key → ℕ → Option ℕ → BudgetDb → TenantBudgetSnapshot × BudgetDb
set_tokens_used key tokens_used soft_warn_fired_at =
    upsert_snapshot
      (record { key = key; tokens_used = tokens_used; soft_warn_fired_at = soft_warn_fired_at })
      (set_clause tokens_used soft_warn_fired_at)

-- SUM(prompt_tokens + completion_tokens) of the tenant's rows since the period's start; the sum has
-- no upper end.
unfoldable pub sum_usage : String → ℕ → List LlmUsage → ℕ
sum_usage tenant_id starts_at [] = 0
sum_usage tenant_id starts_at (u ∷ us) =
    if u.tenant_id == tenant_id && leb starts_at u.created_at
    then u.prompt_tokens + u.completion_tokens + sum_usage tenant_id starts_at us
    else sum_usage tenant_id starts_at us

unfoldable pub refresh : Key → ℕ → BudgetDb → TenantBudgetSnapshot × BudgetDb
unfolding sum_usage
refresh key period_starts_at db =
    let total = sum_usage key.tenant_id period_starts_at db.usages in
    upsert_snapshot (record { key = key; tokens_used = total; soft_warn_fired_at = none })
      (λ s. record s { tokens_used = total }) db

-- `get_for_tenant_period`, and `refresh` where there is no row
unfoldable pub get_or_refresh : Key → ℕ → BudgetDb → TenantBudgetSnapshot × BudgetDb
unfolding get_for_tenant_period refresh
get_or_refresh key period_starts_at db = elim (get_for_tenant_period key db) [
  | none ↦ refresh key period_starts_at db
  | some s ↦ (s, db)
]

unfoldable pub sum_credits : Key → List TenantBudgetCredit → ℕ
sum_credits key [] = 0
sum_credits key (c ∷ cs) =
    if key_eq c.key key then c.tokens + sum_credits key cs else sum_credits key cs

unfoldable pub sum_for_period : Key → BudgetDb → ℕ
unfolding sum_credits
sum_for_period key db = sum_credits key db.credits
