-- ===== src/Budget/Models.antt =====
-- budget/models.py and `LLMUsage` of llm_client/models.py. Times are seconds. Columns that the
-- budget code does not read (surrogate ids, `last_refreshed_at`, the provider and model of a usage)
-- are left out.
use lumen_ai_support_agent.Prelude.{
  Bool, List, Option, String, arith, eq_iff, eq_refl, true, ℕ, ◌&&◌, ◌==◌, ◌↔◌, ◌≡◌,
}

pub record TenantBudget : Type 0 where
  pub tenant_id : String
  pub soft_warn_tokens : Option ℕ
  pub hard_cap_tokens : Option ℕ
  pub period_anchor_tz : String

-- `(tenant_id, period)`: the unique key of the snapshots, and the key of every cache.
pub record Key : Type 0 where
  pub tenant_id : String
  pub period : String

abbrev pub key_eq : Key → Key → Bool
key_eq a b = a.tenant_id == b.tenant_id && a.period == b.period

same_key : (a b : Key) → a.tenant_id ≡ b.tenant_id → a.period ≡ b.period → a ≡ b
same_key a b t p i = record { tenant_id = t i; period = p i }

pub key_eq_iff : (a b : Key) → (key_eq a b ≡ true) ↔ (a ≡ b)
key_eq_iff a b = (
  (λ h.
      same_key a b ((eq_iff a.tenant_id b.tenant_id).0 (ground arith))
        ((eq_iff a.period b.period).0 (ground arith))),
  (λ e. rw e (rw (eq_refl b.tenant_id, eq_refl b.period))),
)

pub record TenantBudgetSnapshot : Type 0 where
  pub key : Key
  pub tokens_used : ℕ
  pub soft_warn_fired_at : Option ℕ

pub record TenantBudgetCredit : Type 0 where
  pub id : String
  pub key : Key
  pub tokens : ℕ
  pub note : String
  pub granted_by : String
  pub created_at : ℕ

pub record LlmUsage : Type 0 where
  pub tenant_id : String
  pub prompt_tokens : ℕ
  pub completion_tokens : ℕ
  pub created_at : ℕ

pub record BudgetDb : Type 0 where
  pub budgets : List TenantBudget
  pub snapshots : List TenantBudgetSnapshot
  pub credits : List TenantBudgetCredit
  pub usages : List LlmUsage
