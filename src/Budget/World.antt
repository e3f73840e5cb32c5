-- ===== src/Budget/World.antt =====
-- The resolvers of budget/resolver.py and the state that they share. A resolver inside one, the
-- settings and the calendar are from elsewhere.
use lumen_ai_support_agent.Prelude.{Bool, List, Option, String, ℕ, ℤ}
use lumen_ai_support_agent.Prelude.Exec.{Exec}
use lumen_ai_support_agent.Llm.Types.{ChatRequest, ChatResponse, ChatResult, LlmError}
use lumen_ai_support_agent.Budget.Models.{BudgetDb, Key, TenantBudget}
use lumen_ai_support_agent.Budget.Cache.{SnapshotCache}
use lumen_ai_support_agent.Budget.Precheck.{PerModelBreakdownCache, PrecheckCache}

-- What `ainvoke` of the inner resolver ends with; `no_chain` is `_NoChainConfigured`.
pub data InnerResult : Type 0 where
  inner_responded : ChatResponse → InnerResult
  inner_raised : LlmError → InnerResult
  no_chain : InnerResult

-- `ainvoke` where the inner resolver has it, and its `__call__` followed by the provider's `chat`.
pub record Inner : Type 0 where
  pub ainvoke : Option (ChatRequest → InnerResult)
  pub primary_chat : ChatRequest → ChatResult

pub record TenantBudgetExceeded : Type 0 where
  pub key : Key
  pub tokens_used : ℕ
  pub hard_cap_tokens : ℕ
  pub period_starts_at : ℕ

pub record TenantBudgetRateLimited : Type 0 where
  pub key : Key
  pub remaining : ℤ
  pub threshold : ℕ

pub data BudgetError : Type 0 where
  budget_exceeded : TenantBudgetExceeded → BudgetError
  budget_rate_limited : TenantBudgetRateLimited → BudgetError
  from_inner : LlmError → BudgetError
  no_chain_configured : BudgetError

pub record BudgetResolver : Type 0 where
  pub inner : Inner
  pub tenant_id : String
  pub budget : Option TenantBudget
  pub has_credit_service : Bool
  pub has_per_model_cache : Bool
  pub has_precheck_cache : Bool

-- `known_zone` says whether `ZoneInfo` accepts a name; `month_of` is the period and its start.
pub record Settings : Type 0 where
  pub pre_check_use_db : Bool
  pub skip_threshold_tokens : ℕ
  pub known_zone : String → Bool
  pub month_of : String → ℕ → String × ℕ

-- The tables and the caches that the resolvers of a process share, its counters, and the requests
-- that inner resolvers were given.
pub record World : Type 0 where
  pub db : BudgetDb
  pub snapshot_cache : SnapshotCache
  pub precheck_cache : PrecheckCache
  pub per_model_cache : PerModelBreakdownCache
  pub soft_warns : List Key
  pub exceeded_total : ℕ
  pub gate_total : ℕ
  pub calls : List ChatRequest

abbrev pub Resolving : Type 0 → Type 0
Resolving A = Exec World BudgetError A
