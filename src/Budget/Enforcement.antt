-- ===== src/Budget/Enforcement.antt =====
-- The hard cap: when the inner resolver is called, and when it is not.
use lumen_ai_support_agent.Budget.Resolver.{ainvoke, invoke_inner, settle}
use lumen_ai_support_agent.Prelude.Exec.{err}
use lumen_ai_support_agent.Llm.Types.{ChatRequest}
use lumen_ai_support_agent.Prelude.{
  Bool-cases, Option-cases, arith, false, inl, inr, leb, none, some, true, ℕ, ◌<◌, ◌≡◌, ◌≤◌, ◌⊎◌,
}
use lumen_ai_support_agent.Prelude.Table.{find}
use lumen_ai_support_agent.Budget.Models.{BudgetDb, Key, TenantBudget}
use lumen_ai_support_agent.Budget.Repository.{
  get_for_tenant_period, get_or_refresh, refresh, sum_for_period,
}
use lumen_ai_support_agent.Budget.Precheck.{fresh_value, precheck_get_or_load}
use lumen_ai_support_agent.Budget.World.{BudgetResolver, Settings, World, budget_exceeded}
use lumen_ai_support_agent.Budget.Gate.{
  cap_decision, compute_effective_cap, current_period, key_at, load_cap_decision, pre_check,
}
use lumen_ai_support_agent.Budget.Ledger.{of_key, tokens_counted}

credits-refresh :
    (key : Key) (starts_at : ℕ) (db : BudgetDb)
    → (get_or_refresh key starts_at db).1.credits ≡ db.credits
unfolding get_or_refresh get_for_tenant_period refresh
credits-refresh key starts_at db = elim (Option-cases (find (of_key key) db.snapshots)) [
  | inl n ↦ ground arith
  | inr (s, e) ↦ ground arith
]

pub cap-refresh :
    (r : BudgetResolver) (key : Key) (starts_at : ℕ) (db : BudgetDb)
    → compute_effective_cap r key (get_or_refresh key starts_at db).1
      ≡ compute_effective_cap r key db
unfolding compute_effective_cap sum_for_period
cap-refresh r key starts_at db = ground (arith, credits-refresh key starts_at db)

-- Nothing in the pre-check cache answers for the key.
abbrev pub IsUncached : BudgetResolver → ℕ → Key → World → Type 0
IsUncached r now key w =
    (r.has_precheck_cache ≡ false) ⊎ (fresh_value now key w.precheck_cache ≡ none)

module _ (settings : Settings) (r : BudgetResolver) (key : Key) (starts_at now : ℕ)
    (w : World) where
  cap_decision_lem :
      settings.pre_check_use_db ≡ true
      → IsUncached r now key w
      → let (d, w') = cap_decision settings r key starts_at now w in
        (d ≡ ((get_or_refresh key starts_at w.db).0, compute_effective_cap r key w.db))
        × (w'.calls ≡ w.calls)
        × (w'.db ≡ (get_or_refresh key starts_at w.db).1)
  unfolding cap_decision load_cap_decision precheck_get_or_load
  cap_decision_lem use_db (inl n) = ground (arith, cap-refresh r key starts_at w.db)
  cap_decision_lem use_db (inr e) = elim (Bool-cases r.has_precheck_cache) [
    | inl y ↦ ground (arith, cap-refresh r key starts_at w.db)
    | inr n ↦ ground (arith, cap-refresh r key starts_at w.db)
  ]

-- `ainvoke` of a resolver with a hard cap, where the pre-check reads the tables.
module _ (settings : Settings) (r : BudgetResolver) (now later : ℕ) (request : ChatRequest)
    (w : World) {b : TenantBudget} {hard_cap : ℕ} where
  -- A resolver has a hard cap, the pre-check reads the tables, and the pre-check cache holds
  -- nothing fresh for the key. At the effective cap (the hard cap and, with a credit service, the
  -- period's credits) the call is refused: it raises TenantBudgetExceeded with the count and that
  -- cap, and the inner resolver is not called. Below it the inner resolver is called with the
  -- request and its result is settled.
  pub ainvoke-enforces :
      let (key, starts_at) = key_at r (current_period settings b.period_anchor_tz now) in
      r.budget ≡ some b
      → b.hard_cap_tokens ≡ some hard_cap
      → settings.pre_check_use_db ≡ true
      → IsUncached r now key w
      → let (result, w') = ainvoke settings r now later request w in
        ((compute_effective_cap r key w.db ≤ tokens_counted key starts_at w.db)
          × (result
              ≡ err (
                  budget_exceeded (record {
                    key = key;
                    tokens_used = tokens_counted key starts_at w.db;
                    hard_cap_tokens = compute_effective_cap r key w.db;
                    period_starts_at = starts_at;
                  })))
          × (w'.calls ≡ w.calls))
        ⊎ ((tokens_counted key starts_at w.db < compute_effective_cap r key w.db)
            × (ainvoke settings r now later request w
                ≡ settle settings r later request
                    (key, starts_at)
                    (invoke_inner r request (cap_decision settings r key starts_at now w).1)))
  unfolding ainvoke pre_check
  ainvoke-enforces has_budget has_cap use_db uncached =
      let (key, starts_at) = key_at r (current_period settings b.period_anchor_tz now) in
      let (d, calls, _) = cap_decision_lem settings r key starts_at now w use_db uncached in
      elim (Bool-cases
        (leb (compute_effective_cap r key w.db) (tokens_counted key starts_at w.db))) [
          | inl y ↦ inl (ground arith, ground arith, ground arith)
          | inr n ↦ inr (ground arith, ground arith)
        ]
