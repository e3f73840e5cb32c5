-- ===== src/Budget/RateLimit.antt =====
-- After a 429 of the provider chain.
use lumen_ai_support_agent.Budget.Enforcement.{cap-refresh}
use lumen_ai_support_agent.Budget.Ledger.{tokens_counted}
use lumen_ai_support_agent.Prelude.{
  Bool-cases, arith, inl, inr, is_below-⊖, ltb, nat_eq, ℕ, ◌+◌, ◌<◌, ◌≡◌, ◌≤◌, ◌⊎◌, ◌⊖◌,
}
use lumen_ai_support_agent.Prelude.Exec.{err}
use lumen_ai_support_agent.Llm.Types.{ChatRequest, rate_limited}
use lumen_ai_support_agent.Budget.Models.{Key}
use lumen_ai_support_agent.Budget.World.{
  BudgetResolver, Settings, World, budget_rate_limited, from_inner, inner_raised,
}
use lumen_ai_support_agent.Budget.Gate.{compute_effective_cap, maybe_raise_budget_gate}
use lumen_ai_support_agent.Budget.Resolver.{settle}

-- After RateLimited, the tenant's own rate limit is raised exactly where the threshold is set and
-- fewer tokens than it remain under the effective cap; otherwise RateLimited goes on to the caller.
settle_rate_limited :
    (settings : Settings) (r : BudgetResolver) (later : ℕ) (request : ChatRequest) (key : Key)
    (starts_at : ℕ) (w : World)
    → let result =
        (settle settings r later request (key, starts_at) (inner_raised rate_limited, w)).0 in
      let threshold = settings.skip_threshold_tokens in
      let cap = compute_effective_cap r key w.db in
      ((1 ≤ threshold)
        × (cap < tokens_counted key starts_at w.db + threshold)
        × (result
            ≡ err (
                budget_rate_limited (record {
                  key = key;
                  remaining = cap ⊖ tokens_counted key starts_at w.db;
                  threshold = threshold;
                }))))
      ⊎ (((threshold ≡ 0) ⊎ (tokens_counted key starts_at w.db + threshold ≤ cap))
          × (result ≡ err (from_inner rate_limited)))
unfolding maybe_raise_budget_gate
settle_rate_limited settings r later request key starts_at w =
    elim (Bool-cases (nat_eq settings.skip_threshold_tokens 0)) [
      | inl y ↦ inr (inl (ground arith), ground arith)
      | inr n ↦
          let cap = compute_effective_cap r key w.db in
          let counted = tokens_counted key starts_at w.db in
          let threshold = settings.skip_threshold_tokens in
          let set : 1 ≤ threshold = ground arith in
          let low = is_below-⊖ cap counted threshold set in
          elim (Bool-cases (ltb cap (counted + threshold))) [
            | inl y ↦ inl (set, ground arith, ground (arith, cap-refresh r key starts_at w.db, low))
            | inr m ↦
                inr (inr (ground arith), ground (arith, cap-refresh r key starts_at w.db, low))
          ]
    ]
