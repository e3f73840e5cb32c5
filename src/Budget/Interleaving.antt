-- ===== src/Budget/Interleaving.antt =====
-- Two calls of one tenant at the same time: `_post_record` reads and writes in separate
-- transactions.
use lumen_ai_support_agent.Prelude.{Option-cases, ap, arith, inl, inr, none, refl, ℕ, ◌+◌, ◌∙◌, ◌≡◌}
use lumen_ai_support_agent.Prelude.Table.{find}
use lumen_ai_support_agent.Budget.Models.{BudgetDb, Key, TenantBudgetSnapshot}
use lumen_ai_support_agent.Budget.Repository.{
  get_for_tenant_period, get_or_refresh, refresh, sum_usage,
}
use lumen_ai_support_agent.Budget.World.{BudgetResolver, World}
use lumen_ai_support_agent.Budget.Resolver.{post_read, post_write}
use lumen_ai_support_agent.Budget.Ledger.{find-upserted, of_key, tokens_counted, tokens_counted-set}

-- Both read, then the first writes, then the second.
pub post_record_both : BudgetResolver → BudgetResolver → ℕ → Key → ℕ → ℕ → ℕ → World → World
post_record_both r₁ r₂ now key starts_at tokens₁ tokens₂ w =
    let (snap₁, w₁) = post_read key starts_at w in
    let (snap₂, w₂) = post_read key starts_at w₁ in
    post_write r₂ now key tokens₂ snap₂ (post_write r₁ now key tokens₁ snap₁ w₂)

-- Reading twice answers the same.
get_or_refresh-again :
    (key : Key) (starts_at : ℕ) (db : BudgetDb)
    → (get_or_refresh key starts_at (get_or_refresh key starts_at db).1).0
      ≡ (get_or_refresh key starts_at db).0
unfolding get_or_refresh get_for_tenant_period refresh
get_or_refresh-again key starts_at db =
    let total = sum_usage key.tenant_id starts_at db.usages in
    let row =
      find-upserted (λ s. record s { tokens_used = total }) (λ s. refl)
        (record { key = key; tokens_used = total; soft_warn_fired_at = none }) db in
    elim (Option-cases (find (of_key key) db.snapshots)) [
      | inl n ↦ ground (arith, row)
      | inr (s, e) ↦ ground arith
    ]

-- When two calls of one tenant and period both read before either writes, the first one's tokens
-- are lost: the count grows by the second one's alone.
pub post_record_both-loses :
    (r₁ r₂ : BudgetResolver) (now : ℕ) (key : Key) (starts_at tokens₁ tokens₂ : ℕ) (w : World)
    → tokens_counted key starts_at (post_record_both r₁ r₂ now key starts_at tokens₁ tokens₂ w).db
      ≡ tokens_counted key starts_at w.db + tokens₂
unfolding post_record_both post_read post_write
post_record_both-loses r₁ r₂ now key starts_at tokens₁ tokens₂ w =
    tokens_counted-set key _ _ _ starts_at
    ∙ ap (λ (s : TenantBudgetSnapshot). s.tokens_used + tokens₂)
        (get_or_refresh-again key starts_at w.db)
