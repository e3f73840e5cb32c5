-- ===== src/Budget/Resolver.antt =====
-- budget/resolver.py: a call, and what is recorded of its response. The times at which a call starts
-- and at which its response has come are arguments. A failing database is not modelled.
use lumen_ai_support_agent.Prelude.{
  Bool, Option, [], false, if◌then◌else◌, leb, ltb, none, some, ℕ, ◌&&◌, ◌++◌, ◌+◌, ◌∷◌,
}
use lumen_ai_support_agent.Prelude.Exec.{Result, err, ok, raise, ◌>>=◌, ◌>>◌}
use lumen_ai_support_agent.Llm.Types.{
  ChatRequest, ChatResponse, ChatResult, raised, rate_limited, responded,
}
use lumen_ai_support_agent.Budget.Models.{Key, TenantBudget, TenantBudgetSnapshot}
use lumen_ai_support_agent.Budget.Repository.{get_or_refresh, set_tokens_used}
use lumen_ai_support_agent.Budget.Cache.{invalidate}
use lumen_ai_support_agent.Budget.Precheck.{per_model_invalidate, precheck_invalidate}
use lumen_ai_support_agent.Budget.World.{
  BudgetError, BudgetResolver, Inner, InnerResult, Resolving, Settings, World, from_inner,
  inner_raised, inner_responded, no_chain, no_chain_configured,
}
use lumen_ai_support_agent.Budget.Gate.{maybe_raise_budget_gate, pre_check}

abbrev of_chat : ChatResult → InnerResult
of_chat (responded resp) = inner_responded resp
of_chat (raised e) = inner_raised e

abbrev inner_result : Inner → ChatRequest → InnerResult
inner_result inner request = elim inner.ainvoke [
  | some f ↦ f request
  | none ↦ of_chat (inner.primary_chat request)
]

unfoldable pub invoke_inner : BudgetResolver → ChatRequest → World → InnerResult × World
invoke_inner r request w =
    (inner_result r.inner request, record w { calls = w.calls ++ request ∷ [] })

-- The reads of `_post_record`: the snapshot that the rest of it works on.
unfoldable pub post_read : Key → ℕ → World → TenantBudgetSnapshot × World
unfolding get_or_refresh
post_read key period_starts_at w =
    let (snap, db) = get_or_refresh key period_starts_at w.db in (snap, record w { db = db })

-- `soft_warn_tokens` is set, the column is null and the use crosses the threshold.
abbrev pub fire_soft_warn : Option TenantBudget → TenantBudgetSnapshot → ℕ → Bool
fire_soft_warn none snap new_used = false
fire_soft_warn (some b) snap new_used = elim b.soft_warn_tokens [
  | none ↦ false
  | some soft ↦ elim snap.soft_warn_fired_at [
    | some t ↦ false
    | none ↦ ltb snap.tokens_used soft && leb soft new_used
  ]
]

-- The writes of `_post_record`.
unfoldable pub post_write : BudgetResolver → ℕ → Key → ℕ → TenantBudgetSnapshot → World → World
post_write r now key tokens_consumed snap w =
    let new_used = snap.tokens_used + tokens_consumed in
    let fire = fire_soft_warn r.budget snap new_used in
    let fired_at = if fire then some now else snap.soft_warn_fired_at in
    record w {
      db = (set_tokens_used key new_used fired_at w.db).1;
      snapshot_cache = invalidate key w.snapshot_cache;
      per_model_cache =
          if r.has_per_model_cache
          then per_model_invalidate key w.per_model_cache
          else w.per_model_cache;
      precheck_cache =
          if r.has_precheck_cache
          then precheck_invalidate key w.precheck_cache
          else w.precheck_cache;
      soft_warns = if fire then w.soft_warns ++ key ∷ [] else w.soft_warns;
    }

unfoldable pub post_record : BudgetResolver → ℕ → Key → ℕ → ℕ → World → World
unfolding post_read post_write
post_record r now key period_starts_at tokens_consumed w =
    let (snap, w') = post_read key period_starts_at w in
    post_write r now key tokens_consumed snap w'

-- The end of `ainvoke`, with a response in hand.
unfoldable pub finish_response :
    BudgetResolver → ℕ → Key → ℕ → ChatResponse → Resolving ChatResponse
unfolding post_record
finish_response r later key period_starts_at resp w =
    let tokens_consumed = resp.prompt_tokens + resp.completion_tokens in
    (
      ok resp,
      if ltb 0 tokens_consumed
          then post_record r later key period_starts_at tokens_consumed w
          else w,
    )

-- The branches of the `try`. The fall-through call of `_NoChainConfigured` is in an `except` of its
-- own: what it raises is not looked at again.
abbrev pub settle :
    Settings
    → BudgetResolver
    → ℕ
    → ChatRequest
    → Key × ℕ
    → InnerResult × World
    → Result BudgetError ChatResponse × World
settle settings r later request (key, starts_at) (inner_responded resp, w) =
    finish_response r later key starts_at resp w
settle settings r later request (key, starts_at) (no_chain, w) =
    let w' : World = record w { calls = w.calls ++ request ∷ [] } in
    elim (r.inner.primary_chat request) [
      | responded resp ↦ finish_response r later key starts_at resp w'
      | raised e ↦ (err (from_inner e), w')
    ]
settle settings r later request (key, starts_at) (inner_raised rate_limited, w) =
    let w' : World = record w {
      per_model_cache =
          if r.has_per_model_cache
          then per_model_invalidate key w.per_model_cache
          else w.per_model_cache;
    } in
    (maybe_raise_budget_gate settings r key starts_at >> raise (from_inner rate_limited)) w'
settle settings r later request (key, starts_at) (inner_raised e, w) = (err (from_inner e), w)

-- Without a budget, what the inner resolver ends with is what the call ends with.
abbrev pub passed_on : InnerResult → Result BudgetError ChatResponse
passed_on (inner_responded resp) = ok resp
passed_on (inner_raised e) = err (from_inner e)
passed_on no_chain = err no_chain_configured

unfoldable pub ainvoke : Settings → BudgetResolver → ℕ → ℕ → ChatRequest → Resolving ChatResponse
unfolding pre_check invoke_inner
ainvoke settings r now later request w = elim r.budget [
  | none ↦ let (result, w') = invoke_inner r request w in (passed_on result, w')
  | some b ↦
      (pre_check settings r now >>= λ key_start w'.
      settle settings r later request key_start (invoke_inner r request w'))
        w
]
