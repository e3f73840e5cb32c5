-- ===== src/Budget/Examples.antt =====
-- A tenant with a cap of 100 tokens, 90 of them used.
use lumen_ai_support_agent.Prelude.{
  List, [], arith, false, inr, none, refl, some, true, ℕ, ◌<◌, ◌∷◌, ◌≡◌, ◌≤◌, ◌⊎◌,
}
use lumen_ai_support_agent.Prelude.Exec.{err}
use lumen_ai_support_agent.Llm.Types.{ChatRequest, ChatResponse, responded}
use lumen_ai_support_agent.Budget.Models.{Key, TenantBudget, TenantBudgetSnapshot, key_eq}
use lumen_ai_support_agent.Budget.Repository.{get_for_tenant_period, get_or_refresh}
use lumen_ai_support_agent.Budget.Cache.{evict, get, invalidate, put}
use lumen_ai_support_agent.Budget.Cache.History.{
  CacheCall, IsCache, cache_after, cache_after-IsCache, get_call, invalidate_call, put_call,
}
use lumen_ai_support_agent.Budget.Cache.Refinement.{get-refines, view_after}
use lumen_ai_support_agent.Budget.Precheck.{fresh_value}
use lumen_ai_support_agent.Budget.World.{BudgetResolver, Settings, World, budget_exceeded}
use lumen_ai_support_agent.Budget.Gate.{cap_decision, compute_effective_cap, current_period}
use lumen_ai_support_agent.Budget.Resolver.{ainvoke, invoke_inner, post_record, settle}
use lumen_ai_support_agent.Budget.Ledger.{post_record-counted, tokens_counted}
use lumen_ai_support_agent.Budget.Enforcement.{ainvoke-enforces}
use lumen_ai_support_agent.Budget.Interleaving.{post_record_both, post_record_both-loses}
use lumen_ai_support_agent.Budget.Sober.{IsSober}
use lumen_ai_support_agent.Budget.SoftWarn.{Incoming, handle_all, handle_all-IsSober}

abbrev may : Key
may = record { tenant_id = "acme"; period = "2026-05" }

abbrev june : Key
june = record { tenant_id = "acme"; period = "2026-06" }

abbrev snapshot : TenantBudgetSnapshot
snapshot = record { key = may; tokens_used = 90; soft_warn_fired_at = none }

abbrev capped : TenantBudget
capped = record {
  tenant_id = "acme";
  soft_warn_tokens = some 95;
  hard_cap_tokens = some 100;
  period_anchor_tz = "UTC";
}

abbrev ten_tokens : ChatResponse
ten_tokens = record {
  content = "hello";
  model = "c1";
  prompt_tokens = 6;
  completion_tokens = 4;
  finish_reason = "stop";
}

abbrev resolver : BudgetResolver
resolver = record {
  inner = record { ainvoke = none; primary_chat = λ r. responded ten_tokens };
  tenant_id = "acme";
  budget = some capped;
  has_credit_service = true;
  has_per_model_cache = true;
  has_precheck_cache = true;
}

abbrev settings : Settings
settings = record {
  pre_check_use_db = true;
  skip_threshold_tokens = 50;
  known_zone = λ z. true;
  month_of = λ z now. ("2026-05", 0);
}

abbrev world : World
world = record {
  db = record { budgets = capped ∷ []; snapshots = snapshot ∷ []; credits = []; usages = [] };
  snapshot_cache = record { ttl_s = 60; maxsize = 2; entries = [] };
  precheck_cache = record { ttl = 5; store = [] };
  per_model_cache = record { ttl = 30; store = [] };
  soft_warns = [];
  exceeded_total = 0;
  gate_total = 0;
  calls = [];
}

abbrev request : ChatRequest
request = record { model = "c1"; rest = "" }

abbrev calls_made : List CacheCall
calls_made = put_call 0 may snapshot ∷ get_call 5 may ∷ invalidate_call june ∷ []

cache_after-IsCache_example :
    IsCache (cache_after calls_made world.snapshot_cache)
    × ((cache_after calls_made world.snapshot_cache).maxsize ≡ 2)
cache_after-IsCache_example =
    cache_after-IsCache calls_made world.snapshot_cache
      (record { bounded = omega arith; one_each = λ k. omega arith })

get-refines_example :
    (expires_at : ℕ) × (view_after 60 calls_made (λ k. none) may ≡ some (expires_at, snapshot))
    × (10 < expires_at)
unfolding cache_after get put invalidate evict
get-refines_example = get-refines calls_made 60 2 10 may {snap = snapshot} refl

post_record-counted_example :
    let w' = post_record resolver 7 may 0 10 world in
    (tokens_counted may 0 w'.db ≡ 100)
    × ((j : Key)
        → key_eq may j ≡ false
        → get_for_tenant_period j w'.db ≡ get_for_tenant_period j world.db)
    × ((now : ℕ) → (get now may w'.snapshot_cache).0 ≡ none)
    × (true ≡ true → (now : ℕ) → fresh_value now may w'.precheck_cache ≡ none)
unfolding get_or_refresh get_for_tenant_period
post_record-counted_example = post_record-counted resolver 7 may 0 10 world

post_record_both-loses_example :
    tokens_counted may 0 (post_record_both resolver resolver 7 may 0 40 3 world).db ≡ 93
unfolding get_or_refresh get_for_tenant_period
post_record_both-loses_example = post_record_both-loses resolver resolver 7 may 0 40 3 world

ainvoke-enforces_example :
    let (result, w') = ainvoke settings resolver 5 6 request world in
    ((compute_effective_cap resolver may world.db ≤ tokens_counted may 0 world.db)
      × (result
          ≡ err (
              budget_exceeded (record {
                key = may;
                tokens_used = tokens_counted may 0 world.db;
                hard_cap_tokens = compute_effective_cap resolver may world.db;
                period_starts_at = 0;
              })))
      × (w'.calls ≡ []))
    ⊎ ((tokens_counted may 0 world.db < compute_effective_cap resolver may world.db)
        × (ainvoke settings resolver 5 6 request world
            ≡ settle settings resolver 6 request
                (may, 0)
                (invoke_inner resolver request (cap_decision settings resolver may 0 5 world).1)))
unfolding current_period fresh_value
ainvoke-enforces_example =
    ainvoke-enforces settings resolver 5 6 request world {b = capped} {hard_cap = 100} refl refl
      refl (inr refl)

abbrev incoming : Incoming
incoming = record { resolver = resolver; now = 5; later = 6; request = request }

handle_all-IsSober_example : IsSober (handle_all settings (incoming ∷ incoming ∷ []) world)
handle_all-IsSober_example =
    handle_all-IsSober settings (incoming ∷ incoming ∷ []) world
      (λ k. (omega arith, λ h. absurd (omega (arith, h))))
