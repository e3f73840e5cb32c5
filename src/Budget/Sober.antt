-- ===== src/Budget/Sober.antt =====
-- budget/resolver.py: the soft warning through the reads of a call and the record of its response.
use lumen_ai_support_agent.Prelude.{
  Bool-cases, Option, Option-cases, arith, inl, inr, is_below, ltb, nat_eq, none, refl, true, ℕ,
  ◌+◌, ◌≡◌, ◌⊎◌, ◌⊖◌,
}
use lumen_ai_support_agent.Llm.Types.{ChatResponse}
use lumen_ai_support_agent.Budget.Models.{BudgetDb, Key, TenantBudget, TenantBudgetSnapshot}
use lumen_ai_support_agent.Budget.Repository.{get_or_refresh}
use lumen_ai_support_agent.Budget.Cache.{SnapshotCache, get, get_or_load}
use lumen_ai_support_agent.Budget.Precheck.{fresh_value, precheck_get_or_load}
use lumen_ai_support_agent.Budget.World.{BudgetResolver, Settings, World}
use lumen_ai_support_agent.Budget.Gate.{
  cap_decision, compute_effective_cap, load_cap_decision, maybe_raise_budget_gate,
}
use lumen_ai_support_agent.Budget.Resolver.{
  finish_response, fire_soft_warn, post_read, post_record, post_write,
}
use lumen_ai_support_agent.Budget.Warned.{
  IsMarked-kept, IsWarnedOnce, IsWarnedOnce-fired, IsWarnedOnce-get_or_refresh,
  get_or_refresh-stored,
}

abbrev pub IsSober : World → Type 0
IsSober w = IsWarnedOnce w.db w.soft_warns

-- A warning fires only on an unmarked row.
fires_unmarked :
    (budget : Option TenantBudget) (snap : TenantBudgetSnapshot) (new_used : ℕ)
    → fire_soft_warn budget snap new_used ≡ true
    → snap.soft_warn_fired_at ≡ none
fires_unmarked budget snap new_used h = ground arith

-- The state that matters to the warnings, after the tables were read.
abbrev pub IsRead : Key → ℕ → World → World → Type 0
IsRead key starts_at w w' =
    ((w'.db ≡ w.db) ⊎ (w'.db ≡ (get_or_refresh key starts_at w.db).1))
    × (w'.soft_warns ≡ w.soft_warns)

pub IsRead-IsSober :
    (key : Key) (starts_at : ℕ) (w w' : World) → IsRead key starts_at w w' → IsSober w → IsSober w'
IsRead-IsSober key starts_at w w' (inl e, f) h = rw (e, f) h
IsRead-IsSober key starts_at w w' (inr e, f) h =
    rw (e, f) (IsWarnedOnce-get_or_refresh key starts_at w.db w.soft_warns h)

load-IsRead :
    (settings : Settings) (r : BudgetResolver) (key : Key) (starts_at now : ℕ) (c : SnapshotCache)
    (db : BudgetDb)
    → let (d, (c', db')) = load_cap_decision settings r key starts_at now (c, db) in
      (db' ≡ db) ⊎ (db' ≡ (get_or_refresh key starts_at db).1)
unfolding load_cap_decision get_or_load
load-IsRead settings r key starts_at now c db = elim (Bool-cases settings.pre_check_use_db) [
  | inl y ↦ rw y (inr refl)
  | inr n ↦ rw n (elim (Option-cases (get now key c).0) [
    | inl e ↦ inr (ground arith)
    | inr (s, e) ↦ inl (ground arith)
  ])
]

pub cap_decision-IsRead :
    (settings : Settings) (r : BudgetResolver) (key : Key) (starts_at now : ℕ) (w : World)
    → IsRead key starts_at w (cap_decision settings r key starts_at now w).1
unfolding cap_decision precheck_get_or_load
cap_decision-IsRead settings r key starts_at now w =
    let loaded = load-IsRead settings r key starts_at now w.snapshot_cache w.db in
    elim (Bool-cases r.has_precheck_cache) [
      | inl y ↦ elim (Option-cases (fresh_value now key w.precheck_cache)) [
        | inl e ↦ (ground (arith, loaded), ground arith)
        | inr (d, e) ↦ (ground arith, ground arith)
      ]
      | inr n ↦ (ground (arith, loaded), ground arith)
    ]

pub gate-IsRead :
    (settings : Settings) (r : BudgetResolver) (key : Key) (starts_at : ℕ) (w : World)
    → IsRead key starts_at w (maybe_raise_budget_gate settings r key starts_at w).1
unfolding maybe_raise_budget_gate
gate-IsRead settings r key starts_at w =
    let low =
      is_below
        (compute_effective_cap r key (get_or_refresh key starts_at w.db).1
          ⊖ (get_or_refresh key starts_at w.db).0.tokens_used)
        settings.skip_threshold_tokens in
    elim (Bool-cases (nat_eq settings.skip_threshold_tokens 0)) [
      | inl y ↦ (ground arith, ground arith)
      | inr n ↦ elim (Bool-cases low) [
        | inl l ↦ (ground arith, ground arith)
        | inr l ↦ (ground arith, ground arith)
      ]
    ]

post_record-IsSober :
    (r : BudgetResolver) (later : ℕ) (key : Key) (starts_at tokens : ℕ) (w : World)
    → IsSober w
    → IsSober (post_record r later key starts_at tokens w)
unfolding post_record post_read post_write
post_record-IsSober r later key starts_at tokens w h =
    let db = (get_or_refresh key starts_at w.db).1 in
    let snap = (get_or_refresh key starts_at w.db).0 in
    let h' = IsWarnedOnce-get_or_refresh key starts_at w.db w.soft_warns h in
    elim (Bool-cases (fire_soft_warn r.budget snap (snap.tokens_used + tokens))) [
      | inl y ↦
          let unmarked = fires_unmarked r.budget snap (snap.tokens_used + tokens) y in
          rw y (
            IsWarnedOnce-fired key (snap.tokens_used + tokens) later db w.soft_warns
              (get_or_refresh-stored key starts_at w.db) unmarked h')
      | inr n ↦ rw n (λ k. (
        (h' k).0,
        λ some_warning.
            IsMarked-kept key (snap.tokens_used + tokens) db snap.soft_warn_fired_at k
              ((h' k).1 some_warning),
      ))
    ]

pub finish_response-IsSober :
    (r : BudgetResolver) (later : ℕ) (key : Key) (starts_at : ℕ) (resp : ChatResponse) (w : World)
    → IsSober w
    → IsSober (finish_response r later key starts_at resp w).1
unfolding finish_response
finish_response-IsSober r later key starts_at resp w h =
    elim (Bool-cases (ltb 0 (resp.prompt_tokens + resp.completion_tokens))) [
      | inl y ↦ rw y (
          post_record-IsSober r later key starts_at (resp.prompt_tokens + resp.completion_tokens) w
            h)
      | inr n ↦ rw n h
    ]
