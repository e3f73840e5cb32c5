-- ===== src/Budget/Gate.antt =====
-- budget/resolver.py: the check before a call, and the gate after a 429
use lumen_ai_support_agent.Prelude.{
  Option, String, if◌then◌else◌, is_below, leb, nat_eq, none, some, ℕ, ◌+◌, ◌⊖◌,
}
use lumen_ai_support_agent.Prelude.Exec.{Result, err, ok}
use lumen_ai_support_agent.Budget.Models.{BudgetDb, Key, TenantBudget}
use lumen_ai_support_agent.Budget.Repository.{get_or_refresh, sum_for_period}
use lumen_ai_support_agent.Budget.Cache.{SnapshotCache, get_or_load}
use lumen_ai_support_agent.Budget.Precheck.{Decision, precheck_get_or_load}
use lumen_ai_support_agent.Budget.World.{
  BudgetError, BudgetResolver, Resolving, Settings, World, budget_exceeded, budget_rate_limited,
}

unfoldable pub current_period : Settings → String → ℕ → String × ℕ
current_period settings tz_name now =
    settings.month_of (if settings.known_zone tz_name then tz_name else "UTC") now

-- `self._budget.hard_cap_tokens or 0`
abbrev base_of : Option TenantBudget → ℕ
base_of none = 0
base_of (some b) = elim b.hard_cap_tokens [ none ↦ 0 | some cap ↦ cap ]

unfoldable pub compute_effective_cap : BudgetResolver → Key → BudgetDb → ℕ
compute_effective_cap r key db =
    if r.has_credit_service then base_of r.budget + sum_for_period key db else base_of r.budget

-- `_load_cap_decision`
unfoldable pub load_cap_decision :
    Settings
    → BudgetResolver
    → Key
    → ℕ
    → ℕ
    → SnapshotCache × BudgetDb
    → Decision × (SnapshotCache × BudgetDb)
unfolding compute_effective_cap get_or_load get_or_refresh
load_cap_decision settings r key period_starts_at now (c, db) =
    if settings.pre_check_use_db
    then (let (snap, db') = get_or_refresh key period_starts_at db in
        ((snap, compute_effective_cap r key db'), (c, db')))
    else (let (snap, (c', db')) = get_or_load now key period_starts_at (c, db) in
        ((snap, compute_effective_cap r key db'), (c', db')))

unfoldable pub cap_decision : Settings → BudgetResolver → Key → ℕ → ℕ → World → Decision × World
unfolding load_cap_decision precheck_get_or_load
cap_decision settings r key period_starts_at now w =
    let loader = load_cap_decision settings r key period_starts_at now in
    if r.has_precheck_cache
    then (let (d, (p, (c, db))) =
          precheck_get_or_load now key loader (w.precheck_cache, (w.snapshot_cache, w.db)) in
        (d, record w { precheck_cache = p; snapshot_cache = c; db = db }))
    else (let (d, (c, db)) = loader (w.snapshot_cache, w.db) in
        (d, record w { snapshot_cache = c; db = db }))

-- The comparison at the end of `_pre_check`.
abbrev pub refuse_at_cap : Key → ℕ → Decision × World → Result BudgetError (Key × ℕ) × World
refuse_at_cap key period_starts_at ((snap, effective_cap), w) =
    if leb effective_cap snap.tokens_used
    then (
      err (
          budget_exceeded (record {
            key = key;
            tokens_used = snap.tokens_used;
            hard_cap_tokens = effective_cap;
            period_starts_at = period_starts_at;
          })),
      record w { exceeded_total = w.exceeded_total + 1 },
    )
    else (ok (key, period_starts_at), w)

abbrev pub key_at : BudgetResolver → String × ℕ → Key × ℕ
key_at r (period, starts_at) = (record { tenant_id = r.tenant_id; period = period }, starts_at)

unfoldable pub pre_check : Settings → BudgetResolver → ℕ → Resolving (Key × ℕ)
unfolding cap_decision current_period
pre_check settings r now w = elim r.budget [
  | none ↦ (ok (key_at r (current_period settings "UTC" now)), w)
  | some b ↦ elim b.hard_cap_tokens [
    | none ↦ (ok (key_at r (current_period settings "UTC" now)), w)
    | some cap ↦
        let (key, starts_at) = key_at r (current_period settings b.period_anchor_tz now) in
        refuse_at_cap key starts_at (cap_decision settings r key starts_at now w)
  ]
]

-- `_maybe_raise_budget_gate`
unfoldable pub maybe_raise_budget_gate : Settings → BudgetResolver → Key → ℕ → Resolving (Unit {0})
unfolding get_or_refresh compute_effective_cap
maybe_raise_budget_gate settings r key period_starts_at w =
    let threshold = settings.skip_threshold_tokens in
    if nat_eq threshold 0
    then (ok tt, w)
    else (let (snap, db) = get_or_refresh key period_starts_at w.db in
        let w' : World = record w { db = db } in
        let remaining = compute_effective_cap r key db ⊖ snap.tokens_used in
        if is_below remaining threshold
        then (
          err (
              budget_rate_limited
                (record { key = key; remaining = remaining; threshold = threshold })),
          record w' { gate_total = w.gate_total + 1 },
        )
        else (ok tt, w'))
