-- ===== src/Budget/SoftWarn.antt =====
-- The soft warning, over histories of calls.
use lumen_ai_support_agent.Prelude.{
  Bool-cases, List, Option-cases, [], if◌then◌else◌, inl, inr, leb, refl, ℕ, ◌++◌, ◌∷◌, ◌≡◌, ◌⊎◌,
}
use lumen_ai_support_agent.Prelude.Exec.{Result, err, ok, raise, ◌>>=◌, ◌>>◌}
use lumen_ai_support_agent.Llm.Types.{
  ChatRequest, ChatResponse, ChatResult, LlmError, provider_unavailable, raised, rate_limited,
  responded,
}
use lumen_ai_support_agent.Budget.Models.{Key}
use lumen_ai_support_agent.Budget.Precheck.{Decision, per_model_invalidate}
use lumen_ai_support_agent.Budget.World.{
  BudgetError, BudgetResolver, InnerResult, Settings, World, from_inner, inner_raised,
  inner_responded, no_chain,
}
use lumen_ai_support_agent.Budget.Gate.{
  cap_decision, current_period, key_at, maybe_raise_budget_gate, pre_check, refuse_at_cap,
}
use lumen_ai_support_agent.Budget.Resolver.{ainvoke, invoke_inner, settle}
use lumen_ai_support_agent.Budget.Sober.{
  IsRead-IsSober, IsSober, cap_decision-IsRead, finish_response-IsSober, gate-IsRead,
}

chat-cases :
    (result : ChatResult)
    → ((resp : ChatResponse) × (result ≡ responded resp)) ⊎ ((e : LlmError) × (result ≡ raised e))
chat-cases (responded resp) = inl (resp, refl)
chat-cases (raised e) = inr (e, refl)

raised-IsSober :
    (p : Result BudgetError (Unit {0}) × World) (w : World)
    → IsSober p.1
    → IsSober (((λ _. p) >> raise {A = ChatResponse} (from_inner rate_limited)) w).1
raised-IsSober (ok tt, w') w h = h
raised-IsSober (err e, w') w h = h

settle-IsSober :
    (settings : Settings) (r : BudgetResolver) (later : ℕ) (request : ChatRequest) (key : Key)
    (starts_at : ℕ) (result : InnerResult) (w : World)
    → IsSober w
    → IsSober (settle settings r later request (key, starts_at) (result, w)).1
settle-IsSober settings r later request key starts_at (inner_responded resp) w h =
    finish_response-IsSober r later key starts_at resp w h
settle-IsSober settings r later request key starts_at no_chain w h =
    let w' : World = record w { calls = w.calls ++ request ∷ [] } in
    elim (chat-cases (r.inner.primary_chat request)) [
      | inl (resp, e) ↦ rw (e, settle) (finish_response-IsSober r later key starts_at resp w' h)
      | inr (x, e) ↦ rw (e, settle) h
    ]
settle-IsSober settings r later request key starts_at (inner_raised rate_limited) w h =
    let w' : World = record w {
      per_model_cache =
          if r.has_per_model_cache
          then per_model_invalidate key w.per_model_cache
          else w.per_model_cache;
    } in
    raised-IsSober (maybe_raise_budget_gate settings r key starts_at w') w' (
      IsRead-IsSober key starts_at w' (maybe_raise_budget_gate settings r key starts_at w').1
        (gate-IsRead settings r key starts_at w') h)
settle-IsSober settings r later request key starts_at (inner_raised provider_unavailable) w h = h
settle-IsSober settings r later request key starts_at (inner_raised _) w h = h

refused-IsSober :
    (key : Key) (starts_at : ℕ) (d : Decision × World)
    → IsSober d.1
    → IsSober (refuse_at_cap key starts_at d).1
refused-IsSober key starts_at ((snap, cap), w) h = elim (Bool-cases (leb cap snap.tokens_used)) [
  | inl y ↦ rw y h
  | inr n ↦ rw n h
]

pre_check-IsSober :
    (settings : Settings) (r : BudgetResolver) (now : ℕ) (w : World)
    → IsSober w
    → IsSober (pre_check settings r now w).1
unfolding pre_check
pre_check-IsSober settings r now w h = elim (Option-cases r.budget) [
  | inl n ↦ rw (n, pre_check) h
  | inr (b, e) ↦ elim (Option-cases b.hard_cap_tokens) [
    | inl n ↦ rw (e, pre_check) (rw n h)
    | inr (cap, c) ↦
        let (key, starts_at) = key_at r (current_period settings b.period_anchor_tz now) in
        let read = cap_decision-IsRead settings r key starts_at now w in
        let sober =
          IsRead-IsSober key starts_at w (cap_decision settings r key starts_at now w).1 read h in
        rw (e, pre_check)
          (rw c (refused-IsSober key starts_at (cap_decision settings r key starts_at now w) sober))
  ]
]

continue-IsSober :
    (settings : Settings) (r : BudgetResolver) (later : ℕ) (request : ChatRequest)
    (p : Result BudgetError (Key × ℕ) × World) (w : World)
    → IsSober p.1
    → IsSober
        (((λ _. p) >>= λ key_start w'.
            settle settings r later request key_start (invoke_inner r request w'))
          w).1
unfolding invoke_inner
continue-IsSober settings r later request (ok (key, starts_at), w') w h =
    settle-IsSober settings r later request key starts_at (invoke_inner r request w').0
      (invoke_inner r request w').1 h
continue-IsSober settings r later request (err e, w') w h = h

ainvoke-IsSober :
    (settings : Settings) (r : BudgetResolver) (now later : ℕ) (request : ChatRequest) (w : World)
    → IsSober w
    → IsSober (ainvoke settings r now later request w).1
unfolding ainvoke invoke_inner
ainvoke-IsSober settings r now later request w h = elim (Option-cases r.budget) [
  | inl n ↦ rw (n, ainvoke) h
  | inr (b, e) ↦
      rw (e, ainvoke)
        (continue-IsSober settings r later request (pre_check settings r now w) w
          (pre_check-IsSober settings r now w h))
]

-- A call, as it comes in.
pub record Incoming : Type 0 where
  pub resolver : BudgetResolver
  pub now : ℕ
  pub later : ℕ
  pub request : ChatRequest

unfoldable pub handle_all : Settings → List Incoming → World → World
handle_all settings [] w = w
handle_all settings (c ∷ cs) w =
    handle_all settings cs (ainvoke settings c.resolver c.now c.later c.request w).1

-- If it holds at first, then whatever calls are handled, one after the other, by whatever resolvers
-- and budgets: the soft warning was given at most once for a tenant and period, and where it was
-- given the stored snapshot says when.
pub handle_all-IsSober :
    (settings : Settings) (cs : List Incoming) (w : World)
    → IsSober w
    → IsSober (handle_all settings cs w)
unfolding handle_all
handle_all-IsSober settings [] w h = h
handle_all-IsSober settings (c ∷ cs) w h =
    handle_all-IsSober settings cs (ainvoke settings c.resolver c.now c.later c.request w).1
      (ainvoke-IsSober settings c.resolver c.now c.later c.request w h)
