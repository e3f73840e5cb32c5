-- ===== src/Llm/Fallback.antt =====
-- What a fallback chain does with a request.
use mathlib.Core.List.{append-nil, append_assoc}
use lumen_ai_support_agent.Prelude.{
  Bool-cases, List, Option, [], ap, false, inl, inr, refl, subst, sym, true, ℕ, ◌++◌, ◌+◌, ◌∙◌, ◌∷◌,
  ◌≡◌, ◌⊎◌,
}
use lumen_ai_support_agent.Llm.Types.{
  AttemptRecord, ChatRequest, ChatResponse, ChatResult, LlmError, fallback_chain_exhausted,
  is_trigger, outcome_label, raised, responded,
}
use lumen_ai_support_agent.Llm.Resolvers.{
  FallbackResolver, Metric, PinnedResolver, ainvoke, attempt_of, call_step, invoke_steps, metric_of,
}

-- The request reaches the end of these steps: each raises a trigger, as recorded.
pub data AllFail (timeout : Option ℕ) (request : ChatRequest)
    : List PinnedResolver → List AttemptRecord → Type 0 where
  none_left : AllFail timeout request [] []
  one_more :
      {step : PinnedResolver} {steps : List PinnedResolver} {records : List AttemptRecord}
      (e : LlmError)
      → call_step timeout step request ≡ raised e
      → is_trigger e ≡ true
      → AllFail timeout request steps records
      → AllFail timeout request (step ∷ steps) (attempt_of step e ∷ records)

-- What ends the loop before its end: a response, or an exception that is no trigger.
abbrev pub IsDecisive : ChatResult → Type 0
IsDecisive (responded _) = Unit
IsDecisive (raised e) = is_trigger e ≡ false

-- How the chain answers.
pub data Answers (timeout : Option ℕ) (request : ChatRequest) (steps : List PinnedResolver)
    : ChatResult → Type 0 where
  decided :
      (before after : List PinnedResolver) (step : PinnedResolver) (records : List AttemptRecord)
      {r : ChatResult}
      → steps ≡ before ++ step ∷ after
      → AllFail timeout request before records
      → call_step timeout step request ≡ r
      → IsDecisive r
      → Answers timeout request steps r
  exhausted :
      (records : List AttemptRecord)
      → AllFail timeout request steps records
      → Answers timeout request steps (raised (fallback_chain_exhausted records))

ChatResult-cases :
    (r : ChatResult)
    → ((resp : ChatResponse) × (r ≡ responded resp)) ⊎ ((e : LlmError) × (r ≡ raised e))
ChatResult-cases (responded resp) = inl (resp, refl)
ChatResult-cases (raised e) = inr (e, refl)

-- The answer of the loop, which starts with `attempts` on record.
abbrev Verdict :
    Option ℕ → ChatRequest → List PinnedResolver → List AttemptRecord → ChatResult → Type 0
Verdict timeout request steps attempts r =
    ((before : List PinnedResolver) × (after : List PinnedResolver) × (step : PinnedResolver)
      × (records : List AttemptRecord) × (steps ≡ before ++ step ∷ after)
      × AllFail timeout request before records
      × (call_step timeout step request ≡ r)
      × IsDecisive r)
    ⊎ ((records : List AttemptRecord) × AllFail timeout request steps records
        × (r ≡ raised (fallback_chain_exhausted (attempts ++ records))))

module _ (timeout : Option ℕ) (request : ChatRequest) where
  -- A step that failed, before the verdict on the others.
  Verdict-step :
      (step : PinnedResolver) (steps : List PinnedResolver) (attempts : List AttemptRecord)
      (e : LlmError) (r : ChatResult)
      → call_step timeout step request ≡ raised e
      → is_trigger e ≡ true
      → Verdict timeout request steps (attempts ++ attempt_of step e ∷ []) r
      → Verdict timeout request (step ∷ steps) attempts r
  Verdict-step step steps attempts e r c t
        (inl (before, after, s, records, split, fails, call, d)) =
      inl (
        step ∷ before,
        after,
        s,
        attempt_of step e ∷ records,
        ap (λ l. step ∷ l) split,
        one_more e c t fails,
        call,
        d,
      )
  Verdict-step step steps attempts e r c t (inr (records, fails, same)) = inr (
    attempt_of step e ∷ records,
    one_more e c t fails,
    same
        ∙ ap (λ l. raised (fallback_chain_exhausted l))
            (append_assoc attempts (attempt_of step e ∷ []) records),
  )

  module _ (k : ℕ) (step : PinnedResolver) (steps : List PinnedResolver)
      (attempts : List AttemptRecord) (metrics : List Metric) where
    invoke_responded :
        {resp : ChatResponse}
        → call_step timeout step request ≡ responded resp
        → (invoke_steps timeout request k (step ∷ steps) attempts metrics).0 ≡ responded resp
    unfolding invoke_steps
    invoke_responded e = rw (e, invoke_steps)

    invoke_trigger :
        {x : LlmError}
        → call_step timeout step request ≡ raised x
        → is_trigger x ≡ true
        → invoke_steps timeout request k (step ∷ steps) attempts metrics
          ≡ invoke_steps timeout request
              (k + 1)
              steps
              (attempts ++ attempt_of step x ∷ [])
              (metrics ++ metric_of step k (outcome_label x) ∷ [])
    unfolding invoke_steps
    invoke_trigger e t = rw (e, invoke_steps) (rw t)

    invoke_fatal :
        {x : LlmError}
        → call_step timeout step request ≡ raised x
        → is_trigger x ≡ false
        → (invoke_steps timeout request k (step ∷ steps) attempts metrics).0 ≡ raised x
    unfolding invoke_steps
    invoke_fatal e n = rw (e, invoke_steps) (rw n)

  invoke-Verdict :
      (k : ℕ) (steps : List PinnedResolver) (attempts : List AttemptRecord) (metrics : List Metric)
      → Verdict timeout request steps attempts
          (invoke_steps timeout request k steps attempts metrics).0
  invoke-Verdict k [] attempts metrics = inr ([], none_left, unfold invoke_steps in rw append-nil)
  invoke-Verdict k (step ∷ steps) attempts metrics =
      elim (ChatResult-cases (call_step timeout step request)) [
        | inl (resp, e) ↦
            let result = invoke_responded k step steps attempts metrics e in
            inl ([], steps, step, [], refl, none_left, e ∙ sym result, rw result tt)
        | inr (x, e) ↦ elim (Bool-cases (is_trigger x)) [
          | inl t ↦ rw (invoke_trigger k step steps attempts metrics e t) (
              Verdict-step step steps attempts x _ e t (
                invoke-Verdict (k + 1) steps (attempts ++ attempt_of step x ∷ [])
                  (metrics ++ metric_of step k (outcome_label x) ∷ [])))
          | inr n ↦
              let result = invoke_fatal k step steps attempts metrics e n in
              inl ([], steps, step, [], refl, none_left, e ∙ sym result, rw result n)
        ]
      ]

-- A chain answers with the first step that responds or raises something that is no trigger, after
-- steps that all failed; where every step fails it raises
-- FallbackChainExhausted with one record for each step, in order.
pub ainvoke-Answers :
    (r : FallbackResolver) (request : ChatRequest)
    → Answers r.timeout request r.steps (ainvoke r request).0
unfolding ainvoke
ainvoke-Answers r request = elim (invoke-Verdict r.timeout request 0 r.steps [] []) [
  | inl (before, after, step, records, split, fails, call, d) ↦
      decided before after step records split fails call d
  | inr (records, fails, same) ↦
      subst (Answers r.timeout request r.steps) (sym same) (exhausted records fails)
]
