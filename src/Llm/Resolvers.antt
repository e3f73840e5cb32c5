-- ===== src/Llm/Resolvers.antt =====
-- llm_client/resolvers.py
use mathlib.Core.Option
use mathlib.Core.List.{head?}
use text.Mathlib.Text.{starts_with}
use lumen_ai_support_agent.Prelude.{
  Bool, List, Option, String, [], false, if◌then◌else◌, ltb, none, some, true, ℕ, ◌&&◌, ◌++◌, ◌+◌,
  ◌==◌, ◌||◌, ◌∷◌,
}
use lumen_ai_support_agent.Prelude.Exec.{Result, err, ok}
use lumen_ai_support_agent.Llm.Types.{
  AttemptRecord, ChatRequest, ChatResult, LlmError, Provider, class_name, fallback_chain_exhausted,
  is_trigger, outcome_label, raised, responded, timeout_error,
}

pub data ConfigError : Type 0 where
  value_error runtime_error unknown_model : ConfigError

pub record PinnedResolver : Type 0 where
  pub provider : Provider
  pub model : String

-- A dict of providers by name, in the order of insertion.
abbrev pub Providers : Type 0
Providers = List (String × Provider)

unfoldable pub get_provider : String → Providers → Option Provider
get_provider name [] = none
get_provider name ((n, p) ∷ ps) = if n == name then some p else get_provider name ps

abbrev pub prefix_table : List (String × String)
prefix_table =
    ("minimax-", "minimax")
    ∷ ("claude-", "anthropic")
    ∷ ("gpt-", "openai")
    ∷ ("o1-", "openai")
    ∷ ("o3-", "openai")
    ∷ []

-- The loop over the table: the family of the first prefix that the name has.
unfoldable pub family : String → List (String × String) → Option String
family model_lower [] = none
family model_lower ((prefix, name) ∷ table) =
    if starts_with model_lower prefix then some name else family model_lower table

abbrev or_unknown : Option Provider → Result ConfigError Provider
or_unknown none = err unknown_model
or_unknown (some p) = ok p

-- `_PrefixResolver.__call__`; `lower` is Python's `str.lower`.
unfoldable pub prefix_resolve :
    (String → String) → Providers → String → ChatRequest → Result ConfigError Provider
prefix_resolve lower providers default_name request =
    let by_default = or_unknown (get_provider default_name providers) in
    elim (family (lower request.model) prefix_table) [
      | none ↦ by_default
      | some name ↦ elim (get_provider name providers) [ none ↦ by_default | some p ↦ ok p ]
    ]

-- `(provider.name, model)` of a step is among those seen.
unfoldable pub is_seen : PinnedResolver → List PinnedResolver → Bool
is_seen step [] = false
is_seen step (s ∷ seen) =
    (s.provider.name == step.provider.name && s.model == step.model) || is_seen step seen

unfoldable pub has_duplicate : List PinnedResolver → List PinnedResolver → Bool
unfolding is_seen
has_duplicate seen [] = false
has_duplicate seen (step ∷ steps) =
    if is_seen step seen then true else has_duplicate (step ∷ seen) steps

pub record FallbackResolver : Type 0 where
  pub steps : List PinnedResolver
  pub timeout : Option ℕ

unfoldable pub fallback_resolver :
    List PinnedResolver → Option ℕ → Result ConfigError FallbackResolver
unfolding has_duplicate
fallback_resolver [] timeout = err value_error
fallback_resolver (s ∷ steps) timeout =
    if has_duplicate [] (s ∷ steps)
    then err value_error
    else ok (record { steps = s ∷ steps; timeout = timeout })

-- `asyncio.wait_for` where a timeout is set
abbrev timed : Option ℕ → ℕ × ChatResult → ChatResult
timed none (took, r) = r
timed (some limit) (took, r) = if ltb took limit then r else raised timeout_error

-- One step: the model is rewritten and the provider is called.
unfoldable pub call_step : Option ℕ → PinnedResolver → ChatRequest → ChatResult
call_step timeout step request =
    timed timeout (step.provider.chat (record request { model = step.model }))

-- One increment of LLM_FALLBACK_ATTEMPTS_TOTAL.
pub record Metric : Type 0 where
  pub provider : String
  pub model : String
  pub step : ℕ
  pub outcome : String

abbrev pub metric_of : PinnedResolver → ℕ → String → Metric
metric_of step step_idx outcome = record {
  provider = step.provider.name;
  model = step.model;
  step = step_idx;
  outcome = outcome;
}

abbrev pub attempt_of : PinnedResolver → LlmError → AttemptRecord
attempt_of step e = record {
  provider_name = step.provider.name;
  model = step.model;
  exc_type = class_name e;
}

-- The loop of `ainvoke`, with the metrics that it has counted.
unfoldable pub invoke_steps :
    Option ℕ
    → ChatRequest
    → ℕ
    → List PinnedResolver
    → List AttemptRecord
    → List Metric
    → ChatResult × List Metric
invoke_steps timeout request step_idx [] attempts metrics =
    (raised (fallback_chain_exhausted attempts), metrics)
invoke_steps timeout request step_idx (step ∷ steps) attempts metrics =
    elim (call_step timeout step request) [
      | responded resp ↦ (responded resp, metrics ++ metric_of step step_idx "success" ∷ [])
      | raised e ↦
          let rest =
            invoke_steps timeout request (step_idx + 1) steps (attempts ++ attempt_of step e ∷ [])
              (metrics ++ metric_of step step_idx (outcome_label e) ∷ []) in
          if is_trigger e then rest else (raised e, metrics)
    ]

unfoldable pub ainvoke : FallbackResolver → ChatRequest → ChatResult × List Metric
unfolding invoke_steps
ainvoke r request = invoke_steps r.timeout request 0 r.steps [] []

-- `__call__`: the provider of the first step.
unfoldable pub primary : FallbackResolver → Option Provider
primary r = Option.map (λ (s : PinnedResolver). s.provider) (head? r.steps)
