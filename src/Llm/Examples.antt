-- ===== src/Llm/Examples.antt =====
-- A gateway with two providers, of which the first is down.
use lumen_ai_support_agent.Prelude.{List, [], none, refl, some, true, ◌∷◌, ◌≡◌, ◌≢◌, ◌⊎◌}
use lumen_ai_support_agent.Prelude.Exec.{err, ok}
use lumen_ai_support_agent.Llm.Types.{
  ChatRequest, Provider, provider_unavailable, raised, responded,
}
use lumen_ai_support_agent.Llm.Resolvers.{
  FallbackResolver, PinnedResolver, Providers, ainvoke, fallback_resolver, get_provider,
  value_error,
}
use lumen_ai_support_agent.Llm.Gateway.{gateway}
use lumen_ai_support_agent.Llm.RuntimeChain.{ChainStep, RuntimeChain, active_chain, replace_steps}
use lumen_ai_support_agent.Llm.Fallback.{Answers, ainvoke-Answers}
use lumen_ai_support_agent.Llm.Distinct.{IsDistinct, fallback_resolver-exact}
use lumen_ai_support_agent.Llm.Chain.{replace_steps_duplicates}

abbrev down : Provider
down = record { name = "minimax"; chat = λ r. (50, raised provider_unavailable) }

abbrev up : Provider
up = record {
  name = "anthropic";
  chat = λ r. (
    80,
    responded (record {
      content = "hello";
      model = r.model;
      prompt_tokens = 3;
      completion_tokens = 4;
      finish_reason = "stop";
    }),
  );
}

abbrev both : Providers
both = ("minimax", down) ∷ ("anthropic", up) ∷ []

abbrev steps : List PinnedResolver
steps = record { provider = down; model = "m1" } ∷ record { provider = up; model = "c1" } ∷ []

abbrev chain_of_two : FallbackResolver
chain_of_two = record { steps = steps; timeout = some 1000 }

abbrev request : ChatRequest
request = record { model = "claude-x"; rest = "" }

ainvoke-Answers_example : Answers (some 1000) request steps (ainvoke chain_of_two request).0
ainvoke-Answers_example = ainvoke-Answers chain_of_two request

fallback_resolver-exact_example :
    ((steps ≢ [])
      × IsDistinct steps
      × (fallback_resolver steps none ≡ ok (record { steps = steps; timeout = none })))
    ⊎ (¬ ((steps ≢ []) × IsDistinct steps) × (fallback_resolver steps none ≡ err value_error))
fallback_resolver-exact_example = fallback_resolver-exact steps none

abbrev step : ChainStep
step = record { provider = "anthropic"; model = "c1"; enabled = true }

abbrev no_chain : RuntimeChain
no_chain = record { steps = [] }

replace_steps_duplicates_example :
    let (r, chain') = replace_steps (step ∷ step ∷ []) ("anthropic" ∷ []) no_chain in
    (r ≡ ok tt) × (gateway both none (active_chain chain') none ≡ err value_error)
unfolding get_provider
replace_steps_duplicates_example =
    replace_steps_duplicates [] [] [] step ("anthropic" ∷ []) no_chain both none none {p = up}
      (refl, (refl, tt)) refl refl
