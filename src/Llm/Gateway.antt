-- ===== src/Llm/Gateway.antt =====
-- llm_client/gateway.py
use lumen_ai_support_agent.Prelude.{List, Option, String, [], none, some, ℕ, ◌∷◌}
use lumen_ai_support_agent.Prelude.Exec.{Result, err, ok}
use lumen_ai_support_agent.Llm.Resolvers.{
  ConfigError, FallbackResolver, PinnedResolver, Providers, fallback_resolver, get_provider,
  runtime_error, value_error,
}

-- The two kinds of `self._resolver`.
pub data Resolver : Type 0 where
  by_chain : FallbackResolver → Resolver
  by_prefix : Providers → String → Resolver

pub record LlmGateway : Type 0 where
  pub providers : Providers
  pub default_provider_name : String
  pub resolver : Resolver

-- The steps of the chain whose provider is registered; the others are skipped with a warning.
unfoldable pub registered_steps : Providers → List (String × String) → List PinnedResolver
registered_steps providers [] = []
registered_steps providers ((name, model) ∷ chain) = elim (get_provider name providers) [
  | none ↦ registered_steps providers chain
  | some p ↦ record { provider = p; model = model } ∷ registered_steps providers chain
]

abbrev chain_resolver : Result ConfigError FallbackResolver → Result ConfigError Resolver
chain_resolver (ok r) = ok (by_chain r)
chain_resolver (err e) = err e

abbrev with_resolver :
    Providers → String → Result ConfigError Resolver → Result ConfigError LlmGateway
with_resolver providers default_name (ok r) =
    ok (record { providers = providers; default_provider_name = default_name; resolver = r })
with_resolver providers default_name (err e) = err e

-- `if default_fallback_chain:` is false of None and of an empty list.
abbrev build_resolver :
    Providers → String → List (String × String) → Option ℕ → Result ConfigError Resolver
build_resolver providers default_name [] timeout = ok (by_prefix providers default_name)
build_resolver providers default_name (step ∷ chain) timeout =
    chain_resolver (fallback_resolver (registered_steps providers (step ∷ chain)) timeout)

-- `default_provider_name`, or the first that was registered.
abbrev default_name_of : Option String → String → String
default_name_of none first = first
default_name_of (some name) first = name

unfoldable pub gateway :
    Providers → Option String → List (String × String) → Option ℕ → Result ConfigError LlmGateway
gateway [] default_name chain timeout = err runtime_error
gateway ((first, p) ∷ ps) default_name chain timeout =
    let providers : Providers = (first, p) ∷ ps in
    let name = default_name_of default_name first in
    with_resolver providers name (build_resolver providers name chain timeout)

-- `with_config`
unfoldable pub with_config : LlmGateway → String → String → Result ConfigError PinnedResolver
with_config g provider model = elim (get_provider provider g.providers) [
  | none ↦ err value_error
  | some p ↦ ok (record { provider = p; model = model })
]
