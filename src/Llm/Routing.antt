-- ===== src/Llm/Routing.antt =====
-- llm_client/gateway.py: routing by the model name's prefix
use lumen_ai_support_agent.Prelude.{
  Option, Option-cases, String, [], arith, eq_refl, inl, inr, none, some, ℕ, ◌∷◌, ◌≡◌,
}
use lumen_ai_support_agent.Prelude.Exec.{ok}
use lumen_ai_support_agent.Llm.Types.{ChatRequest, Provider}
use lumen_ai_support_agent.Llm.Resolvers.{
  Providers, family, get_provider, prefix_resolve, prefix_table,
}
use lumen_ai_support_agent.Llm.Gateway.{LlmGateway, by_prefix, gateway}

-- A provider is registered.
abbrev pub IsRegistered : Providers → Provider → Type 0
IsRegistered providers p = (name : String) × (get_provider name providers ≡ some p)

prefix_routed :
    (lower : String → String) (providers : Providers) (default_name : String)
    (request : ChatRequest) {d : Provider}
    → get_provider default_name providers ≡ some d
    → (p : Provider) × IsRegistered providers p
      × (prefix_resolve lower providers default_name request ≡ ok p)
unfolding prefix_resolve
prefix_routed lower providers default_name request {d} h =
    elim (Option-cases (family (lower request.model) prefix_table)) [
      | inl e ↦ (d, (default_name, h), ground (arith, h, e))
      | inr (name, e) ↦ elim (Option-cases (get_provider name providers)) [
        | inl n ↦ (d, (default_name, h), ground (arith, h, e, n))
        | inr (p, g) ↦ (p, (name, g), ground (arith, h, e, g))
      ]
    ]

-- A gateway that is built with no default name and no chain routes every request, whatever its
-- model, to a registered provider: UnknownModelError is never raised.
pub gateway_routes :
    (lower : String → String) (providers : Providers) (timeout : Option ℕ) (request : ChatRequest)
    {g : LlmGateway}
    → gateway providers none [] timeout ≡ ok g
    → (g.resolver ≡ by_prefix providers g.default_provider_name)
      × (p : Provider) × IsRegistered providers p
      × (prefix_resolve lower providers g.default_provider_name request ≡ ok p)
unfolding gateway
gateway_routes lower [] timeout request h = cc
gateway_routes lower ((first, p) ∷ ps) timeout request {g} h =
    let name : g.default_provider_name ≡ first = ground arith in
    let found : get_provider first ((first, p) ∷ ps) ≡ some p =
      unfold get_provider in rw (eq_refl first) in
    let (q, registered, routed) = prefix_routed lower ((first, p) ∷ ps) first request found in
    (ground arith, q, registered, rw name routed)
