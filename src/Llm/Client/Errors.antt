-- ===== src/Llm/Client/Errors.antt =====
-- What llm_client/client.py's `stream_chat` raises when a stream breaks off.
use lumen_ai_support_agent.Prelude.{
  Option, Option-cases, String, arith, inl, inr, none, none≢some, refl, some, some-injective, subst,
  sym, ◌∙◌, ◌≡◌, ◌≢◌,
}
use lumen_ai_support_agent.Llm.Types.{ChatRequest, LlmError, Provider}
use lumen_ai_support_agent.Llm.Client.{
  CallError, Clause, Client, ClientState, Streamed, caught_by, note_response, resolve_request,
  route_mode_for, usage_row,
}
use lumen_ai_support_agent.Llm.Client.Stream.{
  budget_error, budget_stream, legacy_error, legacy_stream, mapped_error, note_items, outcome_of,
  stream_chat, stream_end,
}
use lumen_ai_support_agent.Prelude.Exec.{Result, Result-cases, err, ok}

-- The stream that a request gets, with the provider's name: that of `ainvoke_stream`, when the resolver has it
-- and resolves the request, and the provider's own when it has not.
unfoldable pub source : Client → ChatRequest → Option (String × Streamed)
source client request = elim client.resolver.ainvoke_stream [
  | none ↦ elim (client.resolver.stream request) [ err e ↦ none | ok found ↦ some found ]
  | some f ↦ elim (client.resolver.call 0 request) [
    | err e ↦ none
    | ok p ↦ some (p.name, f request)
  ]
]

unavailable-unmapped :
    (e : CallError)
    → caught_by e ≡ Clause.on_unavailable
    → e ≢ CallError.llm LlmError.provider_unavailable
    → outcome_of e ≡ none
unfolding caught_by outcome_of
unavailable-unmapped (CallError.llm LlmError.rate_limited) h k = absurd (ground (arith, h))
unavailable-unmapped (CallError.llm LlmError.invalid_request) h k = absurd (ground (arith, h))
unavailable-unmapped (CallError.llm LlmError.provider_unavailable) h k = absurd (k refl)
unavailable-unmapped (CallError.llm LlmError.output_invalid) h k = absurd (ground (arith, h))
unavailable-unmapped (CallError.llm (LlmError.fallback_chain_exhausted attempts)) h k = refl
unavailable-unmapped (CallError.llm LlmError.timeout_error) h k = refl
unavailable-unmapped (CallError.llm (LlmError.other name)) h k = refl
unavailable-unmapped (CallError.llm (LlmError.unavailable_subclass name)) h k = refl
unavailable-unmapped CallError.unknown_model_error h k = refl
unavailable-unmapped CallError.key_error h k = refl
unavailable-unmapped CallError.assertion_error h k = refl

module _ (e : CallError) (h : caught_by e ≡ Clause.on_unavailable)
    (k : e ≢ CallError.llm LlmError.provider_unavailable) where
  budget_error-key :
      (request : ChatRequest) (route provider : String) (s : ClientState)
      → budget_error request route provider e s ≡ (CallError.key_error, s)
  unfolding budget_error mapped_error
  budget_error-key request route provider s =
      rw (h, budget_error, unavailable-unmapped e h k, mapped_error) refl

  legacy_error-key :
      (request : ChatRequest) (route provider : String) (s : ClientState)
      → legacy_error request route provider e s ≡ (CallError.key_error, s)
  unfolding legacy_error mapped_error
  legacy_error-key request route provider s =
      rw (h, legacy_error, unavailable-unmapped e h k, mapped_error) refl

  -- The caller gets the items of a stream with this error, then KeyError.
  abbrev EndsInKey : Client → ChatRequest → String × Streamed → ClientState → Type 0
  EndsInKey client request (name, streamed) s =
      streamed.raises ≡ some e
      → stream_chat client request s ≡ (
        record streamed { raises = some CallError.key_error },
        note_items client (resolve_request client.resolver request).1 name streamed.items s,
      )

  module _ (client : Client) (request : ChatRequest) (s : ClientState) where
    plain-EndsInKey :
        (found : String × Streamed)
        → client.resolver.ainvoke_stream ≡ none
        → client.resolver.stream (resolve_request client.resolver request).0 ≡ ok found
        → EndsInKey client request found s
    unfolding stream_chat legacy_stream resolve_request route_mode_for note_items note_response
        usage_row stream_end
    plain-EndsInKey (name, streamed) plain got broken =
        let (resolved, route) = resolve_request client.resolver request in
        rw
          (
            plain,
            stream_chat,
            got,
            legacy_stream,
            broken,
            stream_end,
            legacy_error-key resolved route name (note_items client route name streamed.items s),
          )
          refl

    budget-EndsInKey :
        (f : ChatRequest → Streamed) (p : Provider)
        → client.resolver.ainvoke_stream ≡ some f
        → client.resolver.call 0 (resolve_request client.resolver request).0 ≡ ok p
        → EndsInKey client request (p.name, f (resolve_request client.resolver request).0) s
    unfolding stream_chat budget_stream resolve_request route_mode_for note_items note_response
        usage_row stream_end
    budget-EndsInKey f p has got broken =
        let (resolved, route) = resolve_request client.resolver request in
        rw
          (
            has,
            stream_chat,
            got,
            budget_stream,
            broken,
            stream_end,
            budget_error-key resolved route p.name
                (note_items client route p.name (f resolved).items s),
          )
          refl

module _ (client : Client) (request : ChatRequest) where
  source-plain :
      (r : Result CallError (String × Streamed))
      → client.resolver.ainvoke_stream ≡ none
      → client.resolver.stream request ≡ r
      → source client request ≡ elim r [ err e ↦ none | ok found ↦ some found ]
  unfolding source
  source-plain r plain e = rw (plain, source, e) refl

  source-budget :
      (f : ChatRequest → Streamed) (r : Result CallError Provider)
      → client.resolver.ainvoke_stream ≡ some f
      → client.resolver.call 0 request ≡ r
      → source client request ≡ elim r [ err e ↦ none | ok p ↦ some (p.name, f request) ]
  unfolding source
  source-budget f r has e = rw (has, source, e) refl

-- When a stream breaks off with a proper subclass of ProviderUnavailable, such as
-- TenantBudgetExceeded, the caller of `stream_chat` gets the items before it and then KeyError, on
-- both paths, and no failure is counted.
pub stream_chat_subclass :
    (client : Client) (request : ChatRequest) (s : ClientState) (name : String)
    (streamed : Streamed) (e : CallError)
    → source client (resolve_request client.resolver request).0 ≡ some (name, streamed)
    → streamed.raises ≡ some e
    → caught_by e ≡ Clause.on_unavailable
    → e ≢ CallError.llm LlmError.provider_unavailable
    → stream_chat client request s ≡ (
      record streamed { raises = some CallError.key_error },
      note_items client (resolve_request client.resolver request).1 name streamed.items s,
    )
stream_chat_subclass client request s name streamed e from broken h k =
    let resolved = (resolve_request client.resolver request).0 in
    elim (Option-cases client.resolver.ainvoke_stream) [
      | inl plain ↦ elim (Result-cases (client.resolver.stream resolved)) [
        | inl (e', failed) ↦
            absurd (none≢some (sym (source-plain client resolved _ plain failed) ∙ from))
        | inr (found, got) ↦
            subst (λ x. EndsInKey e h k client request x s)
              (some-injective (sym (source-plain client resolved _ plain got) ∙ from))
              (plain-EndsInKey e h k client request s found plain got) broken
      ]
      | inr (f, has) ↦ elim (Result-cases (client.resolver.call 0 resolved)) [
        | inl (e', failed) ↦
            absurd (none≢some (sym (source-budget client resolved f _ has failed) ∙ from))
        | inr (p, got) ↦
            subst (λ x. EndsInKey e h k client request x s)
              (some-injective (sym (source-budget client resolved f _ has got) ∙ from))
              (budget-EndsInKey e h k client request s f p has got) broken
      ]
    ]
