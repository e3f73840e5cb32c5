-- ===== src/Llm/Client/Stream.antt =====
-- llm_client/client.py: `stream_chat`, read to its end by the caller.
use lumen_ai_support_agent.Llm.Client.Chat.{count_failure}
use lumen_ai_support_agent.Prelude.{List, Option, String, [], none, some, ◌∷◌}
use lumen_ai_support_agent.Prelude.Exec.{err, ok}
use lumen_ai_support_agent.Llm.Types.{ChatRequest, LlmError}
use lumen_ai_support_agent.Llm.Client.{
  CallError, Clause, Client, ClientState, StreamItem, Streamed, caught_by, note_response,
  resolve_request,
}

-- What is yielded: each item, and a row for each final response.
unfoldable pub note_items : Client → String → String → List StreamItem → ClientState → ClientState
note_items client route provider [] s = s
note_items client route provider (StreamItem.delta d ∷ items) s =
    note_items client route provider items s
note_items client route provider (StreamItem.final resp ∷ items) s =
    note_items client route provider items (note_response client route provider resp s)

-- `outcome_map[type(e)]`, by the exact class.
unfoldable pub outcome_of : CallError → Option String
outcome_of (CallError.llm LlmError.rate_limited) = some "rate_limited"
outcome_of (CallError.llm LlmError.invalid_request) = some "invalid_request"
outcome_of (CallError.llm LlmError.provider_unavailable) = some "unavailable"
outcome_of (CallError.llm LlmError.output_invalid) = some "output_invalid"
outcome_of (CallError.llm (LlmError.fallback_chain_exhausted attempts)) = none
outcome_of (CallError.llm LlmError.timeout_error) = none
outcome_of (CallError.llm (LlmError.other name)) = none
outcome_of (CallError.llm (LlmError.unavailable_subclass name)) = none
outcome_of CallError.unknown_model_error = none
outcome_of CallError.key_error = none
outcome_of CallError.assertion_error = none

-- The clause for the four classes: a class that the map does not have raises KeyError.
unfoldable pub mapped_error :
    ChatRequest → String → String → CallError → ClientState → CallError × ClientState
mapped_error request route provider e s = elim (outcome_of e) [
  | none ↦ (CallError.key_error, s)
  | some outcome ↦ (e, count_failure provider request route outcome s)
]

unfoldable pub unknown_model : ChatRequest → ClientState → CallError × ClientState
unknown_model request s = (
  CallError.llm LlmError.invalid_request,
  count_failure "<unknown>" request "unknown_model" "invalid_request" s,
)

-- The except clauses around `ainvoke_stream`, and those of the path without it.
unfoldable pub budget_error :
    ChatRequest → String → String → CallError → ClientState → CallError × ClientState
budget_error request route provider e s = elim (caught_by e) [
  | Clause.on_unknown_model ↦ unknown_model request s
  | Clause.on_exception ↦ (e, s)
  | _ ↦ mapped_error request route provider e s
]

unfoldable pub legacy_error :
    ChatRequest → String → String → CallError → ClientState → CallError × ClientState
legacy_error request route provider e s = elim (caught_by e) [
  | Clause.on_unknown_model ↦ unknown_model request s
  | Clause.on_exception ↦ (
    CallError.llm LlmError.provider_unavailable,
    count_failure "<unknown>" request "resolver_error" "unavailable" s,
  )
  | _ ↦ mapped_error request route provider e s
]

-- The items that reach the caller, and what it raises.
unfoldable pub stream_end :
    (CallError → ClientState → CallError × ClientState)
    → Streamed
    → ClientState
    → Streamed × ClientState
stream_end on_error streamed s = elim streamed.raises [
  | none ↦ (streamed, s)
  | some e ↦ let (e', s') = on_error e s in (record streamed { raises = some e' }, s')
]

unfoldable pub budget_stream :
    Client → ChatRequest → String → (ChatRequest → Streamed) → ClientState → Streamed × ClientState
budget_stream client request route ainvoke_stream s = elim (client.resolver.call 0 request) [
  | err e ↦ (record { items = []; raises = some e }, s)
  | ok p ↦
      let streamed = ainvoke_stream request in
      stream_end (budget_error request route p.name) streamed
        (note_items client route p.name streamed.items s)
]

unfoldable pub legacy_stream : Client → ChatRequest → String → ClientState → Streamed × ClientState
legacy_stream client request route s = elim (client.resolver.stream request) [
  | err e ↦
      stream_end (legacy_error request route "<unknown>") (record { items = []; raises = some e }) s
  | ok (name, streamed) ↦
      stream_end (legacy_error request route name) streamed
        (note_items client route name streamed.items s)
]

-- `stream_chat`, read to its end by the caller.
unfoldable pub stream_chat : Client → ChatRequest → ClientState → Streamed × ClientState
stream_chat client request s =
    let (resolved, route) = resolve_request client.resolver request in
    elim client.resolver.ainvoke_stream [
      | none ↦ legacy_stream client resolved route s
      | some ainvoke_stream ↦ budget_stream client resolved route ainvoke_stream s
    ]
