-- ===== src/Llm/Client/Chat.antt =====
-- llm_client/client.py: `chat` and its retry loop.
use lumen_ai_support_agent.Prelude.{
  Option, String, if◌then◌else◌, leb, min, nat_eq, negsuc, none, pos, some, suc, zero, ℕ, ℤ, ◌*◌,
  ◌+◌, ◌^◌,
}
use lumen_ai_support_agent.Prelude.Exec.{Result, err, ok}
use lumen_ai_support_agent.Llm.Types.{ChatRequest, ChatResponse, ChatResult, LlmError}
use lumen_ai_support_agent.Llm.Client.{
  CallError, CallMetric, Clause, Client, ClientResolver, ClientState, caught_by, count_call,
  label_of, note_response, resolve_request,
}

abbrev ended : ChatResult → Result CallError ChatResponse
ended (ChatResult.responded resp) = ok resp
ended (ChatResult.raised e) = err (CallError.llm e)

-- The resolver's choice and the call of `chat`: the provider's name, once it is known, and how it ends.
unfoldable pub attempted :
    ClientResolver → ℕ → ChatRequest → Option String × Result CallError ChatResponse
attempted r attempt request = elim (r.call attempt request) [
  | err e ↦ (none, err e)
  | ok p ↦ (some p.name, ended (p.chat request).1)
]

-- How one round of the loop ends: with a result, or with an exception that is retried.
pub data Turn : Type 0 where
  finished : Result CallError ChatResponse → Turn
  again : CallError → Turn

unfoldable pub count_failure : String → ChatRequest → String → String → ClientState → ClientState
count_failure provider request route outcome =
    count_call (CallMetric.failure provider request.model route outcome)

-- The body of each except clause.
unfoldable pub handle_clause :
    Clause → ChatRequest → String → Option String → CallError → ClientState → Turn × ClientState
handle_clause Clause.on_rate_limited request route provider e s =
    (Turn.finished (err e), count_failure (label_of provider) request route "rate_limited" s)
handle_clause Clause.on_invalid_request request route provider e s =
    (Turn.finished (err e), count_failure (label_of provider) request route "invalid_request" s)
handle_clause Clause.on_unavailable request route provider e s =
    (Turn.again e, count_failure (label_of provider) request route "unavailable" s)
handle_clause Clause.on_output_invalid request route provider e s =
    (Turn.again e, count_failure (label_of provider) request route "output_invalid" s)
handle_clause Clause.on_unknown_model request route provider e s = (
  Turn.finished (err (CallError.llm LlmError.invalid_request)),
  count_failure "<unknown>" request "unknown_model" "invalid_request" s,
)
handle_clause Clause.on_exception request route provider e s = (
  Turn.finished (err (CallError.llm LlmError.provider_unavailable)),
  count_failure "<unknown>" request "resolver_error" "unavailable" s,
)

unfoldable pub handle :
    Client
    → ChatRequest
    → String
    → Option String × Result CallError ChatResponse
    → ClientState
    → Turn × ClientState
handle client request route (provider, ok resp) s =
    (Turn.finished (ok resp), note_response client route (label_of provider) resp s)
handle client request route (provider, err e) s =
    handle_clause (caught_by e) request route provider e s

-- `min(2 ** attempt, 8)` seconds and a jitter, in milliseconds.
unfoldable pub backoff : (ℕ → ℕ) → ℕ → ℕ
backoff jitter attempt = 1000 * min (2 ^ attempt) 8 + jitter attempt

-- `assert last_exc is not None`, then `raise last_exc`.
unfoldable pub give_up : Option CallError → CallError
give_up none = CallError.assertion_error
give_up (some e) = e

-- The loop `while attempt <= max_retries`; `none` is a loop that has not ended within its fuel.
unfoldable pub retry_loop :
    Client
    → (ℕ → ℕ)
    → ChatRequest
    → String
    → ℕ
    → ℕ
    → ℕ
    → Option CallError
    → ClientState
    → Option (Result CallError ChatResponse) × ClientState
retry_loop client jitter request route max_retries zero attempt last_exc s = (none, s)
retry_loop client jitter request route max_retries (suc fuel) attempt last_exc s =
    let (turn, s') = handle client request route (attempted client.resolver attempt request) s in
    let s'' : ClientState = record s' { slept = s'.slept + backoff jitter attempt } in
    if leb attempt max_retries
    then elim turn [
      | Turn.finished r ↦ (some r, s')
      | Turn.again e ↦
          let rest =
            retry_loop client jitter request route max_retries fuel (suc attempt) (some e) s'' in
          if nat_eq attempt max_retries then (some (err (give_up (some e))), s') else rest
    ]
    else (some (err (give_up last_exc)), s)

-- With a negative `max_retries` the loop has no round.
unfoldable pub chat_with_retry :
    Client
    → (ℕ → ℕ)
    → ChatRequest
    → ℤ
    → ClientState
    → Option (Result CallError ChatResponse) × ClientState
chat_with_retry client jitter request (negsuc n) s = (some (err (give_up none)), s)
chat_with_retry client jitter request (pos max_retries) s =
    let (resolved, route) = resolve_request client.resolver request in
    retry_loop client jitter resolved route max_retries (suc max_retries) 0 none s

unfoldable pub chat :
    Client
    → (ℕ → ℕ)
    → ChatRequest
    → ℤ
    → ClientState
    → Option (Result CallError ChatResponse) × ClientState
chat client jitter request max_retries s = elim client.resolver.ainvoke [
  | none ↦ chat_with_retry client jitter request max_retries s
  | some ainvoke ↦ (some (ainvoke request), s)
]
