-- ===== src/Llm/Client.antt =====
-- llm_client/client.py: LLMClient.chat with its retries, stream_chat, and llm_client/usage.py's queue
-- of usage rows. Spans are not modelled, nor is the cost of a row (a float), nor its id.
pub mod Chat
pub mod Stream
pub mod Retry
pub mod Loop
pub mod Errors
mod Examples
use lumen_ai_support_agent.Prelude.Exec.{Result}
use lumen_ai_support_agent.Prelude.{
  Bool, List, Option, String, [], if◌then◌else◌, none, some, ℕ, ◌++◌, ◌∷◌,
}
use lumen_ai_support_agent.Llm.Types.{ChatRequest, ChatResponse, LlmError, Provider}

-- The exceptions that reach the client: those of the LLM client, UnknownModelError, which resolvers
-- raise, and the two that Python raises itself.
pub data CallError : Type 0 where
  llm : LlmError → CallError
  unknown_model_error : CallError
  key_error : CallError
  assertion_error : CallError

-- The except clauses, in their order.
pub data Clause : Type 0 where
  on_rate_limited on_invalid_request on_unavailable on_output_invalid : Clause
  on_unknown_model on_exception : Clause

unfoldable pub caught_by : CallError → Clause
caught_by (CallError.llm LlmError.rate_limited) = Clause.on_rate_limited
caught_by (CallError.llm LlmError.invalid_request) = Clause.on_invalid_request
caught_by (CallError.llm LlmError.provider_unavailable) = Clause.on_unavailable
caught_by (CallError.llm (LlmError.fallback_chain_exhausted attempts)) = Clause.on_unavailable
caught_by (CallError.llm (LlmError.unavailable_subclass name)) = Clause.on_unavailable
caught_by (CallError.llm LlmError.output_invalid) = Clause.on_output_invalid
caught_by CallError.unknown_model_error = Clause.on_unknown_model
caught_by (CallError.llm LlmError.timeout_error) = Clause.on_exception
caught_by (CallError.llm (LlmError.other name)) = Clause.on_exception
caught_by CallError.key_error = Clause.on_exception
caught_by CallError.assertion_error = Clause.on_exception

pub data StreamItem : Type 0 where
  delta : String → StreamItem
  final : ChatResponse → StreamItem

-- What a stream yields, and what it raises after that.
pub record Streamed : Type 0 where
  pub items : List StreamItem
  pub raises : Option CallError

-- A resolver: its `model` when it is a PinnedResolver, its `__call__`, which may answer otherwise in
-- each attempt, the same followed by the provider's name and `stream`, and the methods that it may have.
pub record ClientResolver : Type 0 where
  pub pinned_model : Option String
  pub is_fallback : Bool
  pub call : ℕ → ChatRequest → Result CallError Provider
  pub stream : ChatRequest → Result CallError (String × Streamed)
  pub ainvoke : Option (ChatRequest → Result CallError ChatResponse)
  pub ainvoke_stream : Option (ChatRequest → Streamed)

pub record UsageRow : Type 0 where
  pub tenant_id : String
  pub provider : String
  pub model : String
  pub prompt_tokens : ℕ
  pub completion_tokens : ℕ
  pub request_id : String

pub data CallMetric : Type 0 where
  success : String → String → String → ℕ → ℕ → CallMetric
  failure : String → String → String → String → CallMetric

-- The queue of usage rows, the metrics recorded, and the milliseconds slept.
pub record ClientState : Type 0 where
  pub pending : List UsageRow
  pub recorded : List CallMetric
  pub slept : ℕ

unfoldable pub enqueue : UsageRow → ClientState → ClientState
enqueue row s = record s { pending = s.pending ++ row ∷ [] }

unfoldable pub count_call : CallMetric → ClientState → ClientState
count_call c s = record s { recorded = s.recorded ++ c ∷ [] }

-- One client: its tenant, its resolver, and the id of the request.
pub record Client : Type 0 where
  pub tenant_id : String
  pub resolver : ClientResolver
  pub request_id : String

unfoldable pub route_mode_for : ClientResolver → String
route_mode_for r =
    if r.is_fallback
    then "fallback"
    else elim r.pinned_model [ none ↦ "auto" | some model ↦ "pinned" ]

unfoldable pub resolve_request : ClientResolver → ChatRequest → ChatRequest × String
resolve_request r request = elim r.pinned_model [
  | none ↦ (request, route_mode_for r)
  | some model ↦ (record request { model = model }, "pinned")
]

unfoldable pub usage_row : Client → String → ChatResponse → UsageRow
usage_row client provider resp = record {
  tenant_id = client.tenant_id;
  provider = provider;
  model = resp.model;
  prompt_tokens = resp.prompt_tokens;
  completion_tokens = resp.completion_tokens;
  request_id = client.request_id;
}

unfoldable pub note_response : Client → String → String → ChatResponse → ClientState → ClientState
note_response client route provider resp s =
    count_call
      (CallMetric.success provider resp.model route resp.prompt_tokens resp.completion_tokens)
      (enqueue (usage_row client provider resp) s)

unfoldable pub label_of : Option String → String
label_of none = "<unknown>"
label_of (some name) = name
