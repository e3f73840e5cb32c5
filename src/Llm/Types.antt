-- ===== src/Llm/Types.antt =====
-- llm_client/types.py, llm_client/exceptions.py and what a provider (llm_client/providers) is to
-- its callers. Of a request, the fields that routing neither reads nor writes are one value.
use lumen_ai_support_agent.Prelude.{Bool, List, String, false, true, ℕ}

pub record ChatRequest : Type 0 where
  pub model : String
  pub rest : String

pub record ChatResponse : Type 0 where
  pub content : String
  pub model : String
  pub prompt_tokens : ℕ
  pub completion_tokens : ℕ
  pub finish_reason : String

pub record AttemptRecord : Type 0 where
  pub provider_name : String
  pub model : String
  pub exc_type : String

-- The exceptions that a call can end with. `unavailable_subclass` is another subclass of
-- ProviderUnavailable, such as TenantBudgetExceeded, and `other` any class that is none of these.
pub data LlmError : Type 0 where
  provider_unavailable : LlmError
  rate_limited : LlmError
  invalid_request : LlmError
  output_invalid : LlmError
  timeout_error : LlmError
  fallback_chain_exhausted : List AttemptRecord → LlmError
  unavailable_subclass : String → LlmError
  other : String → LlmError

pub data ChatResult : Type 0 where
  responded : ChatResponse → ChatResult
  raised : LlmError → ChatResult

-- A provider: its name, what a call of `chat` ends with, and after how many milliseconds.
pub record Provider : Type 0 where
  pub name : String
  pub chat : ChatRequest → ℕ × ChatResult

-- `type(exc).__name__`
abbrev pub class_name : LlmError → String
class_name provider_unavailable = "ProviderUnavailable"
class_name rate_limited = "RateLimited"
class_name invalid_request = "InvalidRequest"
class_name output_invalid = "OutputInvalid"
class_name timeout_error = "TimeoutError"
class_name (fallback_chain_exhausted _) = "FallbackChainExhausted"
class_name (unavailable_subclass name) = name
class_name (other name) = name

-- `isinstance(exc, _FALLBACK_TRIGGERS)`; FallbackChainExhausted and `unavailable_subclass` are.
abbrev pub is_trigger : LlmError → Bool
is_trigger provider_unavailable = true
is_trigger rate_limited = true
is_trigger output_invalid = true
is_trigger timeout_error = true
is_trigger (fallback_chain_exhausted _) = true
is_trigger (unavailable_subclass _) = true
is_trigger invalid_request = false
is_trigger (other _) = false

-- The label of the fallback metric for a trigger.
abbrev pub outcome_label : LlmError → String
outcome_label provider_unavailable = "provider_unavailable"
outcome_label output_invalid = "output_invalid"
outcome_label rate_limited = "rate_limited"
outcome_label timeout_error = "timeout"
outcome_label _ = "other"
