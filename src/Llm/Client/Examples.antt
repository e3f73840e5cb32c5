-- ===== src/Llm/Client/Examples.antt =====
-- A provider that is down at the first attempt and answers the second, and a stream over the budget.
use lumen_ai_support_agent.Prelude.{
  [], arith, false, length, none, pos, refl, some, suc, zero, ℕ, ◌≡◌,
}
use lumen_ai_support_agent.Prelude.Exec.{ok}
use lumen_ai_support_agent.Llm.Types.{ChatRequest, ChatResponse, ChatResult, LlmError}
use lumen_ai_support_agent.Llm.Client.{
  CallError, Client, ClientResolver, ClientState, Streamed, caught_by, count_call, enqueue,
  note_response, resolve_request, route_mode_for,
}
use lumen_ai_support_agent.Llm.Client.Chat.{
  attempted, backoff, chat, chat_with_retry, count_failure, handle, handle_clause, retry_loop,
}
use lumen_ai_support_agent.Llm.Client.Stream.{note_items, stream_chat}
use lumen_ai_support_agent.Llm.Client.Retry.{IsAnswered}
use lumen_ai_support_agent.Llm.Client.Loop.{chat-IsAnswered}
use lumen_ai_support_agent.Llm.Client.Errors.{source, stream_chat_subclass}

abbrev hello : ChatRequest
hello = record { model = "gpt-4o"; rest = "hello" }

abbrev reply : ChatResponse
reply = record {
  content = "hi";
  model = "gpt-4o";
  prompt_tokens = 3;
  completion_tokens = 2;
  finish_reason = "stop";
}

abbrev late : ℕ → ChatResult
late zero = ChatResult.raised LlmError.provider_unavailable
late (suc n) = ChatResult.responded reply

abbrev capped : Streamed
capped = record {
  items = [];
  raises = some (CallError.llm (LlmError.unavailable_subclass "TenantBudgetExceeded"));
}

abbrev late_resolver : ClientResolver
late_resolver = record {
  pinned_model = none;
  is_fallback = false;
  call = λ n request. ok (record { name = "openai"; chat = λ r. (5, late n) });
  stream = λ request. ok ("openai", record { items = []; raises = none });
  ainvoke = none;
  ainvoke_stream = some (λ request. capped);
}

abbrev late_client : Client
late_client = record { tenant_id = "t1"; resolver = late_resolver; request_id = "r1" }

abbrev idle : ClientState
idle = record { pending = []; recorded = []; slept = 0 }

-- One retry after a second, one row.
chat_runs :
    (chat late_client (λ n. 7) hello (pos 1) idle).0 ≡ some (ok reply)
    × ((chat late_client (λ n. 7) hello (pos 1) idle).1.slept ≡ 1007)
    × (length (chat late_client (λ n. 7) hello (pos 1) idle).1.pending ≡ 1)
unfolding chat chat_with_retry resolve_request retry_loop attempted handle handle_clause caught_by
    note_response count_failure count_call enqueue backoff route_mode_for
chat_runs = (refl, refl, refl)

chat-IsAnswered_example :
    IsAnswered late_client
      (resolve_request late_client.resolver hello).0
      1
      0
      idle
      (chat late_client (λ n. 7) hello (pos 1) idle)
chat-IsAnswered_example = chat-IsAnswered late_client (λ n. 7) hello 1 idle refl (λ n. omega arith)

stream_chat_subclass_example : stream_chat late_client hello idle ≡ (
  record capped { raises = some CallError.key_error },
  note_items late_client (resolve_request late_client.resolver hello).1 "openai" [] idle,
)
unfolding source caught_by resolve_request route_mode_for
stream_chat_subclass_example =
    stream_chat_subclass late_client hello idle "openai" capped
      (CallError.llm (LlmError.unavailable_subclass "TenantBudgetExceeded")) refl refl refl
      (λ h. ground (arith, h))
