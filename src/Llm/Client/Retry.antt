-- ===== src/Llm/Client/Retry.antt =====
-- The retry loop of llm_client/client.py: how it ends, after how many attempts, and what it records.
use lumen_ai_support_agent.Prelude.{
  Bool, List, Option, String, [], append-nil, arith, false, length, length-append, refl, some, suc,
  sym, true, ℕ, ◌*◌, ◌++◌, ◌+◌, ◌<◌, ◌∷◌, ◌≡◌, ◌≤◌,
}
use lumen_ai_support_agent.Prelude.Exec.{Result, err, ok}
use lumen_ai_support_agent.Llm.Types.{ChatRequest, ChatResponse, LlmError}
use lumen_ai_support_agent.Llm.Client.{
  CallError, Clause, Client, ClientState, UsageRow, caught_by, count_call, enqueue, label_of,
  note_response, usage_row,
}
use lumen_ai_support_agent.Llm.Client.Chat.{Turn, attempted, count_failure, handle, handle_clause}

-- The errors that are retried: ProviderUnavailable with its subclasses, and OutputInvalid.
unfoldable pub is_retried : Clause → Bool
is_retried Clause.on_unavailable = true
is_retried Clause.on_output_invalid = true
is_retried _ = false

-- What the caller sees of an error.
unfoldable pub surfaced : Clause → CallError → CallError
surfaced Clause.on_unknown_model e = CallError.llm LlmError.invalid_request
surfaced Clause.on_exception e = CallError.llm LlmError.provider_unavailable
surfaced _ e = e

unfoldable pub answer : Result CallError ChatResponse → Result CallError ChatResponse
answer (ok resp) = ok resp
answer (err e) = err (surfaced (caught_by e) e)

unfoldable pub rows_of : Client → Option String × Result CallError ChatResponse → List UsageRow
rows_of client (provider, ok resp) = usage_row client (label_of provider) resp ∷ []
rows_of client (provider, err e) = []

unfoldable pub retries : Result CallError ChatResponse → Bool
retries (ok resp) = false
retries (err e) = is_retried (caught_by e)

-- One metric more, the rows given, and no sleep.
abbrev pub IsStep : List UsageRow → ClientState → ClientState → Type 0
IsStep rows s s' =
    (s'.pending ≡ s.pending ++ rows)
    × (length s'.recorded ≡ suc (length s.recorded))
    × (s'.slept ≡ s.slept)

-- What one round does, when its answer would be `ans`.
pub data Round (ans : Result CallError ChatResponse) (again? : Bool) (rows : List UsageRow)
    (s : ClientState) (t : Turn × ClientState) : Type 0 where
  ends : t.0 ≡ Turn.finished ans → again? ≡ false → IsStep rows s t.1 → Round ans again? rows s t
  goes_on :
      (e : CallError)
      → t.0 ≡ Turn.again e
      → ans ≡ err e
      → again? ≡ true
      → IsStep [] s t.1
      → Round ans again? rows s t

length-snoc : {A : Type 0} (xs : List A) (x : A) → length (xs ++ x ∷ []) ≡ suc (length xs)
length-snoc xs x = omega (arith, length-append xs (x ∷ []))

pub failure-IsStep :
    (provider : String) (request : ChatRequest) (route outcome : String) (s : ClientState)
    → IsStep [] s (count_failure provider request route outcome s)
unfolding count_failure count_call
failure-IsStep provider request route outcome s =
    (sym (append-nil s.pending), length-snoc s.recorded _, refl)

clause-Round :
    (c : Clause) (request : ChatRequest) (route : String) (provider : Option String) (e : CallError)
    (s : ClientState)
    → Round (err (surfaced c e)) (is_retried c) [] s (handle_clause c request route provider e s)
unfolding handle_clause surfaced is_retried
clause-Round Clause.on_rate_limited request route provider e s =
    Round.ends refl refl (failure-IsStep (label_of provider) request route "rate_limited" s)
clause-Round Clause.on_invalid_request request route provider e s =
    Round.ends refl refl (failure-IsStep (label_of provider) request route "invalid_request" s)
clause-Round Clause.on_unavailable request route provider e s =
    Round.goes_on e refl refl refl
      (failure-IsStep (label_of provider) request route "unavailable" s)
clause-Round Clause.on_output_invalid request route provider e s =
    Round.goes_on e refl refl refl
      (failure-IsStep (label_of provider) request route "output_invalid" s)
clause-Round Clause.on_unknown_model request route provider e s =
    Round.ends refl refl (failure-IsStep "<unknown>" request "unknown_model" "invalid_request" s)
clause-Round Clause.on_exception request route provider e s =
    Round.ends refl refl (failure-IsStep "<unknown>" request "resolver_error" "unavailable" s)

pub handle-Round :
    (client : Client) (request : ChatRequest) (route : String)
    (o : Option String × Result CallError ChatResponse) (s : ClientState)
    → Round (answer o.1) (retries o.1) (rows_of client o) s (handle client request route o s)
unfolding handle rows_of answer retries note_response enqueue count_call
handle-Round client request route (provider, ok resp) s =
    Round.ends refl refl (refl, length-snoc s.recorded _, refl)
handle-Round client request route (provider, err e) s =
    clause-Round (caught_by e) request route provider e s

-- From an attempt on, the loop has ended with the answer of attempt `k`: those before it were retried,
-- and it was not, or is the last. There is a metric for each attempt, the usage row of a response, and
-- at most 8.5 seconds of sleep for each retry.
unfoldable pub IsAnswered :
    Client
    → ChatRequest
    → ℕ
    → ℕ
    → ClientState
    → Option (Result CallError ChatResponse) × ClientState
    → Type 0
IsAnswered client request max_retries attempt s (result, s') =
    (k : ℕ) × (attempt ≤ k)
    × (k ≤ max_retries)
    × ((j : ℕ) → attempt ≤ j → j < k → retries (attempted client.resolver j request).1 ≡ true)
    × (retries (attempted client.resolver k request).1 ≡ true → k ≡ max_retries)
    × (result ≡ some (answer (attempted client.resolver k request).1))
    × (s'.pending ≡ s.pending ++ rows_of client (attempted client.resolver k request))
    × (length s'.recorded + attempt ≡ suc (length s.recorded + k))
    × (s'.slept + 8500 * attempt ≤ s.slept + 8500 * k)
