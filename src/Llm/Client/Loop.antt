-- ===== src/Llm/Client/Loop.antt =====
-- The loop of llm_client/client.py's `chat`: which attempt answers, and what the attempts leave behind.
use lumen_ai_support_agent.Prelude.{
  Bool-cases, Option, String, [], ap, append-nil, arith, false, inl, inr, leb, length, nat_eq, none,
  pos, refl, some, subst, suc, sym, true, zero, ℕ, ◌+◌, ◌-◌, ◌<◌, ◌∙◌, ◌≡◌, ◌≤◌,
}
use lumen_ai_support_agent.Prelude.Exec.{Result, err, ok}
use lumen_ai_support_agent.Llm.Types.{ChatRequest, ChatResponse}
use lumen_ai_support_agent.Llm.Client.{CallError, Client, ClientState, resolve_request}
use lumen_ai_support_agent.Llm.Client.Chat.{
  Turn, attempted, backoff, chat, chat_with_retry, give_up, handle, retry_loop,
}
use lumen_ai_support_agent.Llm.Client.Retry.{
  IsAnswered, IsStep, Round, answer, handle-Round, retries, rows_of,
}

rows_of-err :
    (client : Client) (o : Option String × Result CallError ChatResponse) (e : CallError)
    → answer o.1 ≡ err e
    → rows_of client o ≡ []
unfolding rows_of answer
rows_of-err client (provider, ok resp) e h = absurd (ground (arith, h))
rows_of-err client (provider, err e') e h = refl

backoff_bounded :
    (jitter : ℕ → ℕ) (attempt : ℕ) → jitter attempt ≤ 500 → backoff jitter attempt ≤ 8500
unfolding backoff
backoff_bounded jitter attempt h = omega arith

module _ (client : Client) (jitter : ℕ → ℕ) (request : ChatRequest) (route : String)
    (max_retries : ℕ) (small : (n : ℕ) → jitter n ≤ 500) where
  abbrev turn_of : ℕ → ClientState → Turn × ClientState
  turn_of attempt s = handle client request route (attempted client.resolver attempt request) s

  abbrev loop :
      ℕ → ℕ → Option CallError → ClientState → Option (Result CallError ChatResponse) × ClientState
  loop fuel attempt last_exc s =
      retry_loop client jitter request route max_retries fuel attempt last_exc s

  loop-finished :
      (fuel attempt : ℕ) (last_exc : Option CallError) (s : ClientState)
      (r : Result CallError ChatResponse)
      → attempt ≤ max_retries
      → (turn_of attempt s).0 ≡ Turn.finished r
      → loop (suc fuel) attempt last_exc s ≡ (some r, (turn_of attempt s).1)
  unfolding retry_loop
  loop-finished fuel attempt last_exc s r b h =
      let inside : leb attempt max_retries ≡ true = ground arith in rw (inside, h) refl

  loop-last :
      (fuel attempt : ℕ) (last_exc : Option CallError) (s : ClientState) (e : CallError)
      → attempt ≡ max_retries
      → (turn_of attempt s).0 ≡ Turn.again e
      → loop (suc fuel) attempt last_exc s ≡ (some (err e), (turn_of attempt s).1)
  unfolding retry_loop give_up
  loop-last fuel attempt last_exc s e b h =
      let inside : leb attempt max_retries ≡ true = ground arith in
      let at_end : nat_eq attempt max_retries ≡ true = ground arith in rw (inside, h, at_end) refl

  loop-again :
      (fuel attempt : ℕ) (last_exc : Option CallError) (s : ClientState) (e : CallError)
      → attempt < max_retries
      → (turn_of attempt s).0 ≡ Turn.again e
      → loop (suc fuel) attempt last_exc s ≡ (
          let s' = (turn_of attempt s).1 in
          loop fuel
            (suc attempt)
            (some e)
            (record s' { slept = s'.slept + backoff jitter attempt }))
  unfolding retry_loop
  loop-again fuel attempt last_exc s e b h =
      let inside : leb attempt max_retries ≡ true = ground arith in
      let before : nat_eq attempt max_retries ≡ false = ground arith in rw (inside, h, before) refl

  -- The loop that ends in this round.
  stop-IsAnswered :
      (attempt : ℕ) (s s' : ClientState) (r : Result CallError ChatResponse)
      (out : Option (Result CallError ChatResponse) × ClientState)
      → attempt ≤ max_retries
      → (retries (attempted client.resolver attempt request).1 ≡ true → attempt ≡ max_retries)
      → answer (attempted client.resolver attempt request).1 ≡ r
      → IsStep (rows_of client (attempted client.resolver attempt request)) s s'
      → out ≡ (some r, s')
      → IsAnswered client request max_retries attempt s out
  unfolding IsAnswered
  stop-IsAnswered attempt s s' r out b last a (p, n, t) e =
      subst (IsAnswered client request max_retries attempt s) (sym e) (
        attempt,
        omega arith,
        b,
        λ j c d. absurd (omega arith),
        last,
        ap some (sym a),
        p,
        omega (arith, n),
        omega (arith, t),
      )

  -- The loop that goes on after this round.
  go_on-IsAnswered :
      (attempt : ℕ) (s s' s'' : ClientState)
      (out : Option (Result CallError ChatResponse) × ClientState)
      → retries (attempted client.resolver attempt request).1 ≡ true
      → IsStep [] s s'
      → s'' ≡ record s' { slept = s'.slept + backoff jitter attempt }
      → IsAnswered client request max_retries (suc attempt) s'' out
      → IsAnswered client request max_retries attempt s out
  unfolding IsAnswered
  go_on-IsAnswered attempt s s' s'' out retried (p, n, t) e
        (k, low, high, before, last, r, rows, metrics, sleep) =
      let waited = backoff_bounded jitter attempt (small attempt) in
      let e' = ap (λ c. c.slept) e in
      let p' : s''.pending ≡ s.pending = ap (λ c. c.pending) e ∙ p ∙ append-nil s.pending in
      let n' : length s''.recorded ≡ suc (length s.recorded) = ap (λ c. length c.recorded) e ∙ n in
      (
        k,
        omega arith,
        high,
        earlier,
        last,
        r,
        rw (← p') rows,
        omega (arith, n', metrics),
        omega (arith, e', t, sleep, waited),
      )
    where
      earlier :
          (j : ℕ) → attempt ≤ j → j < k → retries (attempted client.resolver j request).1 ≡ true
      earlier j a c = elim (Bool-cases (nat_eq attempt j)) [
        | inl y ↦ let e : attempt ≡ j = ground arith in rw (← e) retried
        | inr m ↦ before j (ground arith) c
      ]

  loop-IsAnswered :
      (fuel left attempt : ℕ) (last_exc : Option CallError) (s : ClientState)
      → attempt + left ≡ max_retries
      → left < fuel
      → IsAnswered client request max_retries attempt s (loop fuel attempt last_exc s)
  loop-IsAnswered zero left attempt last_exc s e h = absurd (omega arith)
  loop-IsAnswered (suc fuel) left attempt last_exc s e h =
      let s' = (turn_of attempt s).1 in
      let o = attempted client.resolver attempt request in
      elim (handle-Round client request route o s) [
        | Round.ends t b step ↦
            stop-IsAnswered attempt s s' (answer o.1) _ (omega arith)
              (λ c. absurd (ground (arith, b, c))) refl step
              (loop-finished fuel attempt last_exc s (answer o.1) (omega arith) t)
        | Round.goes_on x t a b step ↦ elim (Bool-cases (nat_eq attempt max_retries)) [
          | inl y ↦
              let m : attempt ≡ max_retries = ground arith in
              stop-IsAnswered attempt s s' (err x) _ (omega arith) (λ c. m) a
                (rw (rows_of-err client o x a) step) (loop-last fuel attempt last_exc s x m t)
          | inr n ↦
              let m : attempt < max_retries = ground arith in
              let s'' : ClientState = record s' { slept = s'.slept + backoff jitter attempt } in
              let rest =
                loop-IsAnswered fuel (left - 1) (suc attempt) (some x) s'' (omega arith)
                  (omega arith) in
              rw (loop-again fuel attempt last_exc s x m t)
                (go_on-IsAnswered attempt s s' s'' _ b step refl rest)
        ]
      ]

chat-loop :
    (client : Client) (jitter : ℕ → ℕ) (request : ChatRequest) (max_retries : ℕ) (s : ClientState)
    → client.resolver.ainvoke ≡ none
    → chat client jitter request (pos max_retries) s
      ≡ retry_loop client jitter
          (resolve_request client.resolver request).0
          (resolve_request client.resolver request).1
          max_retries
          (suc max_retries)
          0
          none
          s
unfolding chat chat_with_retry
chat-loop client jitter request max_retries s h = rw h refl

-- With a jitter of at most half a second, `chat` on a resolver without `ainvoke` and with retries
-- `max_retries` ends, with the answer of some attempt `k` up to `max_retries`: the attempts before it
-- ended in ProviderUnavailable, a subclass of it or OutputInvalid, and so it did only if it is the
-- last. Each attempt is counted once in the metrics, a usage row is queued exactly when it is a
-- response, and the sleep is at most 8.5 seconds for each retry.
pub chat-IsAnswered :
    (client : Client) (jitter : ℕ → ℕ) (request : ChatRequest) (max_retries : ℕ) (s : ClientState)
    → client.resolver.ainvoke ≡ none
    → ((n : ℕ) → jitter n ≤ 500)
    → IsAnswered client
        (resolve_request client.resolver request).0
        max_retries
        0
        s
        (chat client jitter request (pos max_retries) s)
chat-IsAnswered client jitter request max_retries s h small =
    let (resolved, route) = resolve_request client.resolver request in
    subst (IsAnswered client resolved max_retries 0 s)
      (sym (chat-loop client jitter request max_retries s h))
      (loop-IsAnswered client jitter resolved route max_retries small (suc max_retries) max_retries
        0 none s (omega arith) (omega arith))
