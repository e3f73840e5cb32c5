-- ===== src/Outbox/Calls.antt =====
-- channel/outbox/dispatcher.py: how often handlers are called.
use lumen_ai_support_agent.Prelude.Table.Keys.{find-update_key}
use lumen_ai_support_agent.Prelude.{
  All, Bool, List, String, [], arith, eq_iff, if◌then◌else◌, inl, inr, none, refl, some, subst, sym,
  ℕ, ◌&&◌, ◌++◌, ◌+◌, ◌==◌, ◌∷◌, ◌≡◌, ◌≤◌,
}
use lumen_ai_support_agent.Prelude.Table.{count_where, find}
use lumen_ai_support_agent.Prelude.Table.Laws.{count_where-append}
use lumen_ai_support_agent.Prelude.Table.Rows.{find-All}
use lumen_ai_support_agent.Outbox.{
  Call, EventHandler, HandlerRegistry, Outbox, OutboxEvent, OutboxStatus, Outcome, after,
  after_failure, after_success, attempt, dispatch_one, done, pending, returns,
}
use lumen_ai_support_agent.Outbox.Final.{
  IsValid, after-id, dispatch_one-IsValid, dispatch_one_cases, find_again,
}

abbrev pub calls_of : String → Outbox → ℕ
calls_of i s = count_where (λ c. c.event_id == i) s.calls

abbrev pub returns_of : String → Outbox → ℕ
returns_of i s = count_where (λ c. c.event_id == i && c.returned) s.calls

abbrev is_done : OutboxStatus → ℕ
is_done done = 1
is_done _ = 0

-- The rows count the calls: `attempts` all of them, `done` the one that returned.
pub record IsCounted (s : Outbox) : Type 0 where
  pub attempts :
      (i : String) (e : OutboxEvent)
      → find (λ x. x.id == i) s.events ≡ some e
      → calls_of i s ≡ e.attempts
  pub returned :
      (i : String) (e : OutboxEvent)
      → find (λ x. x.id == i) s.events ≡ some e
      → returns_of i s ≡ is_done e.status

after_counts :
    (max_attempts now : ℕ) (outcome : Outcome) (e : OutboxEvent)
    → e.status ≡ pending
    → ((after max_attempts now outcome e).attempts ≡ e.attempts + 1)
      × (is_done (after max_attempts now outcome e).status ≡ (if returns outcome then 1 else 0))
unfolding after_failure after_success
after_counts max_attempts now none e p = (refl, refl)
after_counts max_attempts now (some error) e p = (ground arith, ground arith)

count-append_call :
    (p : Call → Bool) (c : Call) (calls : List Call)
    → count_where p (calls ++ c ∷ []) ≡ count_where p calls + (if p c then 1 else 0)
count-append_call p c calls = ground (arith, count_where-append p calls (c ∷ []))

module _ (max_attempts now : ℕ) (handler : EventHandler) (e : OutboxEvent) (s : Outbox) where
  pub row_after :
      find (λ x. x.id == e.id) s.events ≡ some e
      → (i : String)
      → find (λ x. x.id == i) (attempt max_attempts now handler e s).1.events ≡ (
          if e.id == i
          then some (after max_attempts now (handler now e.payload_json) e)
          else find (λ x. x.id == i) s.events)
  row_after found i =
      let outcome = handler now e.payload_json in
      ground (
        arith,
        found,
        eq_iff e.id i,
        find-update_key (λ (x : OutboxEvent). x.id) (after max_attempts now outcome)
            (after-id max_attempts now outcome) i e.id s.events,
      )

  attempt-IsCounted :
      find (λ x. x.id == e.id) s.events ≡ some e
      → e.status ≡ pending
      → IsCounted s
      → IsCounted (attempt max_attempts now handler e s).1
  attempt-IsCounted found p c =
      let outcome = handler now e.payload_json in
      let call : Call = record { event_id = e.id; at = now; returned = returns outcome } in
      let counts = after_counts max_attempts now outcome e p in
      record {
        attempts = λ i x h. ground (
          arith,
          row_after found i,
          eq_iff e.id i,
          count-append_call (λ c. c.event_id == i) call s.calls,
          counts,
          c.attempts i x,
          c.attempts e.id e,
        );
        returned = λ i x h. ground (
          arith,
          row_after found i,
          eq_iff e.id i,
          count-append_call (λ c. c.event_id == i && c.returned) call s.calls,
          counts,
          c.returned i x,
          c.returned e.id e,
        );
      }

pub dispatch_one-IsCounted :
    (registry : HandlerRegistry) (max_attempts now : ℕ) (event_id : String) (s : Outbox)
    → IsCounted s
    → IsCounted (dispatch_one registry max_attempts now event_id s).1
dispatch_one-IsCounted registry max_attempts now event_id s c =
    elim (dispatch_one_cases registry max_attempts now event_id s) [
      | inl same ↦ subst IsCounted (sym same) c
      | inr (e, handler, found, p, d, known, result) ↦
          subst (λ (o : Bool × Outbox). IsCounted o.1) (sym result)
            (attempt-IsCounted max_attempts now handler e s
              (find_again registry max_attempts now event_id s found) p c)
    ]

-- A history of the dispatcher: at each time, one id.
unfoldable pub dispatches : HandlerRegistry → ℕ → List (ℕ × String) → Outbox → Outbox
dispatches registry max_attempts [] s = s
dispatches registry max_attempts ((now, i) ∷ rest) s =
    dispatches registry max_attempts rest (dispatch_one registry max_attempts now i s).1

-- What both invariants say of a state.
abbrev pub IsSound : ℕ → Outbox → Type 0
IsSound max_attempts s = All (IsValid max_attempts) s.events × IsCounted s

-- From an outbox where it holds, over any dispatches, at any times and with any handlers: no event
-- has more than `max_attempts` attempts; a pending one has fewer, a failed one has as many, and a
-- done one has the time of its processing; an error text has at most 2000 characters; `attempts`
-- counts the handler's calls for the event, and of these one returned if the event is done and none
-- if it is not.
pub dispatches-IsSound :
    (registry : HandlerRegistry) (max_attempts : ℕ) (h : List (ℕ × String)) (s : Outbox)
    → IsSound max_attempts s
    → IsSound max_attempts (dispatches registry max_attempts h s)
unfolding dispatches
dispatches-IsSound registry max_attempts [] s v = v
dispatches-IsSound registry max_attempts ((now, i) ∷ rest) s v =
    dispatches-IsSound registry max_attempts rest (dispatch_one registry max_attempts now i s).1 (
      dispatch_one-IsValid registry max_attempts now i s v.0,
      dispatch_one-IsCounted registry max_attempts now i s v.1,
    )

-- From an outbox whose events are valid and count the calls so far, whatever is dispatched, whenever
-- and however often: the handler of an event is called `max_attempts` times at most, it returns once
-- at most, and if it has returned the event is done.
pub dispatches_bounded :
    (registry : HandlerRegistry) (max_attempts : ℕ) (h : List (ℕ × String)) (s : Outbox)
    (i : String) {e : OutboxEvent}
    → IsSound max_attempts s
    → find (λ x. x.id == i) (dispatches registry max_attempts h s).events ≡ some e
    → (calls_of i (dispatches registry max_attempts h s) ≤ max_attempts)
      × (returns_of i (dispatches registry max_attempts h s) ≤ 1)
      × (returns_of i (dispatches registry max_attempts h s) ≡ 1 → e.status ≡ done)
dispatches_bounded registry max_attempts h s i {e} sound found =
    let (valid, counted) = dispatches-IsSound registry max_attempts h s sound in
    let v =
      find-All (IsValid max_attempts) (λ x. x.id == i) (dispatches registry max_attempts h s).events
        valid found in
    (
      omega (arith, v.tried, counted.attempts i e found),
      ground (arith, counted.returned i e found),
      λ once. ground (arith, counted.returned i e found),
    )
