-- ===== src/Outbox/Retry.antt =====
-- channel/outbox/dispatcher.py: retries of an event.
use lumen_ai_support_agent.Outbox.Calls.{row_after}
use lumen_ai_support_agent.Outbox.Final.{find-id, find_again}
use lumen_ai_support_agent.Prelude.{
  List, Option, String, ap, arith, eq_iff, false, max, min, none, pow-suc, refl, some, suc, true,
  zero, ℕ, ◌+◌, ◌<◌, ◌==◌, ◌^◌, ◌∙◌, ◌≡◌, ◌≤◌,
}
use lumen_ai_support_agent.Prelude.Table.{find}
use lumen_ai_support_agent.Outbox.{
  EventHandler, HandlerRegistry, Outbox, OutboxEvent, after_failure, attempt, backoff_seconds,
  dispatch_one, due, failed, get_handler, pending,
}

two_pow_pos : (n : ℕ) → 1 ≤ 2 ^ n
two_pow_pos zero = omega arith
two_pow_pos (suc n) = simp pow-suc (omega (arith, two_pow_pos n))

-- A wait is between a second and an hour.
backoff_seconds_bounds : (n : ℕ) → (1 ≤ backoff_seconds n) × (backoff_seconds n ≤ 3600)
unfolding backoff_seconds
backoff_seconds_bounds n = (omega (arith, two_pow_pos n), omega arith)

after_failure_waits :
    (max_attempts now : ℕ) (error : List ℕ) (e : OutboxEvent) (later : ℕ)
    → e.status ≡ pending
    → e.attempts + 1 < max_attempts
    → later < now + backoff_seconds (e.attempts + 1)
    → let e' = after_failure max_attempts now error e in
      (e'.status ≡ pending) × (due e'.next_attempt_at later ≡ false)
after_failure_waits max_attempts now error e later p room soon =
    (unfold after_failure in ground arith, unfold after_failure in ground arith)

module _ (registry : HandlerRegistry) (max_attempts now : ℕ) (event_id : String) (s : Outbox) where
  dispatch_due :
      {e : OutboxEvent} {handler : EventHandler}
      → find (λ x. x.id == event_id) s.events ≡ some e
      → e.status ≡ pending
      → due e.next_attempt_at now ≡ true
      → get_handler e.type registry ≡ some handler
      → dispatch_one registry max_attempts now event_id s ≡ attempt max_attempts now handler e s
  unfolding dispatch_one
  dispatch_due found p d known = ground arith

  -- The row after a dispatch whose handler raised.
  row_after_failure :
      {e : OutboxEvent} {handler : EventHandler} {error : List ℕ}
      → find (λ x. x.id == event_id) s.events ≡ some e
      → e.status ≡ pending
      → due e.next_attempt_at now ≡ true
      → get_handler e.type registry ≡ some handler
      → handler now e.payload_json ≡ some error
      → find (λ x. x.id == event_id) (dispatch_one registry max_attempts now event_id s).1.events
        ≡ some (after_failure max_attempts now error e)
  row_after_failure {e} {handler} {error} found p d known raised =
      let again = find_again registry max_attempts now event_id s found in
      let is = find-id registry max_attempts now event_id s found in
      rw (dispatch_due found p d known) (
        row_after max_attempts now handler e s again event_id
        ∙ rw ((eq_iff e.id event_id).1 is, raised))

  not_due :
      {e : OutboxEvent}
      → find (λ x. x.id == event_id) s.events ≡ some e
      → e.status ≡ pending
      → due e.next_attempt_at now ≡ false
      → dispatch_one registry max_attempts now event_id s ≡ (false, s)
  unfolding dispatch_one
  not_due found p d = ground arith

module _ (registry : HandlerRegistry) (max_attempts now : ℕ) (event_id : String) (s : Outbox) where
  -- After a failure of a pending event that is due, with attempts left, the event waits
  -- min(2 ** attempts, 3600) seconds, which is from a second to an hour: any dispatch before that
  -- answers False and changes nothing.
  pub failure_waits :
      {e : OutboxEvent} {handler : EventHandler} {error : List ℕ}
      → find (λ x. x.id == event_id) s.events ≡ some e
      → e.status ≡ pending
      → due e.next_attempt_at now ≡ true
      → get_handler e.type registry ≡ some handler
      → handler now e.payload_json ≡ some error
      → e.attempts + 1 < max_attempts
      → (wait : ℕ) × (1 ≤ wait)
        × (wait ≤ 3600)
        × (wait ≡ min (2 ^ (e.attempts + 1)) 3600)
        × ((later : ℕ)
            → later < now + wait
            → let s' = (dispatch_one registry max_attempts now event_id s).1 in
              dispatch_one registry max_attempts later event_id s' ≡ (false, s'))
  failure_waits {e} {handler} {error} found p d known raised room =
      let bounds = backoff_seconds_bounds (e.attempts + 1) in
      (
        backoff_seconds (e.attempts + 1),
        bounds.0,
        bounds.1,
        unfold backoff_seconds in refl,
        λ later soon.
            let row =
              row_after_failure registry max_attempts now event_id s found p d known raised in
            let (waits, stays) = after_failure_waits max_attempts now error e later p room soon in
            not_due registry max_attempts later event_id
              (dispatch_one registry max_attempts now event_id s).1 row waits stays,
      )

-- The earliest time, from `now` on, at which the event can be tried.
abbrev pub due_time : ℕ → Option ℕ → ℕ
due_time now none = now
due_time now (some t) = max now t

abbrev next_time : ℕ → Option OutboxEvent → ℕ
next_time now none = now
next_time now (some e) = due_time now e.next_attempt_at

-- The event, dispatched `rounds` times, each time as soon as it is due.
pub retry : ℕ → HandlerRegistry → ℕ → ℕ → String → Outbox → Outbox
retry zero registry max_attempts now event_id s = s
retry (suc rounds) registry max_attempts now event_id s =
    let t = next_time now (find (λ x. x.id == event_id) s.events) in
    retry rounds registry max_attempts t event_id
      (dispatch_one registry max_attempts t event_id s).1

retry_step :
    (rounds : ℕ) (registry : HandlerRegistry) (max_attempts now : ℕ) (event_id : String)
    (s : Outbox) {e : OutboxEvent}
    → find (λ x. x.id == event_id) s.events ≡ some e
    → retry (suc rounds) registry max_attempts now event_id s
      ≡ retry rounds registry max_attempts
          (due_time now e.next_attempt_at)
          event_id
          (dispatch_one registry max_attempts (due_time now e.next_attempt_at) event_id s).1
unfolding retry
retry_step rounds registry max_attempts now event_id s found =
    ap
      (λ o.
        retry rounds registry max_attempts (next_time now o) event_id
          (dispatch_one registry max_attempts (next_time now o) event_id s).1)
      found

due_time-due : (now : ℕ) (next : Option ℕ) → due next (due_time now next) ≡ true
due_time-due now none = refl
due_time-due now (some t) = ground arith

last_failure :
    (max_attempts now : ℕ) (error : List ℕ) (e : OutboxEvent)
    → e.attempts + 1 ≡ max_attempts
    → (after_failure max_attempts now error e).status ≡ failed
unfolding after_failure
last_failure max_attempts now error e h = ground arith

failure_keeps :
    (max_attempts now : ℕ) (error : List ℕ) (e : OutboxEvent)
    → e.attempts + 1 < max_attempts
    → let e' = after_failure max_attempts now error e in
      (e'.status ≡ e.status)
      × (e'.attempts ≡ e.attempts + 1)
      × (e'.type ≡ e.type)
      × (e'.payload_json ≡ e.payload_json)
unfolding after_failure
failure_keeps max_attempts now error e h = (ground arith, ground arith, ground arith, ground arith)

-- A pending event whose handler raises every time is failed after as many dispatches as it has
-- attempts left, each made when it is due.
pub retry_exhausts :
    (rounds : ℕ) (registry : HandlerRegistry) (max_attempts now : ℕ) (event_id : String)
    (s : Outbox) (handler : EventHandler) (error : ℕ → List ℕ) {e : OutboxEvent}
    → find (λ x. x.id == event_id) s.events ≡ some e
    → e.status ≡ pending
    → get_handler e.type registry ≡ some handler
    → ((t : ℕ) → handler t e.payload_json ≡ some (error t))
    → e.attempts + suc rounds ≡ max_attempts
    → (last : OutboxEvent) × (find
          (λ x. x.id == event_id)
          (retry (suc rounds) registry max_attempts now event_id s).events
        ≡ some last)
      × (last.status ≡ failed)
unfolding retry
retry_exhausts zero registry max_attempts now event_id s handler error {e} found p known raises
      left =
    let t = due_time now e.next_attempt_at in
    (
      after_failure max_attempts t (error t) e,
      rw (retry_step 0 registry max_attempts now event_id s found, retry)
          (row_after_failure registry max_attempts t event_id s found p
            (due_time-due now e.next_attempt_at) known (raises t)),
      last_failure max_attempts t (error t) e (omega arith),
    )
retry_exhausts (suc rounds) registry max_attempts now event_id s handler error {e} found p known
      raises left =
    let t = due_time now e.next_attempt_at in
    let (status, attempts, type, payload) =
      failure_keeps max_attempts t (error t) e (omega arith) in
    rw (retry_step (suc rounds) registry max_attempts now event_id s found) (
      retry_exhausts rounds registry max_attempts t event_id
        (dispatch_one registry max_attempts t event_id s).1 handler error
        (row_after_failure registry max_attempts t event_id s found p
          (due_time-due now e.next_attempt_at) known (raises t))
        (status ∙ p) (rw type known) (λ u. rw payload (raises u)) (omega arith))
