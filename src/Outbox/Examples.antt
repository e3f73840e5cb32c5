-- ===== src/Outbox/Examples.antt =====
-- The dispatcher on an outbox of one event.
use lumen_ai_support_agent.Prelude.{
  List, String, [], arith, eq_iff, false, min, none, refl, some, ℕ, ◌+◌, ◌<◌, ◌==◌, ◌^◌, ◌∷◌, ◌≡◌,
  ◌≤◌,
}
use lumen_ai_support_agent.Prelude.Table.{find}
use lumen_ai_support_agent.Outbox.{
  EventHandler, HandlerRegistry, Outbox, OutboxEvent, after_failure, backoff_seconds, dispatch_one,
  done, failed, get_handler, pending,
}
use lumen_ai_support_agent.Outbox.Final.{IsValid}
use lumen_ai_support_agent.Outbox.Calls.{
  IsCounted, IsSound, calls_of, dispatches, dispatches-IsSound, dispatches_bounded, returns_of,
}
use lumen_ai_support_agent.Outbox.Retry.{failure_waits, retry, retry_exhausts}

abbrev event : OutboxEvent
event = record {
  id = "o1";
  tenant_id = "acme";
  type = "reply";
  payload_json = "{}";
  status = pending;
  attempts = 0;
  last_error = none;
  next_attempt_at = none;
  created_at = 10;
  processed_at = none;
}

abbrev boom : ℕ → List ℕ
boom t = 98 ∷ 111 ∷ 111 ∷ 109 ∷ []

abbrev broken : EventHandler
broken t payload = some (boom t)

abbrev handlers : HandlerRegistry
handlers = ("reply", broken) ∷ []

abbrev one_pending : Outbox
one_pending = record { events = event ∷ []; calls = [] }

event-IsValid : IsValid 5 event
event-IsValid = record {
  tried = omega arith;
  can_retry = λ p. omega arith;
  exhausted = λ p. cc;
  processed = λ p. cc;
  error_fits = λ error p. cc;
}

one_pending-IsCounted : IsCounted one_pending
one_pending-IsCounted = record {
  attempts = λ i e h. ground (arith, eq_iff "o1" i);
  returned = λ i e h. ground (arith, eq_iff "o1" i);
}

-- The history of a broken handler that is tried six times.
abbrev history : List (ℕ × String)
history = (10, "o1") ∷ (100, "o1") ∷ (200, "o1") ∷ (300, "o1") ∷ (400, "o1") ∷ (500, "o1") ∷ []

abbrev given_up : OutboxEvent
given_up = record event {
  status = failed;
  attempts = 5;
  last_error = some (boom 0);
  next_attempt_at = some 316;
}

dispatches_bounded_example :
    (calls_of "o1" (dispatches handlers 5 history one_pending) ≤ 5)
    × (returns_of "o1" (dispatches handlers 5 history one_pending) ≤ 1)
    × (returns_of "o1" (dispatches handlers 5 history one_pending) ≡ 1 → failed ≡ done)
unfolding dispatches dispatch_one get_handler after_failure backoff_seconds
dispatches_bounded_example =
    dispatches_bounded handlers 5 history one_pending "o1" {e = given_up}
      ((event-IsValid, tt), one_pending-IsCounted) refl

dispatches-IsSound_example : IsSound 5 (dispatches handlers 5 history one_pending)
dispatches-IsSound_example =
    dispatches-IsSound handlers 5 history one_pending ((event-IsValid, tt), one_pending-IsCounted)

failure_waits_example :
    (wait : ℕ) × (1 ≤ wait)
    × (wait ≤ 3600)
    × (wait ≡ min (2 ^ 1) 3600)
    × ((later : ℕ)
        → later < 10 + wait
        → let s' = (dispatch_one handlers 5 10 "o1" one_pending).1 in
          dispatch_one handlers 5 later "o1" s' ≡ (false, s'))
unfolding get_handler
failure_waits_example =
    failure_waits handlers 5 10 "o1" one_pending {e = event} {handler = broken} {error = boom 10}
      refl refl refl refl refl (omega arith)

retry_exhausts_example :
    (last : OutboxEvent) × (find (λ x. x.id == "o1") (retry 5 handlers 5 10 "o1" one_pending).events
      ≡ some last)
    × (last.status ≡ failed)
unfolding get_handler
retry_exhausts_example =
    retry_exhausts 4 handlers 5 10 "o1" one_pending broken boom {e = event} refl refl refl
      (λ t. refl) refl
