-- ===== src/Outbox/Final.antt =====
-- channel/outbox/dispatcher.py: what `dispatch_one` does to an event.
use lumen_ai_support_agent.Prelude.{
  All, Bool, Bool-cases, List, Option-cases, String, ap, arith, eq_iff, inl, inr, leb, leb→le,
  length, length-take-le, none, refl, some, subst, sym, true, ℕ, ◌&&◌, ◌+◌, ◌<◌, ◌==◌, ◌∙◌, ◌≡◌,
  ◌≤◌, ◌⊎◌,
}
use lumen_ai_support_agent.Prelude.Table.{find}
use lumen_ai_support_agent.Prelude.Table.Laws.{All-update_first, find_sound}
use lumen_ai_support_agent.Outbox.{
  EventHandler, HandlerRegistry, Outbox, OutboxEvent, Outcome, after, after_failure, after_success,
  attempt, dispatch_one, done, due, failed, get_handler, is_pending, pending,
}

module _ (registry : HandlerRegistry) (max_attempts now : ℕ) (event_id : String) (s : Outbox) where
  -- Either nothing happens, or the handler of a pending event that is due is called once.
  pub dispatch_one_cases :
      ((dispatch_one registry max_attempts now event_id s).1 ≡ s)
      ⊎ ((e : OutboxEvent) × (handler : EventHandler) × (find (λ x. x.id == event_id) s.events
            ≡ some e)
          × (e.status ≡ pending)
          × (due e.next_attempt_at now ≡ true)
          × (get_handler e.type registry ≡ some handler)
          × (dispatch_one registry max_attempts now event_id s
              ≡ attempt max_attempts now handler e s))
  unfolding dispatch_one
  dispatch_one_cases = elim (Option-cases (find (λ x. x.id == event_id) s.events)) [
    | inl n ↦ inl (ground arith)
    | inr (e, found) ↦ elim (Option-cases (get_handler e.type registry)) [
      | inl n ↦ inl (ground arith)
      | inr (h, known) ↦ elim (Bool-cases (is_pending e.status && due e.next_attempt_at now)) [
        | inl y ↦ inr (e, h, found, ground arith, ground arith, known, ground arith)
        | inr n ↦ inl (ground arith)
      ]
    ]
  ]

  -- An event that is done or has failed is answered with True, and nothing is called or changed.
  pub dispatch_one_final :
      {e : OutboxEvent}
      → find (λ x. x.id == event_id) s.events ≡ some e
      → (e.status ≡ done) ⊎ (e.status ≡ failed)
      → dispatch_one registry max_attempts now event_id s ≡ (true, s)
  unfolding dispatch_one
  dispatch_one_final h f = ground arith

  pub find-id : {e : OutboxEvent} → find (λ x. x.id == event_id) s.events ≡ some e → e.id ≡ event_id
  find-id {e} h = (eq_iff e.id event_id).0 (find_sound _ s.events h)

  -- The row by its own id, and by the id that was asked for.
  pub find_again :
      {e : OutboxEvent}
      → find (λ x. x.id == event_id) s.events ≡ some e
      → find (λ x. x.id == e.id) s.events ≡ some e
  find_again {e} h = subst (λ j. find (λ x. x.id == j) s.events ≡ some e) (sym (find-id h)) h

-- What holds of every event, whatever was dispatched before.
pub record IsValid (max_attempts : ℕ) (e : OutboxEvent) : Type 0 where
  pub tried : e.attempts ≤ max_attempts
  pub can_retry : e.status ≡ pending → e.attempts < max_attempts
  pub exhausted : e.status ≡ failed → e.attempts ≡ max_attempts
  pub processed : e.status ≡ done → (t : ℕ) × (e.processed_at ≡ some t)
  pub error_fits : (error : List ℕ) → e.last_error ≡ some error → length error ≤ 2000

after-IsValid :
    (max_attempts now : ℕ) (outcome : Outcome) (e : OutboxEvent)
    → e.status ≡ pending
    → IsValid max_attempts e
    → IsValid max_attempts (after max_attempts now outcome e)
unfolding after_failure after_success
after-IsValid max_attempts now none e p v = record {
  tried = omega (arith, v.can_retry p);
  can_retry = λ q. cc;
  exhausted = λ q. cc;
  processed = λ q. (now, refl);
  error_fits = v.error_fits;
}
after-IsValid max_attempts now (some error) e p v =
    elim (Bool-cases (leb max_attempts (e.attempts + 1))) [
      | inl y ↦ rw y (record {
        tried = omega (arith, v.can_retry p);
        can_retry = λ q. cc;
        exhausted = λ q. omega (arith, v.can_retry p, leb→le max_attempts (e.attempts + 1) y);
        processed = λ q. cc;
        error_fits = λ error' q. ground (arith, length-take-le 2000 error);
      })
      | inr n ↦ rw n (record {
        tried = omega (arith, v.can_retry p);
        can_retry = λ q. ground arith;
        exhausted = λ q. cc;
        processed = λ q. cc;
        error_fits = λ error' q. ground (arith, length-take-le 2000 error);
      })
    ]

pub after-id :
    (max_attempts now : ℕ) (outcome : Outcome) (e : OutboxEvent)
    → (after max_attempts now outcome e).id ≡ e.id
unfolding after_failure after_success
after-id max_attempts now none e = refl
after-id max_attempts now (some error) e = ground arith

pub dispatch_one-IsValid :
    (registry : HandlerRegistry) (max_attempts now : ℕ) (event_id : String) (s : Outbox)
    → All (IsValid max_attempts) s.events
    → All (IsValid max_attempts) (dispatch_one registry max_attempts now event_id s).1.events
dispatch_one-IsValid registry max_attempts now event_id s v =
    elim (dispatch_one_cases registry max_attempts now event_id s) [
      | inl same ↦ subst (λ (o : Outbox). All (IsValid max_attempts) o.events) (sym same) v
      | inr (e, handler, found, p, d, known, result) ↦
          let outcome = handler now e.payload_json in
          subst (λ (o : Bool × Outbox). All (IsValid max_attempts) o.1.events) (sym result)
            (All-update_first (λ x. x.id == e.id) (after max_attempts now outcome) s.events v
              (λ x at_x vx.
                let it : x ≡ e = cc (find_again registry max_attempts now event_id s found) in
                after-IsValid max_attempts now outcome x (ap (λ (y : OutboxEvent). y.status) it ∙ p)
                  vx))
    ]
