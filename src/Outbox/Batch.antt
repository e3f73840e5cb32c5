-- ===== src/Outbox/Batch.antt =====
-- channel/outbox/dispatcher.py: the size of a batch
use lumen_ai_support_agent.Prelude.{
  List, String, [], ap, arith, if◌then◌else◌, inl, inr, length, length-append, length-take-le, map,
  refl, suc, take, ℕ, ◌&&◌, ◌+◌, ◌∷◌, ◌≡◌, ◌≤◌,
}
use lumen_ai_support_agent.Prelude.Table.{select}
use lumen_ai_support_agent.Outbox.{
  HandlerRegistry, Outbox, OutboxEvent, dispatch_batch, dispatch_each, dispatch_one, due, due_ids,
  is_pending, order_by_created,
}
use lumen_ai_support_agent.Outbox.Final.{dispatch_one_cases}

length-map : (es : List OutboxEvent) → length (map (λ (e : OutboxEvent). e.id) es) ≡ length es
length-map [] = refl
length-map (e ∷ es) = ap suc (length-map es)

length-due_ids :
    (now limit : ℕ) (events : List OutboxEvent) → length (due_ids now limit events) ≤ limit
unfolding due_ids
length-due_ids now limit events =
    let ordered =
      order_by_created (select (λ e. is_pending e.status && due e.next_attempt_at now) events) in
    omega (arith, length-map (take limit ordered), length-take-le limit ordered)

-- One call at most, and none if the id is not in the list.
one_call :
    (registry : HandlerRegistry) (max_attempts now : ℕ) (event_id : String) (s : Outbox)
    → length (dispatch_one registry max_attempts now event_id s).1.calls ≤ length s.calls + 1
one_call registry max_attempts now event_id s =
    elim (dispatch_one_cases registry max_attempts now event_id s) [
      | inl same ↦ rw same (omega arith)
      | inr (e, handler, found, p, d, known, result) ↦
          rw result (omega (arith, length-append {0} s.calls))
    ]

dispatch_each_bounds :
    (registry : HandlerRegistry) (max_attempts : ℕ) (clock : String → ℕ) (is : List String)
    (dispatched : ℕ) (s : Outbox)
    → let (n, s') = dispatch_each registry max_attempts clock is dispatched s in
      (n ≤ dispatched + length is) × (length s'.calls ≤ length s.calls + length is)
unfolding dispatch_each
dispatch_each_bounds registry max_attempts clock [] dispatched s = (omega arith, omega arith)
dispatch_each_bounds registry max_attempts clock (i ∷ is) dispatched s =
    let (ok, s') = dispatch_one registry max_attempts (clock i) i s in
    let rest =
      dispatch_each_bounds registry max_attempts clock is
        (if ok then dispatched + 1 else dispatched) s' in
    let first = one_call registry max_attempts (clock i) i s in
    (ground (arith, rest), ground (arith, rest, first))

-- A batch calls handlers at most `limit` times and reports at most `limit` events as dispatched.
pub dispatch_batch_bounds :
    (registry : HandlerRegistry) (max_attempts now : ℕ) (clock : String → ℕ) (limit : ℕ)
    (s : Outbox)
    → let (n, s') = dispatch_batch registry max_attempts now clock limit s in
      (n ≤ limit) × (length s'.calls ≤ length s.calls + limit)
unfolding dispatch_batch
dispatch_batch_bounds registry max_attempts now clock limit s =
    let bounds =
      dispatch_each_bounds registry max_attempts clock (due_ids now limit s.events) 0 s in
    let size = length-due_ids now limit s.events in
    (omega (arith, bounds, size), omega (arith, bounds, size))
