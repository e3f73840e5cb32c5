-- ===== src/Outbox.antt =====
-- The outbox (apps/api/src/channel/outbox/dispatcher.py and `OutboxEvent` of channel/models.py).
-- Times are seconds. A handler is code from elsewhere: at a time, on a payload, it returns or it
-- raises with an error text. `calls` records what was called, as the world outside sees it.
pub mod Final
pub mod Calls
pub mod Retry
pub mod Batch
mod Examples
use lumen_ai_support_agent.Prelude.{
  Bool, List, Option, String, [], false, if◌then◌else◌, leb, map, min, none, not, some, take, true,
  ℕ, ◌&&◌, ◌++◌, ◌+◌, ◌==◌, ◌^◌, ◌∷◌,
}
use lumen_ai_support_agent.Prelude.Table.{find, select, update_first}

pub data OutboxStatus : Type 0 where
  pending done failed : OutboxStatus

pub record OutboxEvent : Type 0 where
  pub id : String
  pub tenant_id : String
  pub type : String
  pub payload_json : String
  pub status : OutboxStatus
  pub attempts : ℕ
  pub last_error : Option (List ℕ)  -- code points
  pub next_attempt_at : Option ℕ
  pub created_at : ℕ
  pub processed_at : Option ℕ

-- `none` is a return, `some text` an exception, as `f"{type(exc).__name__}: {exc}"` shows it.
abbrev pub Outcome : Type 0
Outcome = Option (List ℕ)

abbrev pub EventHandler : Type 0
EventHandler = ℕ → String → Outcome

-- HandlerRegistry, a dict by event type
abbrev pub HandlerRegistry : Type 0
HandlerRegistry = List (String × EventHandler)

unfoldable pub register : String → EventHandler → HandlerRegistry → HandlerRegistry
register event_type handler [] = (event_type, handler) ∷ []
register event_type handler ((t, h) ∷ r) =
    if t == event_type then (event_type, handler) ∷ r else (t, h) ∷ register event_type handler r

unfoldable pub get_handler : String → HandlerRegistry → Option EventHandler
get_handler event_type [] = none
get_handler event_type ((t, h) ∷ r) = if t == event_type then some h else get_handler event_type r

pub record Call : Type 0 where
  pub event_id : String
  pub at : ℕ
  pub returned : Bool

pub record Outbox : Type 0 where
  pub events : List OutboxEvent
  pub calls : List Call

-- `min(2 ** event.attempts, 3600)`
unfoldable pub backoff_seconds : ℕ → ℕ
backoff_seconds attempts = min (2 ^ attempts) 3600

abbrev pub is_pending : OutboxStatus → Bool
is_pending pending = true
is_pending _ = false

-- `next_attempt_at` is null or not after `now`
abbrev pub due : Option ℕ → ℕ → Bool
due none now = true
due (some t) now = leb t now

-- The row after the handler raised.
unfoldable pub after_failure : ℕ → ℕ → List ℕ → OutboxEvent → OutboxEvent
after_failure max_attempts now error e =
    let attempts = e.attempts + 1 in
    let tried : OutboxEvent = record e {
      attempts = attempts;
      last_error = some (take 2000 error);
    } in
    if leb max_attempts attempts
    then record tried { status = failed }
    else record tried { next_attempt_at = some (now + backoff_seconds attempts) }

-- The row after the handler returned.
unfoldable pub after_success : ℕ → OutboxEvent → OutboxEvent
after_success now e = record e { status = done; processed_at = some now; attempts = e.attempts + 1 }

abbrev pub after : ℕ → ℕ → Outcome → OutboxEvent → OutboxEvent
after max_attempts now none e = after_success now e
after max_attempts now (some error) e = after_failure max_attempts now error e

abbrev pub returns : Outcome → Bool
returns none = true
returns (some _) = false

-- The handler's call, and the commit of the row.
abbrev pub attempt : ℕ → ℕ → EventHandler → OutboxEvent → Outbox → Bool × Outbox
attempt max_attempts now handler e s =
    let outcome = handler now e.payload_json in
    (
      returns outcome,
      record s {
        events = update_first (λ x. x.id == e.id) (after max_attempts now outcome) s.events;
        calls = s.calls ++ record { event_id = e.id; at = now; returned = returns outcome } ∷ [];
      },
    )

-- A pending event that the session loaded.
abbrev pub dispatch_pending : HandlerRegistry → ℕ → ℕ → OutboxEvent → Outbox → Bool × Outbox
dispatch_pending registry max_attempts now e s =
    if not (due e.next_attempt_at now) then (false, s) else elim (get_handler e.type registry) [
      | none ↦ (false, s)
      | some handler ↦ attempt max_attempts now handler e s
    ]

unfoldable pub dispatch_one : HandlerRegistry → ℕ → ℕ → String → Outbox → Bool × Outbox
dispatch_one registry max_attempts now event_id s = elim (find (λ x. x.id == event_id) s.events) [
  | none ↦ (true, s)
  | some e ↦ elim e.status [
    | done ↦ (true, s)
    | failed ↦ (true, s)
    | pending ↦ dispatch_pending registry max_attempts now e s
  ]
]

-- ORDER BY created_at
unfoldable pub insert_by_created : OutboxEvent → List OutboxEvent → List OutboxEvent
insert_by_created e [] = e ∷ []
insert_by_created e (x ∷ xs) =
    if leb e.created_at x.created_at then e ∷ x ∷ xs else x ∷ insert_by_created e xs

unfoldable pub order_by_created : List OutboxEvent → List OutboxEvent
unfolding insert_by_created
order_by_created [] = []
order_by_created (x ∷ xs) = insert_by_created x (order_by_created xs)

-- The ids that `dispatch_batch` selects.
unfoldable pub due_ids : ℕ → ℕ → List OutboxEvent → List String
unfolding order_by_created
due_ids now limit events =
    map (λ (e : OutboxEvent). e.id)
      (take limit
        (order_by_created (select (λ e. is_pending e.status && due e.next_attempt_at now) events)))

-- The loop of `dispatch_batch`: each call of `dispatch_one` reads the clock anew.
unfoldable pub dispatch_each :
    HandlerRegistry → ℕ → (String → ℕ) → List String → ℕ → Outbox → ℕ × Outbox
unfolding dispatch_one
dispatch_each registry max_attempts clock [] dispatched s = (dispatched, s)
dispatch_each registry max_attempts clock (i ∷ is) dispatched s =
    let (ok, s') = dispatch_one registry max_attempts (clock i) i s in
    dispatch_each registry max_attempts clock is (if ok then dispatched + 1 else dispatched) s'

unfoldable pub dispatch_batch : HandlerRegistry → ℕ → ℕ → (String → ℕ) → ℕ → Outbox → ℕ × Outbox
unfolding due_ids dispatch_each
dispatch_batch registry max_attempts now clock limit s =
    dispatch_each registry max_attempts clock (due_ids now limit s.events) 0 s
