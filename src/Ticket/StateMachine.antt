-- ===== src/Ticket/StateMachine.antt =====
-- ticket/state_machine.py: the transition map and its guard.
use lumen_ai_support_agent.Prelude.{Bool, List, [], false, if◌then◌else◌, not, true, ◌∷◌}
use lumen_ai_support_agent.Prelude.Exec.{Result, err, ok}
use lumen_ai_support_agent.Ticket.Enums.{
  TicketStatus, cancelled, closed, in_progress, new, resolved, status_eq, triaged, waiting_customer,
}

-- What the ticket service raises; `integrity_error` is the database's refusal of a write.
pub data TicketError : Type 0 where
  invalid_transition ticket_not_found permission_error integrity_error : TicketError

-- The map `_TRANSITIONS`.
unfoldable pub transitions : TicketStatus → List TicketStatus
transitions new = triaged ∷ cancelled ∷ []
transitions triaged = in_progress ∷ cancelled ∷ []
transitions in_progress = waiting_customer ∷ resolved ∷ cancelled ∷ []
transitions waiting_customer = in_progress ∷ resolved ∷ cancelled ∷ []
transitions resolved = closed ∷ in_progress ∷ []
transitions closed = []
transitions cancelled = []

-- `target in _TRANSITIONS[current]`
abbrev pub contains : List TicketStatus → TicketStatus → Bool
contains [] a = false
contains (x ∷ xs) a = if status_eq x a then true else contains xs a

unfoldable pub sm_transition : TicketStatus → TicketStatus → Result TicketError TicketStatus
unfolding transitions
sm_transition current target =
    if not (contains (transitions current) target) then err invalid_transition else ok target

-- The life of a ticket, drawn by hand: the edges of the diagram.
infix 40 ◌⟶◌
pub data ◌⟶◌ : TicketStatus → TicketStatus → Type 0 where
  triage : new ⟶ triaged
  start : triaged ⟶ in_progress
  ask : in_progress ⟶ waiting_customer
  answer : waiting_customer ⟶ in_progress
  resolve : in_progress ⟶ resolved
  resolve_waiting : waiting_customer ⟶ resolved
  close : resolved ⟶ closed
  reopen : resolved ⟶ in_progress
  cancel_new : new ⟶ cancelled
  cancel_triaged : triaged ⟶ cancelled
  cancel_in_progress : in_progress ⟶ cancelled
  cancel_waiting : waiting_customer ⟶ cancelled
