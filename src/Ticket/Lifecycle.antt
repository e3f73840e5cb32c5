-- ===== src/Ticket/Lifecycle.antt =====
-- The transition map against the diagram of a ticket's life.
use lumen_ai_support_agent.Prelude.{Bool-cases, arith, inl, inr, refl, ◌≡◌, ◌⊎◌}
use lumen_ai_support_agent.Prelude.Exec.{err, ok}
use lumen_ai_support_agent.Ticket.Enums.{TicketStatus, cancelled, closed}
use lumen_ai_support_agent.Ticket.StateMachine.{
  answer, ask, cancel_in_progress, cancel_new, cancel_triaged, cancel_waiting, close, contains,
  invalid_transition, reopen, resolve, resolve_waiting, sm_transition, start, transitions, triage,
  ◌⟶◌,
}

ruleset edges = (
  triage, start, ask, answer, resolve, resolve_waiting, close, reopen, cancel_new, cancel_triaged,
  cancel_in_progress, cancel_waiting,
)

pub sm_transition-⟶ : (a b : TicketStatus) {c : TicketStatus} → sm_transition a b ≡ ok c → a ⟶ b
unfolding sm_transition
sm_transition-⟶ a b h = grind (arith, edges)

pub ⟶-sm_transition : (a b : TicketStatus) → a ⟶ b → sm_transition a b ≡ ok b
unfolding sm_transition
⟶-sm_transition _ _ triage = refl
⟶-sm_transition _ _ _ = refl

-- The guard passes exactly the edges of the diagram, returns the target there, and raises
-- InvalidTransition on every other pair.
pub sm_transition-exact :
    (a b : TicketStatus)
    → ((a ⟶ b) × (sm_transition a b ≡ ok b))
      ⊎ (¬ (a ⟶ b) × (sm_transition a b ≡ err invalid_transition))
sm_transition-exact a b = elim (Bool-cases (contains (transitions a) b)) [
  | inl y ↦
      let e : sm_transition a b ≡ ok b = unfold sm_transition in ground arith in
      inl (sm_transition-⟶ a b e, e)
  | inr n ↦
      let e : sm_transition a b ≡ err invalid_transition = unfold sm_transition in ground arith in
      inr ((λ s. cc (⟶-sm_transition a b s)), e)
]

infix 40 ◌⟶*◌
pub data ◌⟶*◌ : TicketStatus → TicketStatus → Type 0 where
  here : {a : TicketStatus} → a ⟶* a
  then : {a b c : TicketStatus} → a ⟶ b → b ⟶* c → a ⟶* c

pub ⟶*-append : {a b c : TicketStatus} → a ⟶* b → b ⟶ c → a ⟶* c
⟶*-append here s = then s here
⟶*-append (then r rs) s = then r (⟶*-append rs s)

-- A closed ticket never leaves its status, nor does a cancelled one.
pub closed_final : {a b : TicketStatus} → a ⟶* b → a ≡ closed → b ≡ closed
closed_final here h = h
closed_final (then triage r) h = cc
closed_final (then _ r) h = cc

pub cancelled_final : {a b : TicketStatus} → a ⟶* b → a ≡ cancelled → b ≡ cancelled
cancelled_final here h = h
cancelled_final (then triage r) h = cc
cancelled_final (then _ r) h = cc
