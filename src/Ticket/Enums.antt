-- ===== src/Ticket/Enums.antt =====
-- ticket/enums.py and ticket/state_machine.py
use lumen_ai_support_agent.Prelude.{Bool, arith, false, true, ◌↔◌, ◌≡◌}

pub data TicketPriority : Type 0 where
  p0 p1 p2 p3 : TicketPriority

pub data TicketStatus : Type 0 where
  new triaged in_progress waiting_customer resolved closed cancelled : TicketStatus

abbrev pub priority_eq : TicketPriority → TicketPriority → Bool
priority_eq p0 p0 = true
priority_eq p1 p1 = true
priority_eq p2 p2 = true
priority_eq p3 p3 = true
priority_eq _ _ = false

abbrev pub status_eq : TicketStatus → TicketStatus → Bool
status_eq new new = true
status_eq triaged triaged = true
status_eq in_progress in_progress = true
status_eq waiting_customer waiting_customer = true
status_eq resolved resolved = true
status_eq closed closed = true
status_eq cancelled cancelled = true
status_eq _ _ = false

pub status_eq_iff : (a b : TicketStatus) → (status_eq a b ≡ true) ↔ (a ≡ b)
status_eq_iff a b = ground arith
