-- ===== src/Assignment/Examples.antt =====
-- Two agents, one of them with a conversation.
use lumen_ai_support_agent.Prelude.{String, [], none, some, true, ◌∷◌, ◌≡◌, ◌⊎◌}
use lumen_ai_support_agent.Assignment.{
  Directory, agent, candidates, least_busy, open_status, supervisor,
}
use lumen_ai_support_agent.Assignment.LeastBusy.{IsCandidate, IsLeastBusy, least_busy-exact}

abbrev office : Directory
office = record {
  tenants =
      record {
        id = "acme";
        assignment_policy = some (record { enabled = true; strategy = some "least_busy" });
      }
      ∷ [];
  users =
      record { id = "u1"; tenant_id = "acme"; is_active = true; role = agent }
      ∷ record { id = "u2"; tenant_id = "acme"; is_active = true; role = supervisor }
      ∷ [];
  conversations =
      record { tenant_id = "acme"; assigned_agent_id = some "u1"; status = open_status } ∷ [];
}

least_busy-exact_example :
    ((candidates "acme" office.users ≡ []) × (least_busy "acme" office ≡ none))
    ⊎ ((a : String) × (least_busy "acme" office ≡ some a)
        × IsCandidate "acme" office a
        × IsLeastBusy "acme" office a)
least_busy-exact_example = least_busy-exact "acme" office
