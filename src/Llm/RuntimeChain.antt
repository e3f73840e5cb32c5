-- ===== src/Llm/RuntimeChain.antt =====
-- llm_client/runtime_chain.py
use lumen_ai_support_agent.Prelude.{
  Bool, List, String, [], if◌then◌else◌, map, not, true, ◌==◌, ◌∷◌,
}
use lumen_ai_support_agent.Prelude.Table.{exists, select}
use lumen_ai_support_agent.Prelude.Exec.{Exec, Result, err, ok}
use lumen_ai_support_agent.Llm.Resolvers.{ConfigError, value_error}

pub record ChainStep : Type 0 where
  pub provider : String
  pub model : String
  pub enabled : Bool

abbrev pub as_tuple : ChainStep → String × String
as_tuple s = (s.provider, s.model)

pub record RuntimeChain : Type 0 where
  pub steps : List ChainStep

unfoldable pub active_chain : RuntimeChain → List (String × String)
active_chain c = map as_tuple (select (λ s. s.enabled) c.steps)

-- Only an empty chain is seeded.
unfoldable pub initial_steps : List (String × String) → RuntimeChain → RuntimeChain
initial_steps seed chain = elim chain.steps [
  | [] ↦ record {
    steps =
        map (λ (s : String × String). record { provider = s.0; model = s.1; enabled = true }) seed;
  }
  | _ ∷ _ ↦ chain
]

abbrev pub is_known : List String → String → Bool
is_known known name = exists (λ k. k == name) known

-- The loop that validates and copies the steps.
unfoldable pub clean_steps : List String → List ChainStep → Result ConfigError (List ChainStep)
clean_steps known [] = ok []
clean_steps known (s ∷ steps) =
    let rest = clean_steps known steps in
    if not (is_known known s.provider)
    then err value_error
    else elim rest [ err e ↦ err e | ok cleaned ↦ ok (s ∷ cleaned) ]

abbrev swap_if_enabled :
    Result ConfigError (List ChainStep) → Exec RuntimeChain ConfigError (Unit {0})
swap_if_enabled (err e) chain = (err e, chain)
swap_if_enabled (ok cleaned) chain =
    if not (exists (λ s. s.enabled) cleaned)
    then (err value_error, chain)
    else (ok tt, record { steps = cleaned })

unfoldable pub replace_steps :
    List ChainStep → List String → Exec RuntimeChain ConfigError (Unit {0})
unfolding clean_steps
replace_steps steps known = swap_if_enabled (clean_steps known steps)
