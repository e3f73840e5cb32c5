-- ===== src/Conversation/Flags.antt =====
-- Consistent conversations: unique ids, and flags that agree with the status, over any calls.
use lumen_ai_support_agent.Conversation.Calls.{perform-Effects}
use lumen_ai_support_agent.Conversation.Service.{PolicyResolver}
use lumen_ai_support_agent.Prelude.Table.Laws.{
  All-update_first, count_where-append, count_where-update_first, exists_false,
}
use lumen_ai_support_agent.Conversation.Repository.{has_id}
use lumen_ai_support_agent.Conversation.Requests.{Request, perform, run}
use lumen_ai_support_agent.Prelude.Table.Rows.{All-last}
use lumen_ai_support_agent.Prelude.Table.{count_where}
use lumen_ai_support_agent.Prelude.{
  All, Bool, Bool-cases, List, String, [], ap, arith, eq_iff, false, inl, inr, none, refl,
  some-injective, subst, sym, true, ◌++◌, ◌==◌, ◌∙◌, ◌∷◌, ◌≡◌, ◌≢◌, ◌≤◌,
}
use lumen_ai_support_agent.Assignment.{open_status}
use lumen_ai_support_agent.Conversation.{ConversationRow, Store}
use lumen_ai_support_agent.Conversation.Effects.{Effect, Effects, Flags, Move, flags}
use lumen_ai_support_agent.Conversation.Steps.{IsUnique}

-- An open conversation is handled by the AI and has no agent, and only an open one is handled by the AI.
unfoldable pub AgreesWith : Flags → Type 0
AgreesWith f =
    (f.status ≡ open_status → (f.assigned ≡ none) × (f.ai ≡ true))
    × (f.status ≢ open_status → f.ai ≡ false)

unfoldable pub IsConsistent : List ConversationRow → Type 0
IsConsistent rows = IsUnique rows × All (λ r. AgreesWith (flags r)) rows

Move-AgreesWith : {may : Bool} (f g : Flags) → Move may f g → AgreesWith f → AgreesWith g
unfolding AgreesWith
Move-AgreesWith f g (Move.to_agent _ agent_id) h = (λ e. absurd (ground (arith, e)), λ n. refl)
Move-AgreesWith f g (Move.to_queue _) h = (λ e. absurd (ground (arith, e)), λ n. refl)
Move-AgreesWith f g (Move.to_ai _) h = (λ e. (refl, refl), λ n. absurd (n refl))
Move-AgreesWith f g (Move.to_closed _) h = (λ e. absurd (ground (arith, e)), λ n. refl)
Move-AgreesWith f g (Move.stay _) h = h

Effect-IsUnique :
    {may : Bool} (tenant_id : String) (s s' : Store)
    → Effect may tenant_id s s'
    → IsUnique s.rows
    → IsUnique s'.rows
unfolding IsUnique
Effect-IsUnique tenant_id s s' (Effect.unchanged e) u = rw e u
Effect-IsUnique tenant_id s s' (Effect.opened new own f fresh e) u =
    subst IsUnique (sym e) λ i. last_counted i
  where
    last_counted : (i : String) → count_where (has_id i) (s.rows ++ new ∷ []) ≤ 1
    last_counted i =
        let n = count_where-append (has_id i) s.rows (new ∷ []) in
        elim (Bool-cases (new.id == i)) [
          | inl y ↦
              let none_yet =
                subst (λ j. count_where (has_id j) s.rows ≡ 0) ((eq_iff new.id i).0 y)
                  (exists_false (has_id new.id) s.rows fresh) in
              ground (arith, n, y, none_yet)
          | inr m ↦ let below = u i in ground (arith, n, m, below)
        ]
Effect-IsUnique tenant_id s s' (Effect.moved old f found own keeps m e) u =
    subst IsUnique (sym e) λ i.
      rw
        (count_where-update_first (has_id i) (has_id old.id) f s.rows
          (λ x. ap (λ j. j == i) (keeps x).0))
        (u i)

Effect-IsConsistent :
    {may : Bool} (tenant_id : String) (s s' : Store)
    → Effect may tenant_id s s'
    → IsConsistent s.rows
    → IsConsistent s'.rows
unfolding IsConsistent AgreesWith
Effect-IsConsistent {may} tenant_id s s' step (u, h) =
    (Effect-IsUnique tenant_id s s' step u, agree step)
  where
    agree : Effect may tenant_id s s' → All (λ r. AgreesWith (flags r)) s'.rows
    agree (Effect.unchanged e) = rw e h
    agree (Effect.opened new own f fresh e) = subst (All (λ r. AgreesWith (flags r))) (sym e) (
        All-last (λ r. AgreesWith (flags r)) s.rows new h
          (subst AgreesWith (sym f) (λ e. (refl, refl), λ n. absurd (n refl))))
    agree (Effect.moved old f found own keeps m e) =
        subst (All (λ r. AgreesWith (flags r))) (sym e) (
          All-update_first (has_id old.id) f s.rows h λ x found' good.
            let e' : old ≡ x = some-injective (sym found ∙ found') in
            subst (λ z. AgreesWith (flags (f z))) e'
              (Move-AgreesWith (flags old) (flags (f old)) m
                (subst (λ z. AgreesWith (flags z)) (sym e') good)))

pub Effects-IsConsistent :
    {may : Bool} (tenant_id : String) (s s' : Store)
    → Effects may tenant_id s s'
    → IsConsistent s.rows
    → IsConsistent s'.rows
Effects-IsConsistent tenant_id s s' (Effects.done _) h = h
Effects-IsConsistent tenant_id s s' (Effects.then _ t _ step rest) h =
    Effects-IsConsistent tenant_id t s' rest (Effect-IsConsistent tenant_id s t step h)

-- From consistent rows, after any calls for any tenants with any policy: no id stands twice, an open
-- conversation is handled by the AI and has no agent, and a pending or closed one is not handled by
-- the AI.
pub run-IsConsistent :
    (policy : PolicyResolver) (requests : List Request) (s : Store)
    → IsConsistent s.rows
    → IsConsistent (run policy requests s).rows
unfolding run IsConsistent
run-IsConsistent policy [] s h = h
run-IsConsistent policy (request ∷ requests) s h =
    run-IsConsistent policy requests (perform policy request s) (
      Effects-IsConsistent request.tenant_id s (perform policy request s)
        (perform-Effects policy request s h.0) h)
