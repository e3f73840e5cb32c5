-- ===== src/Conversation/Claims.antt =====
-- Who gets a conversation that several agents claim.
use lumen_ai_support_agent.Prelude.{
  All, Bool-cases, List, Option-cases, String, [], ap, arith, false, inl, inr, none, refl, some,
  some-injective, subst, sym, true, ℕ, ◌==◌, ◌∙◌, ◌∷◌, ◌≡◌, ◌≢◌, ◌⊎◌,
}
use lumen_ai_support_agent.Prelude.Exec.{err, ok}
use lumen_ai_support_agent.Prelude.Table.{find}
use lumen_ai_support_agent.Prelude.Table.Laws.{
  find-append_some, find-update_first, find-update_first_self, find_sound,
}
use lumen_ai_support_agent.Conversation.{ConversationRow, Store, not_claimable, value_error}
use lumen_ai_support_agent.Conversation.Repository.{
  get_by_id_for_update, has_id, set_state, write_row,
}
use lumen_ai_support_agent.Conversation.Service.{PolicyResolver, claim, is_claimable}
use lumen_ai_support_agent.Conversation.Requests.{Call, Request, perform, perform_call, run}
use lumen_ai_support_agent.Conversation.Effects.{Effect, Effects, Flags, Move, flags}
use lumen_ai_support_agent.Conversation.Steps.{IsUnique, for_update_sound}
use lumen_ai_support_agent.Conversation.Calls.{perform-Effects, releases}
use lumen_ai_support_agent.Conversation.Flags.{IsConsistent, run-IsConsistent}

-- The conversation is with an agent.
unfoldable pub IsTaken : String → Store → Type 0
IsTaken conversation_id s =
    (conv : ConversationRow) × (agent_id : String) × (find (has_id conversation_id) s.rows
      ≡ some conv)
    × (conv.assigned_agent_id ≡ some agent_id)

Move-taken :
    (f g : Flags) (agent_id : String)
    → Move false f g
    → f.assigned ≡ some agent_id
    → (other_id : String) × (g.assigned ≡ some other_id)
Move-taken f g agent_id (Move.to_agent _ new_id) h = (new_id, refl)
Move-taken f g agent_id (Move.to_closed _) h = (agent_id, h)
Move-taken f g agent_id (Move.stay _) h = (agent_id, h)

Effect-IsTaken :
    (tenant_id conversation_id : String) (s s' : Store)
    → Effect false tenant_id s s'
    → IsTaken conversation_id s
    → IsTaken conversation_id s'
unfolding IsTaken
Effect-IsTaken tenant_id conversation_id s s' (Effect.unchanged e) (conv, agent_id, h, a) =
    (conv, agent_id, rw e h, a)
Effect-IsTaken tenant_id conversation_id s s' (Effect.opened new own f fresh e)
      (conv, agent_id, h, a) =
    (conv, agent_id, rw e (find-append_some (has_id conversation_id) s.rows (new ∷ []) h), a)
Effect-IsTaken tenant_id conversation_id s s' (Effect.moved old f found own keeps m e)
      (conv, agent_id, h, a) =
    elim (find-update_first (has_id conversation_id) (has_id old.id) f s.rows
      (λ x. ap (λ j. j == conversation_id) (keeps x).0)) [
        | inl same ↦ (conv, agent_id, rw e (same ∙ h), a)
        | inr (x, q, p, r) ↦
            let x≡conv = some-injective (sym q ∙ h) in
            let x≡old = some-injective (sym p ∙ found) in
            let taken = subst (λ z. z.assigned_agent_id ≡ some agent_id) (sym x≡conv ∙ x≡old) a in
            let (other_id, b) = Move-taken (flags old) (flags (f old)) agent_id m taken in
            (
              f x,
              other_id,
              rw e r,
              subst (λ z. (f z).assigned_agent_id ≡ some other_id) (sym x≡old) b,
            )
      ]

Effects-IsTaken :
    (tenant_id conversation_id : String) (s s' : Store)
    → Effects false tenant_id s s'
    → IsTaken conversation_id s
    → IsTaken conversation_id s'
Effects-IsTaken tenant_id conversation_id s s' (Effects.done _) h = h
Effects-IsTaken tenant_id conversation_id s s' (Effects.then _ t _ step rest) h =
    Effects-IsTaken tenant_id conversation_id t s' rest
      (Effect-IsTaken tenant_id conversation_id s t step h)

unclaimable_taken :
    (conv : ConversationRow) (agent_id : String)
    → conv.assigned_agent_id ≡ some agent_id
    → is_claimable conv ≡ false
unclaimable_taken conv agent_id a = ground (arith, a)

-- What `claim` does: a pending conversation of the tenant that has no agent becomes the agent's and
-- stays pending; any other of the tenant is refused, and the rows stay; a conversation that does not
-- exist or is another tenant's is not found, and the rows stay.
pub claim_cases :
    (tenant_id conversation_id agent_id : String) (now : ℕ) (s : Store)
    → ((conv : ConversationRow) × (get_by_id_for_update tenant_id conversation_id s ≡ some conv)
        × (is_claimable conv ≡ true)
        × (claim tenant_id conversation_id agent_id now s ≡ (
          ok (set_state conv.status (some agent_id) false now conv),
          write_row conversation_id (set_state conv.status (some agent_id) false now) s,
        )))
      ⊎ (((conv : ConversationRow) × (get_by_id_for_update tenant_id conversation_id s ≡ some conv)
            × (is_claimable conv ≡ false)
            × (claim tenant_id conversation_id agent_id now s ≡ (err not_claimable, s)))
          ⊎ ((get_by_id_for_update tenant_id conversation_id s ≡ none)
              × (claim tenant_id conversation_id agent_id now s ≡ (err value_error, s))))
unfolding claim
claim_cases tenant_id conversation_id agent_id now s =
    elim (Option-cases (get_by_id_for_update tenant_id conversation_id s)) [
      | inl n ↦ inr (inr (n, rw (n, claim) refl))
      | inr (conv, e) ↦ elim (Bool-cases (is_claimable conv)) [
        | inl y ↦ inl (conv, e, y, rw (e, claim, y) refl)
        | inr n ↦ inr (inl (conv, e, n, rw (e, claim, n) refl))
      ]
    ]

ok≢err : {X A : Type 0} {a : A} {x : X} → ok a ≢ err x
ok≢err h = absurd (ground (arith, h))

-- What a successful claim leaves.
claim-IsTaken :
    (tenant_id conversation_id agent_id : String) (now : ℕ) (s : Store) (conv : ConversationRow)
    → IsUnique s.rows
    → (claim tenant_id conversation_id agent_id now s).0 ≡ ok conv
    → IsTaken conversation_id (claim tenant_id conversation_id agent_id now s).1
unfolding IsTaken write_row set_state
claim-IsTaken tenant_id conversation_id agent_id now s conv u h =
    elim (claim_cases tenant_id conversation_id agent_id now s) [
      | inl (found, e, y, c) ↦
          let (f, _) = for_update_sound tenant_id conversation_id s found u e in
          let i = find_sound (has_id conversation_id) s.rows f in
          (
            set_state found.status (some agent_id) false now found,
            agent_id,
            rw c (written found f i),
            given found,
          )
      | inr (inl (found, e, n, c)) ↦ absurd (ok≢err (sym h ∙ ap (λ o. o.0) c))
      | inr (inr (n, c)) ↦ absurd (ok≢err (sym h ∙ ap (λ o. o.0) c))
    ]
  where
    written :
        (found : ConversationRow)
        → find (has_id conversation_id) s.rows ≡ some found
        → has_id conversation_id found ≡ true
        → find
            (has_id conversation_id)
            (write_row conversation_id (set_state found.status (some agent_id) false now) s).rows
          ≡ some (set_state found.status (some agent_id) false now found)
    written found f i =
        find-update_first_self (has_id conversation_id)
          (set_state found.status (some agent_id) false now) s.rows {a = found} i f

    given :
        (found : ConversationRow)
        → (set_state found.status (some agent_id) false now found).assigned_agent_id ≡ some agent_id
    given found = refl

-- A claim of a conversation that is with an agent.
claim_refused :
    (tenant_id conversation_id agent_id : String) (now : ℕ) (s : Store)
    → IsUnique s.rows
    → IsTaken conversation_id s
    → ((claim tenant_id conversation_id agent_id now s).0 ≡ err not_claimable)
      ⊎ ((claim tenant_id conversation_id agent_id now s).0 ≡ err value_error)
unfolding IsTaken
claim_refused tenant_id conversation_id agent_id now s u (conv, other_id, h, a) =
    elim (claim_cases tenant_id conversation_id agent_id now s) [
      | inl (found, e, y, c) ↦
          let (f, _) = for_update_sound tenant_id conversation_id s found u e in
          let same = some-injective (sym h ∙ f) in
          let n =
            unclaimable_taken found other_id
              (subst (λ z. z.assigned_agent_id ≡ some other_id) same a) in
          absurd (ground (arith, y, n))
      | inr (inl (found, e, n, c)) ↦ inl (ap (λ o. o.0) c)
      | inr (inr (n, c)) ↦ inr (ap (λ o. o.0) c)
    ]

-- No call that takes a conversation back from an agent.
unfoldable pub NoneReleases : List Request → Type 0
NoneReleases requests = All (λ request. releases request.call ≡ false) requests

run-IsTaken :
    (policy : PolicyResolver) (requests : List Request) (conversation_id : String) (s : Store)
    → IsConsistent s.rows
    → NoneReleases requests
    → IsTaken conversation_id s
    → IsTaken conversation_id (run policy requests s)
unfolding run NoneReleases IsConsistent
run-IsTaken policy [] conversation_id s w n h = h
run-IsTaken policy (request ∷ requests) conversation_id s w (n, ns) h =
    let step = perform-Effects policy request s w.0 in
    run-IsTaken policy requests conversation_id (perform policy request s)
      (run-IsConsistent policy (request ∷ []) s w) ns
      (Effects-IsTaken request.tenant_id conversation_id s (perform policy request s)
        (subst (λ b. Effects b request.tenant_id s (perform policy request s)) n step) h)

IsConsistent-IsUnique : (s : Store) → IsConsistent s.rows → IsUnique s.rows
unfolding IsConsistent
IsConsistent-IsUnique s w = w.0

-- From consistent rows: once a claim of a conversation has succeeded, every later claim of it, by
-- anybody, is refused, whatever calls without escalations and returns to the AI come in between.
pub claim_exclusive :
    (policy : PolicyResolver) (requests : List Request) (s : Store)
    (tenant_id conversation_id agent_id : String) (now : ℕ) (conv : ConversationRow)
    (other_tenant other_agent : String) (later : ℕ)
    → IsConsistent s.rows
    → (claim tenant_id conversation_id agent_id now s).0 ≡ ok conv
    → NoneReleases requests
    → let s' = run policy requests (claim tenant_id conversation_id agent_id now s).1 in
      ((claim other_tenant conversation_id other_agent later s').0 ≡ err not_claimable)
      ⊎ ((claim other_tenant conversation_id other_agent later s').0 ≡ err value_error)
unfolding run perform perform_call
claim_exclusive policy requests s tenant_id conversation_id agent_id now conv other_tenant
      other_agent later w h n =
    let s1 = (claim tenant_id conversation_id agent_id now s).1 in
    let request : Request = record {
      tenant_id = tenant_id;
      now = now;
      call = Call.claims conversation_id agent_id;
    } in
    let w1 : IsConsistent s1.rows = run-IsConsistent policy (request ∷ []) s w in
    let taken =
      claim-IsTaken tenant_id conversation_id agent_id now s conv (IsConsistent-IsUnique s w) h in
    let w2 = run-IsConsistent policy requests s1 w1 in
    claim_refused other_tenant conversation_id other_agent later (run policy requests s1)
      (IsConsistent-IsUnique (run policy requests s1) w2)
      (run-IsTaken policy requests conversation_id s1 w1 n taken)
