-- ===== src/Conversation/Inbound.antt =====
-- An inbound message's conversation, with what other sessions do in between.
pub mod Outcome
use lumen_ai_support_agent.Prelude.Table.Keys.{find-update_key}
use lumen_ai_support_agent.Prelude.{
  Bool, Bool-cases, List, Option, Option-cases, String, [], arith, eq_iff, eq_refl, false, inl, inr,
  none, none≢some, not, refl, some, sym, true, ℕ, ◌&&◌, ◌++◌, ◌==◌, ◌||◌, ◌∷◌, ◌≡◌, ◌≢◌, ◌⊎◌,
}
use lumen_ai_support_agent.Prelude.Exec.{Result, err, ok}
use lumen_ai_support_agent.Prelude.Table.{exists, find, select}
use lumen_ai_support_agent.Conversation.{ConversationError, ConversationRow, Store, integrity_error}
use lumen_ai_support_agent.Conversation.Repository.{
  create, find_open_by_channel_customer, has_id, is_open_for, newest, refused, touch_last_activity,
  write_row,
}
use lumen_ai_support_agent.Conversation.Service.{find_or_create_for_inbound, opened_row}
use lumen_ai_support_agent.Conversation.Inbound.Outcome.{
  IsInbound, IsOpened, touch_last_activity-IsTouched,
}
use lumen_ai_support_agent.Conversation.Steps.{IsUnique, find_open_sound}

newest-some : (xs : List ConversationRow) (b : ConversationRow) → newest (some b) xs ≢ none
unfolding newest
newest-some [] b h = none≢some (sym h)
newest-some (x ∷ xs) b h = newest-some xs _ h

newest-none : (xs : List ConversationRow) → newest none xs ≡ none → xs ≡ []
unfolding newest
newest-none [] h = refl
newest-none (x ∷ xs) h = absurd (newest-some xs x h)

select-none :
    (p q : ConversationRow → Bool) (xs : List ConversationRow)
    → select p xs ≡ []
    → exists (λ r. q r && p r) xs ≡ false
select-none p q [] h = refl
select-none p q (x ∷ xs) h = ground (arith, h, select-none p q xs)

exists-select :
    (p : ConversationRow → Bool) (xs : List ConversationRow)
    → select p xs ≡ []
    → exists p xs ≡ false
exists-select p [] h = refl
exists-select p (x ∷ xs) h = ground (arith, h, exists-select p xs)

exists-others :
    (p : ConversationRow → Bool) (id : String) (xs : List ConversationRow)
    → exists (has_id id) xs ≡ false
    → exists (λ r. not (r.id == id) && p r) xs ≡ false
    → exists p xs ≡ false
exists-others p id [] h k = refl
exists-others p id (x ∷ xs) h k = ground (arith, h, k, exists-others p id xs)

module _ (new_id tenant_id channel_id customer_external_id : String) (now : ℕ) where
  -- An insert that is refused, with no open conversation of the channel and the customer.
  refused_id :
      (t : Store)
      → find_open_by_channel_customer channel_id customer_external_id t ≡ none
      → (exists (has_id new_id) t.rows
          || refused (opened_row new_id tenant_id channel_id customer_external_id now) t.rows)
        ≡ true
      → exists (has_id new_id) t.rows ≡ true
  unfolding find_open_by_channel_customer refused opened_row
  refused_id t h y =
      let e = newest-none (select (is_open_for channel_id customer_external_id) t.rows) h in
      let n =
        select-none (is_open_for channel_id customer_external_id) (λ r. not (r.id == new_id)) t.rows
          e in
      ground (arith, y, n)

  create-refused :
      (t : Store)
      → (exists (has_id new_id) t.rows
          || refused (opened_row new_id tenant_id channel_id customer_external_id now) t.rows)
        ≡ true
      → create (opened_row new_id tenant_id channel_id customer_external_id now) t
        ≡ (err integrity_error, t)
  unfolding create opened_row
  create-refused t y = rw y refl

  none_open :
      (s : Store)
      → find_open_by_channel_customer channel_id customer_external_id s ≡ none
      → exists (is_open_for channel_id customer_external_id) s.rows ≡ false
  unfolding find_open_by_channel_customer
  none_open s h =
      exists-select (is_open_for channel_id customer_external_id) s.rows
        (newest-none (select (is_open_for channel_id customer_external_id) s.rows) h)

  opened_row-IsOpened :
      IsOpened new_id tenant_id channel_id customer_external_id now
        (opened_row new_id tenant_id channel_id customer_external_id now)
  unfolding opened_row
  opened_row-IsOpened = record {
    id = refl;
    tenant = refl;
    opens = rw (eq_refl channel_id, eq_refl customer_external_id) refl;
    unassigned = refl;
    ai = refl;
    active = refl;
  }

  create-stored :
      (s t : Store)
      → find_open_by_channel_customer channel_id customer_external_id s ≡ none
      → (exists (has_id new_id) t.rows
          || refused (opened_row new_id tenant_id channel_id customer_external_id now) t.rows)
        ≡ false
      → (s' : Store) × (create (opened_row new_id tenant_id channel_id customer_external_id now) t
          ≡ (ok (opened_row new_id tenant_id channel_id customer_external_id now), s'))
        × IsInbound new_id tenant_id channel_id customer_external_id now s t
            (ok (some (opened_row new_id tenant_id channel_id customer_external_id now)), s')
  unfolding create refused opened_row
  create-stored s t h n =
      let free : exists (has_id new_id) t.rows ≡ false = ground (arith, n) in
      let alone : exists
            (λ r. not (r.id == new_id) && is_open_for channel_id customer_external_id r) t.rows
          ≡ false =
        ground (arith, n) in
      (
        (create (opened_row new_id tenant_id channel_id customer_external_id now) t).1,
        rw n refl,
        IsInbound.opened (opened_row new_id tenant_id channel_id customer_external_id now) refl
            opened_row-IsOpened (none_open s h)
            (exists-others (is_open_for channel_id customer_external_id) new_id t.rows free alone)
            free (rw n refl) (rw n refl),
      )

-- Whatever other sessions do between the lookup and the insert, as long as ids stay unique, an inbound
-- message has one of four outcomes. A stored row of the tenant, open for the channel and the customer,
-- is answered, and of its table only that row's time of activity has changed. Or, where neither the
-- lookup nor the insert sees an open row of any tenant and the new id is free, a new open row of the
-- tenant for the channel and the customer is answered and appended. Or another tenant has an open row
-- for them: the lookup that meets it answers None, the insert raises the integrity error, and nothing
-- changes. Or the new id is taken, the insert raises, and nothing changes.
pub find_or_create_for_inbound-IsInbound :
    (between : Store → Store) (new_id tenant_id channel_id customer_external_id : String) (now : ℕ)
    (s : Store)
    → IsUnique s.rows
    → IsUnique (between s).rows
    → IsInbound new_id tenant_id channel_id customer_external_id now s
        (between s)
        (find_or_create_for_inbound between new_id tenant_id channel_id customer_external_id now s)
unfolding find_or_create_for_inbound
find_or_create_for_inbound-IsInbound between new_id tenant_id channel_id customer_external_id now s
      u v =
    let row = opened_row new_id tenant_id channel_id customer_external_id now in
    let t = between s in
    elim (Option-cases (find_open_by_channel_customer channel_id customer_external_id s)) [
      | inr (conv, e) ↦
          let (found, matches) = find_open_sound channel_id customer_external_id s conv u e in
          elim (Bool-cases (conv.tenant_id == tenant_id)) [
            | inl y ↦
                rw (e, find_or_create_for_inbound, y)
                  (IsInbound.existing conv refl ((eq_iff conv.tenant_id tenant_id).0 y) matches
                    (inl (touch_last_activity-IsTouched now conv s found)))
            | inr n ↦
                rw (e, find_or_create_for_inbound, n)
                  (IsInbound.foreign conv n matches (inl (found, refl, refl)))
          ]
      | inl e ↦ elim (Bool-cases (exists (has_id new_id) t.rows || refused row t.rows)) [
        | inr n ↦
            let (s', made, outcome) =
              create-stored new_id tenant_id channel_id customer_external_id now s t e n in
            rw (e, find_or_create_for_inbound, made, made) outcome
        | inl y ↦
            let unmade = create-refused new_id tenant_id channel_id customer_external_id now t y in
            elim (Option-cases (find_open_by_channel_customer channel_id customer_external_id t)) [
              | inl m ↦
                  rw (e, find_or_create_for_inbound, unmade, unmade, m, unmade)
                    (IsInbound.id_taken refl refl
                      (refused_id new_id tenant_id channel_id customer_external_id now t m y))
              | inr (conv, g) ↦
                  let (found, matches) =
                    find_open_sound channel_id customer_external_id t conv v g in
                  elim (Bool-cases (conv.tenant_id == tenant_id)) [
                    | inl own ↦
                        rw (e, find_or_create_for_inbound, unmade, unmade, g, own, unmade)
                          (IsInbound.existing conv refl ((eq_iff conv.tenant_id tenant_id).0 own)
                            matches (inr (touch_last_activity-IsTouched now conv t found)))
                    | inr other ↦
                        rw (e, find_or_create_for_inbound, unmade, unmade, g, other, unmade)
                          (IsInbound.foreign conv other matches (inr (found, refl, refl)))
                  ]
            ]
      ]
    ]
