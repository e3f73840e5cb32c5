-- ===== src/Budget/Warned.antt =====
-- The soft warning's mark on a snapshot, through every write.
use lumen_ai_support_agent.Prelude.Table.Laws.{count_where-append}
use lumen_ai_support_agent.Prelude.{
  Bool-cases, List, Option, Option-cases, [], arith, inl, inr, none, refl, some, subst, sym, ℕ,
  ◌++◌, ◌∙◌, ◌∷◌, ◌≡◌, ◌≤◌,
}
use lumen_ai_support_agent.Prelude.Table.{count_where, find}
use lumen_ai_support_agent.Budget.Models.{BudgetDb, Key, TenantBudgetSnapshot, key_eq, key_eq_iff}
use lumen_ai_support_agent.Budget.Repository.{
  get_for_tenant_period, get_or_refresh, refresh, set_tokens_used, sum_usage,
}
use lumen_ai_support_agent.Budget.Ledger.{
  find-upserted, get-refresh_other, get-set_other, of_key, set-stored,
}

-- The snapshot of the key says when the warning was given.
abbrev pub IsMarked : Key → BudgetDb → Type 0
IsMarked k db =
    (s : TenantBudgetSnapshot) × (t : ℕ) × (get_for_tenant_period k db ≡ some s)
    × (s.soft_warn_fired_at ≡ some t)

abbrev pub warnings : Key → List Key → ℕ
warnings k warned = count_where (λ j. key_eq j k) warned

-- One warning at most for a tenant and period, and none without its mark.
abbrev pub IsWarnedOnce : BudgetDb → List Key → Type 0
IsWarnedOnce db warned =
    (k : Key) → (warnings k warned ≤ 1) × (1 ≤ warnings k warned → IsMarked k db)

module _ (key : Key) (starts_at : ℕ) (db : BudgetDb) where
  -- The row that was read is the stored one.
  pub get_or_refresh-stored :
      get_for_tenant_period key (get_or_refresh key starts_at db).1
      ≡ some (get_or_refresh key starts_at db).0
  unfolding get_or_refresh get_for_tenant_period refresh
  get_or_refresh-stored =
      let total = sum_usage key.tenant_id starts_at db.usages in
      let row =
        find-upserted (λ s. record s { tokens_used = total }) (λ s. refl)
          (record { key = key; tokens_used = total; soft_warn_fired_at = none }) db in
      elim (Option-cases (find (of_key key) db.snapshots)) [
        | inl n ↦ ground (arith, row)
        | inr (s, e) ↦ ground arith
      ]

  get_or_refresh-found :
      {s : TenantBudgetSnapshot}
      → get_for_tenant_period key db ≡ some s
      → (get_or_refresh key starts_at db).1 ≡ db
  unfolding get_or_refresh
  get_or_refresh-found h = ground arith

  pub IsMarked-get_or_refresh :
      (k : Key) → IsMarked k db → IsMarked k (get_or_refresh key starts_at db).1
  IsMarked-get_or_refresh k (s, t, found, fired) = elim (Bool-cases (key_eq key k)) [
    | inl y ↦
        let at_key =
          subst (λ j. get_for_tenant_period j db ≡ some s) (sym ((key_eq_iff key k).0 y)) found in
        (s, t, rw (get_or_refresh-found at_key) found, fired)
    | inr n ↦ (s, t, get-refresh_other key starts_at db k n ∙ found, fired)
  ]

  pub IsWarnedOnce-get_or_refresh :
      (warned : List Key)
      → IsWarnedOnce db warned
      → IsWarnedOnce (get_or_refresh key starts_at db).1 warned
  IsWarnedOnce-get_or_refresh warned h k =
      ((h k).0, λ some_warning. IsMarked-get_or_refresh k ((h k).1 some_warning))

module _ (key : Key) (n : ℕ) (db : BudgetDb) where
  set-fired : (now : ℕ) → (set_tokens_used key n (some now) db).0.soft_warn_fired_at ≡ some now
  unfolding set_tokens_used
  set-fired now = elim (Option-cases (find (of_key key) db.snapshots)) [
    | inl e ↦ ground arith
    | inr (s, e) ↦ ground arith
  ]

  set-keeps_fired :
      {s : TenantBudgetSnapshot}
      → get_for_tenant_period key db ≡ some s
      → (set_tokens_used key n none db).0.soft_warn_fired_at ≡ s.soft_warn_fired_at
  unfolding set_tokens_used get_for_tenant_period
  set-keeps_fired found = ground arith

  -- A write that carries a time marks the row.
  pub IsMarked-set : (now : ℕ) → IsMarked key (set_tokens_used key n (some now) db).1
  IsMarked-set now =
      ((set_tokens_used key n (some now) db).0, now, set-stored key n (some now) db, set-fired now)

  IsMarked-kept_at :
      (fired_at : Option ℕ) → IsMarked key db → IsMarked key (set_tokens_used key n fired_at db).1
  IsMarked-kept_at none (s, t, found, fired) = (
    (set_tokens_used key n none db).0,
    t,
    set-stored key n none db,
    set-keeps_fired found ∙ fired,
  )
  IsMarked-kept_at (some now) m = IsMarked-set now

  -- No write takes a mark away.
  pub IsMarked-kept :
      (fired_at : Option ℕ) (k : Key)
      → IsMarked k db
      → IsMarked k (set_tokens_used key n fired_at db).1
  IsMarked-kept fired_at k m = elim (Bool-cases (key_eq key k)) [
    | inl y ↦
        let its = (key_eq_iff key k).0 y in
        subst (λ j. IsMarked j (set_tokens_used key n fired_at db).1) its
          (IsMarked-kept_at fired_at (subst (λ j. IsMarked j db) (sym its) m))
    | inr other ↦
        let (s, t, found, fired) = m in
        (s, t, get-set_other key n fired_at db k other ∙ found, fired)
  ]

-- A warning is given where the row is unmarked, and marks it.
pub IsWarnedOnce-fired :
    (key : Key) (n later : ℕ) (db : BudgetDb) (warned : List Key) {snap : TenantBudgetSnapshot}
    → get_for_tenant_period key db ≡ some snap
    → snap.soft_warn_fired_at ≡ none
    → IsWarnedOnce db warned
    → IsWarnedOnce (set_tokens_used key n (some later) db).1 (warned ++ key ∷ [])
IsWarnedOnce-fired key n later db warned stored unmarked h k =
    let counted = count_where-append (λ j. key_eq j k) warned (key ∷ []) in
    elim (Bool-cases (key_eq key k)) [
      | inl y ↦
          let its = (key_eq_iff key k).0 y in
          let silent : ¬ (1 ≤ warnings key warned) =
            λ some_warning. (let (s, t, found, fired) = (h key).1 some_warning in cc) in
          let none_yet : warnings key warned ≡ 0 = ground (arith, silent) in
          let none_there : warnings k warned ≡ 0 =
            subst (λ j. warnings j warned ≡ 0) its none_yet in
          (
            ground (arith, counted, none_there),
            (λ some_warning.
                subst (λ j. IsMarked j (set_tokens_used key n (some later) db).1) its
                  (IsMarked-set key n db later)),
          )
      | inr other ↦
          let same : warnings k (warned ++ key ∷ []) ≡ warnings k warned =
            ground (arith, counted) in
          (
            rw same (h k).0,
            (λ some_warning.
                IsMarked-kept key n db (some later) k ((h k).1 (rw same at some_warning))),
          )
    ]
