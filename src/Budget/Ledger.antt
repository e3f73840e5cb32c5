-- ===== src/Budget/Ledger.antt =====
-- What the snapshots say after a response is recorded.
use lumen_ai_support_agent.Prelude.Table.Rows.{find-delete_where}
use lumen_ai_support_agent.Budget.Precheck.{fresh_value, precheck_invalidate, stored_at_key}
use lumen_ai_support_agent.Budget.Cache.{at_key, get, invalidate}
use lumen_ai_support_agent.Budget.Resolver.{fire_soft_warn, post_read, post_record, post_write}
use lumen_ai_support_agent.Budget.World.{BudgetResolver, World}
use lumen_ai_support_agent.Prelude.{
  Bool, Option, Option-cases, [], ap, arith, false, if◌then◌else◌, inl, inr, none, refl, some, sym,
  true, ℕ, ◌+◌, ◌∙◌, ◌∷◌, ◌≡◌,
}
use lumen_ai_support_agent.Prelude.Table.{find}
use lumen_ai_support_agent.Prelude.Table.Laws.{
  find-append_none, find-append_skip, find_sound, find-update_first, find-update_first_self,
}
use lumen_ai_support_agent.Budget.Models.{BudgetDb, Key, TenantBudgetSnapshot, key_eq, key_eq_iff}
use lumen_ai_support_agent.Budget.Repository.{
  get_for_tenant_period, get_or_refresh, refresh, set_clause, set_tokens_used, sum_usage,
  upsert_snapshot,
}

abbrev pub of_key : Key → TenantBudgetSnapshot → Bool
of_key key s = key_eq s.key key

module _ (set : TenantBudgetSnapshot → TenantBudgetSnapshot)
    (keeps : (s : TenantBudgetSnapshot) → (set s).key ≡ s.key) where
  pub find-upserted :
      (inserted : TenantBudgetSnapshot) (db : BudgetDb)
      → find (of_key inserted.key) (upsert_snapshot inserted set db).1.snapshots
        ≡ some (upsert_snapshot inserted set db).0
  find-upserted inserted db = elim (Option-cases (find (of_key inserted.key) db.snapshots)) [
    | inl n ↦ ground (
      arith,
      find-append_none (of_key inserted.key) db.snapshots (inserted ∷ []),
      (key_eq_iff inserted.key inserted.key).1 refl,
    )
    | inr (s, e) ↦ ground (
      arith,
      find-update_first_self (of_key inserted.key) set db.snapshots {a = s}
          (rw (keeps s) (find_sound (of_key inserted.key) db.snapshots e)),
    )
  ]

  pub find-upserted_other :
      (inserted : TenantBudgetSnapshot) (db : BudgetDb) (j : Key)
      → key_eq inserted.key j ≡ false
      → find (of_key j) (upsert_snapshot inserted set db).1.snapshots ≡ find (of_key j) db.snapshots
  find-upserted_other inserted db j n =
      elim (Option-cases (find (of_key inserted.key) db.snapshots)) [
        | inl e ↦ ground (arith, find-append_skip (of_key j) db.snapshots inserted n)
        | inr (s, e) ↦
            elim (find-update_first (of_key j) (of_key inserted.key) set db.snapshots
              (λ x. ap (λ k. key_eq k j) (keeps x))) [
                | inl same ↦ ground arith
                | inr (x, mine, its, _) ↦
                    let a = (key_eq_iff x.key j).0 (find_sound (of_key j) db.snapshots mine) in
                    let b =
                      (key_eq_iff x.key inserted.key).0
                        (find_sound (of_key inserted.key) db.snapshots its) in
                    cc ((key_eq_iff inserted.key j).1 (sym b ∙ a))
              ]
      ]

set_clause-key :
    (n : ℕ) (fired_at : Option ℕ) (s : TenantBudgetSnapshot) → (set_clause n fired_at s).key ≡ s.key
set_clause-key n none s = refl
set_clause-key n (some t) s = refl

upserted-tokens :
    (key : Key) (n : ℕ) (fired_at : Option ℕ) (db : BudgetDb)
    → (set_tokens_used key n fired_at db).0.tokens_used ≡ n
unfolding set_tokens_used
upserted-tokens key n none db = elim (Option-cases (find (of_key key) db.snapshots)) [
  | inl e ↦ ground arith
  | inr (s, e) ↦ ground arith
]
upserted-tokens key n (some t) db = elim (Option-cases (find (of_key key) db.snapshots)) [
  | inl e ↦ ground arith
  | inr (s, e) ↦ ground arith
]

-- The tokens that the pre-check and the post-record count for a key.
abbrev pub tokens_counted : Key → ℕ → BudgetDb → ℕ
tokens_counted key starts_at db = (get_or_refresh key starts_at db).0.tokens_used

module _ (key : Key) (n : ℕ) (fired_at : Option ℕ) (db : BudgetDb) where
  pub tokens_counted-set :
      (starts_at : ℕ) → tokens_counted key starts_at (set_tokens_used key n fired_at db).1 ≡ n
  unfolding get_or_refresh get_for_tenant_period set_tokens_used
  tokens_counted-set starts_at =
      let row =
        find-upserted (set_clause n fired_at) (set_clause-key n fired_at)
          (record { key = key; tokens_used = n; soft_warn_fired_at = fired_at }) db in
      ground (arith, row, upserted-tokens key n fired_at db)

  -- RETURNING: the row that is stored.
  pub set-stored :
      get_for_tenant_period key (set_tokens_used key n fired_at db).1
      ≡ some (set_tokens_used key n fired_at db).0
  unfolding get_for_tenant_period set_tokens_used
  set-stored =
      find-upserted (set_clause n fired_at) (set_clause-key n fired_at)
        (record { key = key; tokens_used = n; soft_warn_fired_at = fired_at }) db

  pub get-set_other :
      (j : Key)
      → key_eq key j ≡ false
      → get_for_tenant_period j (set_tokens_used key n fired_at db).1 ≡ get_for_tenant_period j db
  unfolding get_for_tenant_period set_tokens_used
  get-set_other j =
      find-upserted_other (set_clause n fired_at) (set_clause-key n fired_at)
        (record { key = key; tokens_used = n; soft_warn_fired_at = fired_at }) db j

pub get-refresh_other :
    (key : Key) (starts_at : ℕ) (db : BudgetDb) (j : Key)
    → key_eq key j ≡ false
    → get_for_tenant_period j (get_or_refresh key starts_at db).1 ≡ get_for_tenant_period j db
unfolding get_or_refresh get_for_tenant_period refresh
get-refresh_other key starts_at db j n =
    let total = sum_usage key.tenant_id starts_at db.usages in
    let other =
      find-upserted_other (λ s. record s { tokens_used = total }) (λ s. refl)
        (record { key = key; tokens_used = total; soft_warn_fired_at = none }) db j n in
    elim (Option-cases (find (of_key key) db.snapshots)) [
      | inl e ↦ ground (arith, other)
      | inr (s, e) ↦ ground arith
    ]

module _ (r : BudgetResolver) (later : ℕ) (key : Key) (starts_at tokens : ℕ) (w : World) where
  -- Recording a response adds its tokens to the count of the tenant and period, and leaves every
  -- other snapshot as it was. The snapshot cache answers nothing for the key any more, nor does the
  -- pre-check cache where the resolver has one.
  pub post_record-counted :
      let w' = post_record r later key starts_at tokens w in
      (tokens_counted key starts_at w'.db ≡ tokens_counted key starts_at w.db + tokens)
      × ((j : Key)
          → key_eq key j ≡ false
          → get_for_tenant_period j w'.db ≡ get_for_tenant_period j w.db)
      × ((now : ℕ) → (get now key w'.snapshot_cache).0 ≡ none)
      × (r.has_precheck_cache ≡ true → (now : ℕ) → fresh_value now key w'.precheck_cache ≡ none)
  unfolding post_record post_read post_write get fresh_value invalidate precheck_invalidate
  post_record-counted =
      let (snap, w₁) = post_read key starts_at w in
      let fired_at =
        if fire_soft_warn r.budget snap (snap.tokens_used + tokens)
        then some later
        else snap.soft_warn_fired_at in
      (
        tokens_counted-set key (snap.tokens_used + tokens) fired_at w₁.db starts_at,
        (λ j n.
            get-set_other key (snap.tokens_used + tokens) fired_at w₁.db j n
            ∙ get-refresh_other key starts_at w.db j n),
        (λ now. ground (arith, find-delete_where (at_key key) w.snapshot_cache.entries)),
        (λ has now. ground (arith, find-delete_where (stored_at_key key) w.precheck_cache.store)),
      )
