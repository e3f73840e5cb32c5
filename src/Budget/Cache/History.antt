-- ===== src/Budget/Cache/History.antt =====
-- Histories of calls on the cache.
use lumen_ai_support_agent.Budget.Cache.Put.{count_where-evict, length-evict, put_lem}
use lumen_ai_support_agent.Prelude.Table.Laws.{
  count_where-append, count_where-delete_where, find_sound,
}
use lumen_ai_support_agent.Prelude.{
  Bool-cases, List, Option-cases, [], arith, inl, inr, leb, length, length-append, none, refl, some,
  subst, sym, ℕ, ◌++◌, ◌+◌, ◌<◌, ◌∙◌, ◌∷◌, ◌≡◌, ◌≤◌, ◌⊎◌,
}
use lumen_ai_support_agent.Prelude.Table.{count_where, delete_where, find}
use lumen_ai_support_agent.Prelude.Table.Rows.{
  count_where-deleted, length-delete_where, length-deleted,
}
use lumen_ai_support_agent.Budget.Models.{Key, TenantBudgetSnapshot, key_eq, key_eq_iff}
use lumen_ai_support_agent.Budget.Cache.{Entry, SnapshotCache, at_key, clear, get, invalidate, put}

pub data CacheCall : Type 0 where
  get_call : ℕ → Key → CacheCall
  put_call : ℕ → Key → TenantBudgetSnapshot → CacheCall
  invalidate_call : Key → CacheCall
  clear_call : CacheCall

abbrev pub apply : CacheCall → SnapshotCache → SnapshotCache
apply (get_call now key) c = (get now key c).1
apply (put_call now key snap) c = put now key snap c
apply (invalidate_call key) c = invalidate key c
apply clear_call c = clear c

unfoldable pub cache_after : List CacheCall → SnapshotCache → SnapshotCache
cache_after [] c = c
cache_after (o ∷ os) c = cache_after os (apply o c)

-- Bounded, with one entry to a key.
pub record IsCache (c : SnapshotCache) : Type 0 where
  pub bounded : length c.entries ≤ c.maxsize
  pub one_each : (k : Key) → count_where (at_key k) c.entries ≤ 1

-- An entry that goes behind the others.
one_each-last :
    (e : Entry) (es : List Entry) (k : Key)
    → count_where (at_key k) es ≤ 1
    → count_where (at_key k) (delete_where (at_key e.key) es ++ e ∷ []) ≤ 1
one_each-last e es k h = elim (Bool-cases (key_eq e.key k)) [
  | inl y ↦
      let none_left =
        subst (λ j. count_where (at_key j) (delete_where (at_key e.key) es) ≡ 0)
          ((key_eq_iff e.key k).0 y) (count_where-deleted (at_key e.key) es) in
      ground
        (arith, none_left, count_where-append (at_key k) (delete_where (at_key e.key) es) (e ∷ []))
  | inr n ↦ ground (
    arith,
    n,
    count_where-append (at_key k) (delete_where (at_key e.key) es) (e ∷ []),
    count_where-delete_where (at_key k) (at_key e.key) es,
  )
]

length-touched :
    (e : Entry) (es : List Entry)
    → find (at_key e.key) es ≡ some e
    → length (delete_where (at_key e.key) es ++ e ∷ []) ≤ length es
length-touched e es h = omega (
  arith,
  length-append (delete_where (at_key e.key) es) (e ∷ []),
  length-deleted (at_key e.key) es h,
)

-- What a `get` answers, and leaves.
pub get_cases :
    (now : ℕ) (key : Key) (c : SnapshotCache)
    → (get now key c ≡ (none, c))
      ⊎ (get now key c ≡ (none, record c { entries = delete_where (at_key key) c.entries }))
      ⊎ ((e : Entry) × (find (at_key e.key) c.entries ≡ some e)
          × (e.key ≡ key)
          × (now < e.expires_at)
          × (get now key c ≡ (
            some e.snap,
            record c { entries = delete_where (at_key e.key) c.entries ++ e ∷ [] },
          )))
unfolding get
get_cases now key c = elim (Option-cases (find (at_key key) c.entries)) [
  | inl n ↦ inl (ground arith)
  | inr (e, found) ↦ elim (Bool-cases (leb e.expires_at now)) [
    | inl y ↦ inr (inl (ground arith))
    | inr n ↦
        let is = (key_eq_iff e.key key).0 (find_sound (at_key key) c.entries found) in
        inr (
          inr (
            e,
            subst (λ k. find (at_key k) c.entries ≡ some e) (sym is) found,
            is,
            ground arith,
            ground arith,
          ))
  ]
]

deleted-IsCache :
    (key : Key) (c : SnapshotCache)
    → IsCache c
    → IsCache (record c { entries = delete_where (at_key key) c.entries })
deleted-IsCache key c h = record {
  bounded = omega (arith, h.bounded, length-delete_where (at_key key) c.entries);
  one_each =
      λ k. omega (arith, h.one_each k, count_where-delete_where (at_key k) (at_key key) c.entries);
}

-- Every call keeps the cache within its size, with one entry to a key.
apply-IsCache : (o : CacheCall) (c : SnapshotCache) → IsCache c → IsCache (apply o c)
unfolding invalidate clear
apply-IsCache (get_call now key) c h = elim (get_cases now key c) [
  | inl e ↦ rw (e, apply) h
  | inr (inl e) ↦ rw (e, apply) (deleted-IsCache key c h)
  | inr (inr (x, found, is, soon, e)) ↦
      rw (e, apply)
        (record {
          bounded = omega (arith, h.bounded, length-touched x c.entries found);
          one_each = λ k. one_each-last x c.entries k (h.one_each k);
        })
]
apply-IsCache (put_call now key snap) c h =
    let entry : Entry = record { key = key; expires_at = now + c.ttl_s; snap = snap } in
    rw (put_lem now key snap c) (record {
      bounded = length-evict c.maxsize (delete_where (at_key key) c.entries ++ entry ∷ []);
      one_each = λ k. omega (
        arith,
        one_each-last entry c.entries k (h.one_each k),
        count_where-evict (at_key k) c.maxsize (delete_where (at_key key) c.entries ++ entry ∷ []),
      );
    })
apply-IsCache (invalidate_call key) c h = deleted-IsCache key c h
apply-IsCache clear_call c h = record { bounded = omega arith; one_each = λ k. omega arith }

pub apply-settings :
    (o : CacheCall) (c : SnapshotCache)
    → ((apply o c).ttl_s ≡ c.ttl_s) × ((apply o c).maxsize ≡ c.maxsize)
unfolding invalidate clear
apply-settings (get_call now key) c = elim (get_cases now key c) [
  | inl e ↦ rw (e, apply) (refl, refl)
  | inr (inl e) ↦ rw (e, apply) (refl, refl)
  | inr (inr (x, found, is, soon, e)) ↦ rw (e, apply) (refl, refl)
]
apply-settings (put_call now key snap) c = rw (put_lem now key snap c) (refl, refl)
apply-settings (invalidate_call key) c = (refl, refl)
apply-settings clear_call c = (refl, refl)

-- If it holds at first, then whatever is called in whatever order, the cache holds at most
-- `maxsize` entries, and at most one to a key.
pub cache_after-IsCache :
    (os : List CacheCall) (c : SnapshotCache)
    → IsCache c
    → IsCache (cache_after os c) × ((cache_after os c).maxsize ≡ c.maxsize)
unfolding cache_after
cache_after-IsCache [] c h = (h, refl)
cache_after-IsCache (o ∷ os) c h =
    let (k, same) = cache_after-IsCache os (apply o c) (apply-IsCache o c h) in
    (k, same ∙ (apply-settings o c).1)
