-- ===== src/Budget/Cache/Refinement.antt =====
-- The cache against a map that forgets nothing.
use lumen_ai_support_agent.Prelude.{
  All, Bool-cases, List, Option, [], ap, false, if◌then◌else◌, inl, inr, none, refl, some, subst,
  sym, ℕ, ◌++◌, ◌+◌, ◌<◌, ◌∙◌, ◌∷◌, ◌≡◌,
}
use lumen_ai_support_agent.Prelude.Table.{delete_where}
use lumen_ai_support_agent.Prelude.Table.Rows.{All-delete_where, All-last, find-All}
use lumen_ai_support_agent.Budget.Models.{Key, TenantBudgetSnapshot, key_eq, key_eq_iff}
use lumen_ai_support_agent.Budget.Cache.{Entry, SnapshotCache, at_key, clear, get, invalidate}
use lumen_ai_support_agent.Budget.Cache.Put.{All-evict, put_lem}
use lumen_ai_support_agent.Budget.Cache.History.{
  CacheCall, apply, apply-settings, cache_after, clear_call, get_call, get_cases, invalidate_call,
  put_call,
}

-- A map from keys to what is valid there, and until when.
abbrev pub View : Type 0
View = Key → Option (ℕ × TenantBudgetSnapshot)

abbrev pub view_apply : ℕ → CacheCall → View → View
view_apply ttl_s (get_call now key) v = v
view_apply ttl_s (put_call now key snap) v =
    λ k. if key_eq key k then some (now + ttl_s, snap) else v k
view_apply ttl_s (invalidate_call key) v = λ k. if key_eq key k then none else v k
view_apply ttl_s clear_call v = λ k. none

abbrev pub view_after : ℕ → List CacheCall → View → View
view_after ttl_s [] v = v
view_after ttl_s (o ∷ os) v = view_after ttl_s os (view_apply ttl_s o v)

-- Every entry is what the map holds.
abbrev pub Agrees : SnapshotCache → View → Type 0
Agrees c v = All (λ e. v e.key ≡ some (e.expires_at, e.snap)) c.entries

module _ (c : SnapshotCache) (v : View) where
  abbrev Same : View → Entry → Type 0
  Same w e = w e.key ≡ some (e.expires_at, e.snap)

  -- The entries of other keys agree with a map that differs at the key alone.
  others_agree :
      (w : View) (key : Key)
      → ((k : Key) → key_eq k key ≡ false → w k ≡ v k)
      → Agrees c v
      → All (Same w) (delete_where (at_key key) c.entries)
  others_agree w key same h =
      All-delete_where (Same v) (Same w) (at_key key) c.entries h (λ e n s. same e.key n ∙ s)

  deleted_agree : (key : Key) → Agrees c v → All (Same v) (delete_where (at_key key) c.entries)
  deleted_agree key = others_agree v key (λ k n. refl)

key_eq-sym : (a b : Key) → key_eq a b ≡ false → key_eq b a ≡ false
key_eq-sym a b h = elim (Bool-cases (key_eq b a)) [
  | inl y ↦ cc ((key_eq_iff a b).1 (sym ((key_eq_iff b a).0 y)))
  | inr n ↦ n
]

-- Every call leaves entries that the map holds.
apply-Agrees :
    (o : CacheCall) (c : SnapshotCache) (v : View)
    → Agrees c v
    → Agrees (apply o c) (view_apply c.ttl_s o v)
unfolding invalidate clear
apply-Agrees (get_call now key) c v h = elim (get_cases now key c) [
  | inl e ↦ rw (e, apply) h
  | inr (inl e) ↦ rw (e, apply) (deleted_agree c v key h)
  | inr (inr (x, found, is, soon, e)) ↦
      rw (e, apply)
        (All-last (Same c v v) (delete_where (at_key x.key) c.entries) x (deleted_agree c v x.key h)
          (find-All (Same c v v) (at_key x.key) c.entries h found))
]
apply-Agrees (put_call now key snap) c v h =
    let w = view_apply c.ttl_s (put_call now key snap) v in
    let entry : Entry = record { key = key; expires_at = now + c.ttl_s; snap = snap } in
    rw (put_lem now key snap c) (
      All-evict (Same c v w) c.maxsize (delete_where (at_key key) c.entries ++ entry ∷ []) (
        All-last (Same c v w) (delete_where (at_key key) c.entries) entry
          (others_agree c v w key (λ k n. rw (key_eq-sym k key n) refl) h)
          (rw ((key_eq_iff key key).1 refl) refl)))
apply-Agrees (invalidate_call key) c v h =
    others_agree c v (view_apply c.ttl_s (invalidate_call key) v) key
      (λ k n. rw (key_eq-sym k key n) refl) h
apply-Agrees clear_call c v h = tt

cache_after-Agrees :
    (os : List CacheCall) (c : SnapshotCache) (v : View)
    → Agrees c v
    → Agrees (cache_after os c) (view_after c.ttl_s os v)
unfolding cache_after
cache_after-Agrees [] c v h = h
cache_after-Agrees (o ∷ os) c v h =
    subst (λ t. Agrees (cache_after os (apply o c)) (view_after t os (view_apply c.ttl_s o v)))
      (apply-settings o c).0
      (cache_after-Agrees os (apply o c) (view_apply c.ttl_s o v) (apply-Agrees o c v h))

-- A cache that starts empty refines the map: after any calls, what a `get` answers is what was last
-- put at that key and not invalidated or cleared since, and its time is not over.
pub get-refines :
    (os : List CacheCall) (ttl_s maxsize now : ℕ) (key : Key) {snap : TenantBudgetSnapshot}
    → let empty : SnapshotCache = record { ttl_s = ttl_s; maxsize = maxsize; entries = [] } in
      (get now key (cache_after os empty)).0 ≡ some snap
      → (expires_at : ℕ) × (view_after ttl_s os (λ k. none) key ≡ some (expires_at, snap))
        × (now < expires_at)
get-refines os ttl_s maxsize now key {snap} h =
    let empty : SnapshotCache = record { ttl_s = ttl_s; maxsize = maxsize; entries = [] } in
    let agrees = cache_after-Agrees os empty (λ k. none) tt in
    elim (get_cases now key (cache_after os empty)) [
      | inl e ↦ cc
      | inr (inl e) ↦ cc
      | inr (inr (x, found, is, soon, e)) ↦
          let same : x.snap ≡ snap = cc in
          let held =
            find-All (λ y. view_after ttl_s os (λ k. none) y.key ≡ some (y.expires_at, y.snap))
              (at_key x.key) (cache_after os empty).entries agrees found in
          (
            x.expires_at,
            ap (view_after ttl_s os (λ k. none)) (sym is)
                ∙ held
                ∙ ap (λ (y : TenantBudgetSnapshot). some (x.expires_at, y)) same,
            soon,
          )
    ]
