-- ===== src/Budget/Cache/Put.antt =====
-- budget/cache.py: `put`.
use lumen_ai_support_agent.Prelude.{
  All, Bool, Bool-cases, List, Option-cases, [], ap, arith, if◌then◌else◌, inl, inr, leb, length,
  ltb, none, refl, some, true, ℕ, ◌++◌, ◌+◌, ◌∙◌, ◌∷◌, ◌≡◌, ◌≤◌,
}
use lumen_ai_support_agent.Prelude.Table.{count_where, delete_where, find}
use lumen_ai_support_agent.Prelude.Table.Laws.{find-append_none, find_sound}
use lumen_ai_support_agent.Prelude.Table.Rows.{
  delete_where-none, exists-last, exists-none, find-delete_where, update_first-last,
}
use lumen_ai_support_agent.Budget.Models.{Key, TenantBudgetSnapshot, key_eq_iff}
use lumen_ai_support_agent.Budget.Cache.{
  Entry, SnapshotCache, assign, at_key, evict, get, put, touch,
}

touch-none :
    (key : Key) (entries : List Entry)
    → find (at_key key) entries ≡ none
    → touch key entries ≡ entries
touch-none key entries h = ground arith

touch-some :
    (key : Key) (entries : List Entry) {x : Entry}
    → find (at_key key) entries ≡ some x
    → touch key entries ≡ delete_where (at_key key) entries ++ x ∷ []
touch-some key entries {x} h =
    let its_key : x.key ≡ key = (key_eq_iff x.key key).0 (find_sound (at_key key) entries h) in
    let moved : touch key entries ≡ delete_where (at_key x.key) entries ++ x ∷ [] = ground arith in
    moved ∙ ap (λ k. delete_where (at_key k) entries ++ x ∷ []) its_key

-- The entries before the eviction.
assign-touch :
    (e : Entry) (entries : List Entry)
    → assign e (touch e.key entries) ≡ delete_where (at_key e.key) entries ++ e ∷ []
assign-touch e entries = elim (Option-cases (find (at_key e.key) entries)) [
  | inl n ↦ rw (
    touch-none e.key entries n,
    exists-none (at_key e.key) entries n,
    delete_where-none (at_key e.key) entries n,
  )
  | inr (x, found) ↦
      let mine : at_key e.key x ≡ true = find_sound (at_key e.key) entries found in
      rw (
        touch-some e.key entries found,
        exists-last (at_key e.key) (delete_where (at_key e.key) entries) x mine,
        update_first-last (at_key e.key) (λ y. e) entries x mine,
      )
]

pub put_lem :
    (now : ℕ) (key : Key) (snap : TenantBudgetSnapshot) (c : SnapshotCache)
    → put now key snap c ≡ record c {
      entries = evict c.maxsize (
          delete_where (at_key key) c.entries
          ++ record { key = key; expires_at = now + c.ttl_s; snap = snap } ∷ []);
    }
unfolding put
put_lem now key snap c =
    ap (λ es. record c { entries = evict c.maxsize es }) (assign-touch _ c.entries)

pub length-evict : (n : ℕ) (es : List Entry) → length (evict n es) ≤ n
unfolding evict
length-evict n [] = omega arith
length-evict n (e ∷ es) = ground (arith, length-evict n es)

pub count_where-evict :
    (q : Entry → Bool) (n : ℕ) (es : List Entry) → count_where q (evict n es) ≤ count_where q es
unfolding evict
count_where-evict q n [] = omega arith
count_where-evict q n (e ∷ es) = ground (arith, count_where-evict q n es)

pub All-evict {κ} : (P : Entry → Type κ) (n : ℕ) (es : List Entry) → All P es → All P (evict n es)
unfolding evict
All-evict P n [] h = tt
All-evict P n (e ∷ es) h = elim (Bool-cases (ltb n (length (e ∷ es)))) [
  | inl y ↦ rw y (All-evict P n es h.1)
  | inr m ↦ rw m h
]

-- The newest entry survives where there is room for one.
find-evict_last :
    (q : Entry → Bool) (n : ℕ) (es : List Entry) (e : Entry)
    → 1 ≤ n
    → find q es ≡ none
    → q e ≡ true
    → find q (evict n (es ++ e ∷ [])) ≡ some e
unfolding evict
find-evict_last q n [] e room h y = ground arith
find-evict_last q n (x ∷ es) e room h y =
    ground (arith, find-evict_last q n es e room, find-append_none q es (e ∷ []))

-- What was put is read back until its time is over, and then no longer, if the cache has room for
-- one entry at all.
pub get-put :
    (now later : ℕ) (key : Key) (snap : TenantBudgetSnapshot) (c : SnapshotCache)
    → 1 ≤ c.maxsize
    → (get later key (put now key snap c)).0
      ≡ (if leb (now + c.ttl_s) later then none else some snap)
unfolding get
get-put now later key snap c room =
    let entry : Entry = record { key = key; expires_at = now + c.ttl_s; snap = snap } in
    let found : find (at_key key) (put now key snap c).entries ≡ some entry =
      rw (put_lem now key snap c) (
        find-evict_last (at_key key) c.maxsize (delete_where (at_key key) c.entries) entry room
          (find-delete_where (at_key key) c.entries) ((key_eq_iff key key).1 refl)) in
    ground arith
