-- ===== src/Assignment/LeastBusy.antt =====
-- Whom an escalated conversation is assigned to.
use lumen_ai_support_agent.Prelude.{
  All, Bool-cases, List, Option-cases, String, [], arith, eq_refl, false, inl, inr, is_text, none,
  not, refl, some, subst, sym, true, ℕ, ◌&&◌, ◌==◌, ◌∷◌, ◌≡◌, ◌≢◌, ◌≤◌, ◌⊎◌,
}
use lumen_ai_support_agent.Prelude.Table.{exists}
use lumen_ai_support_agent.Assignment.{
  Directory, User, candidates, eligible_ids, enabled_for, get_assignment_policy, insert_text,
  is_eligible, is_less_busy, least_busy, load_of, min_by, select_agent, sorted, text_ltb,
}

module _ {κ} (P : String → Type κ) where
  All-insert_text : (x : String) (xs : List String) → P x → All P xs → All P (insert_text x xs)
  unfolding insert_text
  All-insert_text x [] p h = (p, tt)
  All-insert_text x (y ∷ ys) p h = elim (Bool-cases (text_ltb y x)) [
    | inl l ↦ rw l (h.0, All-insert_text x ys p h.1)
    | inr n ↦ rw n (p, h)
  ]

  All-inserted : (x : String) (xs : List String) → All P (insert_text x xs) → P x × All P xs
  unfolding insert_text
  All-inserted x [] h = (h.0, tt)
  All-inserted x (y ∷ ys) h = elim (Bool-cases (text_ltb y x)) [
    | inl l ↦ let k = rw l at h in let (p, rest) = All-inserted x ys k.1 in (p, (k.0, rest))
    | inr n ↦ let k = rw n at h in (k.0, k.1)
  ]

  All-sorted : (xs : List String) → All P xs → All P (sorted xs)
  unfolding sorted
  All-sorted [] h = tt
  All-sorted (x ∷ xs) h = All-insert_text x (sorted xs) h.0 (All-sorted xs h.1)

  sorted-All : (xs : List String) → All P (sorted xs) → All P xs
  unfolding sorted
  sorted-All [] h = tt
  sorted-All (x ∷ xs) h = let (p, rest) = All-inserted x (sorted xs) h in (p, sorted-All xs rest)

  min_by-All :
      (load : String → ℕ) (best : String) (xs : List String)
      → P best
      → All P xs
      → P (min_by load best xs)
  unfolding min_by
  min_by-All load best [] p h = p
  min_by-All load best (x ∷ xs) p h = elim (Bool-cases (is_less_busy load x best)) [
    | inl y ↦ rw y (min_by-All load x xs h.0 h.1)
    | inr n ↦ rw n (min_by-All load best xs p h.1)
  ]

min_by-least :
    (load : String → ℕ) (best : String) (xs : List String)
    → (load (min_by load best xs) ≤ load best) × All (λ x. load (min_by load best xs) ≤ load x) xs
unfolding min_by
min_by-least load best [] = (omega arith, tt)
min_by-least load best (x ∷ xs) =
    let IsLeast : String → Type 0 =
      λ m. (load m ≤ load best) × All (λ z. load m ≤ load z) (x ∷ xs) in
    elim (Bool-cases (is_less_busy load x best)) [
      | inl y ↦
          let e : min_by load best (x ∷ xs) ≡ min_by load x xs = rw y refl in
          let (l, all) = min_by-least load x xs in
          let below : load x ≤ load best = ground arith in
          subst IsLeast (sym e) (omega (arith, l, below), (l, all))
      | inr n ↦
          let e : min_by load best (x ∷ xs) ≡ min_by load best xs = rw n refl in
          let (l, all) = min_by-least load best xs in
          let below : load best ≤ load x = ground arith in
          subst IsLeast (sym e) (l, (omega (arith, l, below), all))
    ]

-- An id of an active agent or supervisor of the tenant.
abbrev pub IsCandidate : String → Directory → String → Type 0
IsCandidate tenant_id d a = exists (λ u. u.id == a && is_eligible tenant_id u) d.users ≡ true

-- Nobody of the tenant who is eligible has less to do.
abbrev pub IsLeastBusy : String → Directory → String → Type 0
IsLeastBusy tenant_id d a =
    All (λ b. load_of tenant_id d a ≤ load_of tenant_id d b) (candidates tenant_id d.users)

candidates-found :
    (tenant_id : String) (d : Directory) (us : List User)
    → ((a : String)
        → exists (λ u. u.id == a && is_eligible tenant_id u) us ≡ true
        → IsCandidate tenant_id d a)
    → All (IsCandidate tenant_id d) (candidates tenant_id us)
candidates-found tenant_id d [] k = tt
candidates-found tenant_id d (u ∷ us) k = elim (Bool-cases (is_eligible tenant_id u)) [
  | inl y ↦ rw y (
    k u.id (ground (arith, eq_refl u.id)),
    candidates-found tenant_id d us (λ a h. k a (ground arith)),
  )
  | inr n ↦ rw n (candidates-found tenant_id d us (λ a h. k a (ground arith)))
]

insert_text-cons : (x : String) (xs : List String) → insert_text x xs ≢ []
unfolding insert_text
insert_text-cons x [] = λ e. cc
insert_text-cons x (y ∷ ys) = elim (Bool-cases (text_ltb y x)) [
  | inl l ↦ rw l (λ e. cc)
  | inr n ↦ rw n (λ e. cc)
]

sorted-nil : (xs : List String) → sorted xs ≡ [] → xs ≡ []
unfolding sorted
sorted-nil [] e = refl
sorted-nil (x ∷ xs) e = absurd (insert_text-cons x (sorted xs) e)

List-cases : (xs : List String) → (xs ≡ []) ⊎ ((x : String) × (ys : List String) × (xs ≡ x ∷ ys))
List-cases [] = inl refl
List-cases (x ∷ ys) = inr (x, ys, refl)

-- The choice falls on an active agent or supervisor of the tenant than whom none has fewer open and
-- pending conversations; there is no choice exactly where the tenant has no such user.
pub least_busy-exact :
    (tenant_id : String) (d : Directory)
    → ((candidates tenant_id d.users ≡ []) × (least_busy tenant_id d ≡ none))
      ⊎ ((a : String) × (least_busy tenant_id d ≡ some a)
          × IsCandidate tenant_id d a
          × IsLeastBusy tenant_id d a)
unfolding least_busy eligible_ids
least_busy-exact tenant_id d = elim (List-cases (sorted (candidates tenant_id d.users))) [
  | inl e ↦ inl (sorted-nil (candidates tenant_id d.users) e, rw (e, least_busy) refl)
  | inr (x, xs, e) ↦
      let load = load_of tenant_id d in
      let found = subst (All (IsCandidate tenant_id d)) e (
        All-sorted (IsCandidate tenant_id d) (candidates tenant_id d.users)
          (candidates-found tenant_id d d.users (λ a h. h))) in
      inr (
        min_by load x xs,
        rw (e, least_busy) refl,
        min_by-All (IsCandidate tenant_id d) load x xs found.0 found.1,
        sorted-All (λ b. load (min_by load x xs) ≤ load b) (candidates tenant_id d.users)
            (subst (All (λ b. load (min_by load x xs) ≤ load b)) (sym e) (min_by-least load x xs)),
      )
]

-- An agent is selected only where the policy is enabled for the tenant, and then it is the least
-- busy one.
pub select_agent-exact :
    (tenant_id : String) (d : Directory)
    → ((enabled_for tenant_id d ≡ true) × (select_agent tenant_id d ≡ least_busy tenant_id d))
      ⊎ ((enabled_for tenant_id d ≡ false) × (select_agent tenant_id d ≡ none))
unfolding enabled_for select_agent
select_agent-exact tenant_id d = elim (Option-cases (get_assignment_policy tenant_id d)) [
  | inl n ↦ inr (ground arith, ground arith)
  | inr (p, e) ↦
      elim (Bool-cases
        (p.enabled && (is_text p.strategy "least_busy" && not (is_text p.strategy "manual")))) [
          | inl y ↦ inl (ground arith, ground arith)
          | inr n ↦ inr (ground arith, ground arith)
        ]
]
