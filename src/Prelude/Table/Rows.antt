-- ===== src/Prelude/Table/Rows.antt =====
-- A property of every row, and the rows that a deletion leaves.
use lumen_ai_support_agent.Prelude.{
  All, Bool, Bool-cases, List, [], arith, false, inl, inr, length, none, refl, some, some-injective,
  subst, true, ◌++◌, ◌+◌, ◌∷◌, ◌≡◌, ◌≤◌, ◌⊎◌,
}
use lumen_ai_support_agent.Prelude.Table.{
  count_where, delete_where, exists, find, select, update_first,
}

module _ {ℓ} {A : Type ℓ} (p : A → Bool) where
  pub find-delete_where : (xs : List A) → find p (delete_where p xs) ≡ none
  find-delete_where [] = refl
  find-delete_where (x ∷ xs) = ground (arith, find-delete_where xs)

  pub delete_where-none : (xs : List A) → find p xs ≡ none → delete_where p xs ≡ xs
  delete_where-none [] h = refl
  delete_where-none (x ∷ xs) h = ground (arith, delete_where-none xs)

  pub count_where-deleted : (xs : List A) → count_where p (delete_where p xs) ≡ 0
  count_where-deleted [] = refl
  count_where-deleted (x ∷ xs) = ground (arith, count_where-deleted xs)

  pub length-delete_where : (xs : List A) → length (delete_where p xs) ≤ length xs
  length-delete_where [] = omega arith
  length-delete_where (x ∷ xs) = ground (arith, length-delete_where xs)

  pub length-deleted :
      (xs : List A) {a : A} → find p xs ≡ some a → length (delete_where p xs) + 1 ≤ length xs
  length-deleted [] h = cc
  length-deleted (x ∷ xs) {a} h = ground (arith, length-delete_where xs, length-deleted xs {a = a})

  pub exists-none : (xs : List A) → find p xs ≡ none → exists p xs ≡ false
  exists-none [] h = refl
  exists-none (x ∷ xs) h = ground (arith, exists-none xs)

  pub exists-last : (xs : List A) (x : A) → p x ≡ true → exists p (xs ++ x ∷ []) ≡ true
  exists-last [] x h = ground arith
  exists-last (y ∷ xs) x h = ground (arith, exists-last xs x)

  pub update_first-last :
      (f : A → A) (xs : List A) (x : A)
      → p x ≡ true
      → update_first p f (delete_where p xs ++ x ∷ []) ≡ delete_where p xs ++ f x ∷ []
  update_first-last f [] x h = ground arith
  update_first-last f (y ∷ xs) x h = ground (arith, update_first-last f xs x h)

-- A row of the table.
abbrev pub Among : {A : Type 0} → A → List A → Type 0
Among r [] = ⊥
Among r (x ∷ xs) = (x ≡ r) ⊎ Among r xs

pub select-Among :
    {A : Type 0} (p : A → Bool) (xs : List A) (r : A)
    → Among r (select p xs)
    → Among r xs × (p r ≡ true)
select-Among p [] r a = absurd a
select-Among p (x ∷ xs) r a = elim (Bool-cases (p x)) [
  | inl y ↦
      let a' : (x ≡ r) ⊎ Among r (select p xs) = rw y at a in
      elim a' [
        | inl e ↦ (inl e, rw (← e) y)
        | inr b ↦ let (c, q) = select-Among p xs r b in (inr c, q)
      ]
  | inr n ↦
      let a' : Among r (select p xs) = rw n at a in
      let (c, q) = select-Among p xs r a' in (inr c, q)
]

module _ {A : Type 0} (p q : A → Bool) (within : (x : A) → q x ≡ true → p x ≡ true) where
  none_below : (ys : List A) → count_where p ys ≡ 0 → find q ys ≡ none
  none_below [] h = refl
  none_below (y ∷ ys) h = elim (Bool-cases (q y)) [
    | inl t ↦ absurd (ground (arith, h, within y t))
    | inr f ↦ elim (Bool-cases (p y)) [
      | inl u ↦ absurd (ground (arith, h, u))
      | inr v ↦ rw f (none_below ys (rw v at h))
    ]
  ]

  pub find-exists_within : (xs : List A) {a : A} → find q xs ≡ some a → exists p xs ≡ true
  find-exists_within [] h = cc
  find-exists_within (x ∷ xs) {a} h = elim (Bool-cases (q x)) [
    | inl y ↦ rw (within x y) refl
    | inr n ↦
        let rest = find-exists_within xs {a = a} (rw n at h) in
        elim (Bool-cases (p x)) [ inl z ↦ rw z refl | inr z ↦ rw z rest ]
  ]

  -- Where at most one row satisfies `p`, a query for less than `p` misses when that row fails it.
  pub find-none_unique :
      (xs : List A) {a : A}
      → count_where p xs ≤ 1
      → find p xs ≡ some a
      → q a ≡ false
      → find q xs ≡ none
  find-none_unique [] u e n = refl
  find-none_unique (x ∷ xs) {a} u e n = elim (Bool-cases (p x)) [
    | inl y ↦
        let it : x ≡ a = some-injective (rw y at e) in
        let m : q x ≡ false = rw it n in rw m (none_below xs (ground (arith, u, y)))
    | inr z ↦ elim (Bool-cases (q x)) [
      | inl t ↦ absurd (ground (arith, z, within x t))
      | inr f ↦ rw f (find-none_unique xs (rw z at u) (rw z at e) n)
    ]
  ]

module _ {ℓ} {A : Type ℓ} (p : A → Bool) where
  pub find-exists : (xs : List A) {a : A} → find p xs ≡ some a → exists p xs ≡ true
  find-exists [] h = cc
  find-exists (x ∷ xs) {a} h = elim (Bool-cases (p x)) [
    | inl y ↦ rw y refl
    | inr n ↦ rw n (find-exists xs {a = a} (rw n at h))
  ]

module _ {ℓ κ} {A : Type ℓ} (P : A → Type κ) where
  pub All-delete_where :
      (Q : A → Type κ) (p : A → Bool) (xs : List A)
      → All P xs
      → ((x : A) → p x ≡ false → P x → Q x)
      → All Q (delete_where p xs)
  All-delete_where Q p [] h k = tt
  All-delete_where Q p (x ∷ xs) h k = elim (Bool-cases (p x)) [
    | inl y ↦ rw y (All-delete_where Q p xs h.1 k)
    | inr n ↦ rw n (k x n h.0, All-delete_where Q p xs h.1 k)
  ]

  pub All-last : (xs : List A) (x : A) → All P xs → P x → All P (xs ++ x ∷ [])
  All-last [] x h p = (p, tt)
  All-last (y ∷ xs) x h p = (h.0, All-last xs x h.1 p)

  pub find-All : (p : A → Bool) (xs : List A) {a : A} → All P xs → find p xs ≡ some a → P a
  find-All p [] h e = cc
  find-All p (x ∷ xs) {a} h e = elim (Bool-cases (p x)) [
    | inl y ↦ let it : x ≡ a = ground arith in subst P it h.0
    | inr n ↦ find-All p xs h.1 (ground arith)
  ]
