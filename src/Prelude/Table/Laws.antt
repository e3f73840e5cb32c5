-- ===== src/Prelude/Table/Laws.antt =====
-- Laws of the table queries: what a write, an insertion or a deletion does to a later query.
use lumen_ai_support_agent.Prelude.{
  All, Bool, Bool-cases, List, [], arith, false, inl, inr, none, refl, some, true, ◌++◌, ◌+◌, ◌∷◌,
  ◌≡◌, ◌≤◌, ◌⊎◌,
}
use lumen_ai_support_agent.Prelude.Table.{
  count_where, delete_where, exists, find, select, update_first, update_where,
}

module _ {ℓ} {A : Type ℓ} where
  pub find-append_some :
      (p : A → Bool) (xs ys : List A) {a : A} → find p xs ≡ some a → find p (xs ++ ys) ≡ some a
  find-append_some p [] ys h = cc
  find-append_some p (x ∷ xs) ys {a} h = ground (arith, find-append_some p xs ys {a = a})

  pub find-append_none :
      (p : A → Bool) (xs ys : List A) → find p xs ≡ none → find p (xs ++ ys) ≡ find p ys
  find-append_none p [] ys h = refl
  find-append_none p (x ∷ xs) ys h = ground (arith, find-append_none p xs ys)

  pub find-append_skip :
      (p : A → Bool) (xs : List A) (x : A) → p x ≡ false → find p (xs ++ x ∷ []) ≡ find p xs
  find-append_skip p [] x h = ground arith
  find-append_skip p (y ∷ xs) x h = ground (arith, find-append_skip p xs x)

  pub select-append :
      (p : A → Bool) (xs ys : List A) → select p (xs ++ ys) ≡ select p xs ++ select p ys
  select-append p [] ys = refl
  select-append p (x ∷ xs) ys = ground (arith, select-append p xs ys)

  pub count_where-append :
      (p : A → Bool) (xs ys : List A)
      → count_where p (xs ++ ys) ≡ count_where p xs + count_where p ys
  count_where-append p [] ys = omega arith
  count_where-append p (x ∷ xs) ys = ground (arith, count_where-append p xs ys)

  pub exists_false : (p : A → Bool) (xs : List A) → exists p xs ≡ false → count_where p xs ≡ 0
  exists_false p [] h = refl
  exists_false p (x ∷ xs) h = ground (arith, exists_false p xs)

  pub find_sound : (p : A → Bool) (xs : List A) {a : A} → find p xs ≡ some a → p a ≡ true
  find_sound p [] h = cc
  find_sound p (x ∷ xs) {a} h = ground (arith, find_sound p xs {a = a})

  pub find_count : (p : A → Bool) (xs : List A) {a : A} → find p xs ≡ some a → 1 ≤ count_where p xs
  find_count p [] h = cc
  find_count p (x ∷ xs) {a} h = ground (arith, find_count p xs {a = a})

  pub find-none_of_count : (p : A → Bool) (xs : List A) → count_where p xs ≡ 0 → find p xs ≡ none
  find-none_of_count p [] h = refl
  find-none_of_count p (x ∷ xs) h = ground (arith, find-none_of_count p xs)

  pub count_where_mono :
      (r p : A → Bool) (xs : List A)
      → ((x : A) → r x ≡ true → p x ≡ true)
      → count_where r xs ≤ count_where p xs
  count_where_mono r p [] h = omega arith
  count_where_mono r p (x ∷ xs) h = ground (arith, h x, count_where_mono r p xs h)

  -- A write either misses the row that a query finds, or the two find the same row.
  pub find-update_first :
      (q p : A → Bool) (f : A → A) (xs : List A)
      → ((x : A) → q (f x) ≡ q x)
      → (find q (update_first p f xs) ≡ find q xs)
        ⊎ ((a : A) × (find q xs ≡ some a)
            × (find p xs ≡ some a)
            × (find q (update_first p f xs) ≡ some (f a)))
  find-update_first q p f [] h = inl refl
  find-update_first q p f (x ∷ xs) h = elim (Bool-cases (p x)) [
    | inl px ↦ elim (Bool-cases (q x)) [
      | inl qx ↦ inr (x, ground arith, ground arith, ground (arith, h x))
      | inr qx ↦ inl (ground (arith, h x))
    ]
    | inr px ↦ elim (Bool-cases (q x)) [
      | inl qx ↦ inl (ground arith)
      | inr qx ↦ elim (find-update_first q p f xs h) [
        | inl e ↦ inl (ground arith)
        | inr (a, e, e', e'') ↦ inr (a, ground arith, ground arith, ground arith)
      ]
    ]
  ]

  pub find-update_first_self :
      (p : A → Bool) (f : A → A) (xs : List A) {a : A}
      → p (f a) ≡ true
      → find p xs ≡ some a
      → find p (update_first p f xs) ≡ some (f a)
  find-update_first_self p f [] h e = cc
  find-update_first_self p f (x ∷ xs) {a} h e =
      ground (arith, find-update_first_self p f xs {a = a} h)

  pub select-update_first :
      (q p : A → Bool) (f : A → A) (xs : List A) {a : A}
      → find p xs ≡ some a
      → q a ≡ false
      → q (f a) ≡ false
      → select q (update_first p f xs) ≡ select q xs
  select-update_first q p f [] e h h' = cc
  select-update_first q p f (x ∷ xs) {a} e h h' =
      ground (arith, select-update_first q p f xs {a = a})

  pub count_where-update_first :
      (q p : A → Bool) (f : A → A) (xs : List A)
      → ((x : A) → q (f x) ≡ q x)
      → count_where q (update_first p f xs) ≡ count_where q xs
  count_where-update_first q p f [] h = refl
  count_where-update_first q p f (x ∷ xs) h =
      ground (arith, h x, count_where-update_first q p f xs h)

  pub select-update_where :
      (q p : A → Bool) (f : A → A) (xs : List A)
      → ((x : A) → p x ≡ true → q x ≡ false)
      → ((x : A) → q (f x) ≡ q x)
      → select q (update_where p f xs) ≡ select q xs
  select-update_where q p f [] h k = refl
  select-update_where q p f (x ∷ xs) h k =
      ground (arith, h x, k x, select-update_where q p f xs h k)

  pub delete_where_none :
      (p : A → Bool) (xs : List A) → count_where p xs ≡ 0 → delete_where p xs ≡ xs
  delete_where_none p [] h = refl
  delete_where_none p (x ∷ xs) h = ground (arith, delete_where_none p xs)

  pub count_where-delete_where :
      (q p : A → Bool) (xs : List A) → count_where q (delete_where p xs) ≤ count_where q xs
  count_where-delete_where q p [] = omega arith
  count_where-delete_where q p (x ∷ xs) = ground (arith, count_where-delete_where q p xs)

  -- Where `p` holds of one row at most, deleting by `p` takes away the row that was found.
  pub select-delete_where :
      (q p r : A → Bool) (xs : List A) {a : A}
      → count_where p xs ≤ 1
      → ((x : A) → r x ≡ true → p x ≡ true)
      → find r xs ≡ some a
      → q a ≡ false
      → select q (delete_where p xs) ≡ select q xs
  select-delete_where q p r [] c h e n = cc
  select-delete_where q p r (x ∷ xs) {a} c h e n = elim (Bool-cases (p x)) [
    | inl px ↦ elim (Bool-cases (r x)) [
      | inl rx ↦ ground (arith, delete_where_none p xs)
      | inr rx ↦ ground (arith, count_where_mono r p xs h, find_count r xs {a = a})
    ]
    | inr px ↦ ground (arith, h x, select-delete_where q p r xs {a = a} (ground arith) h)
  ]

-- A property of every row, through a write.
module _ {ℓ κ} {A : Type ℓ} {P : A → Type κ} where
  pub All-update_first :
      (p : A → Bool) (f : A → A) (xs : List A)
      → All P xs
      → ((x : A) → find p xs ≡ some x → P x → P (f x))
      → All P (update_first p f xs)
  All-update_first p f [] h k = tt
  All-update_first p f (x ∷ xs) h k = elim (Bool-cases (p x)) [
    | inl y ↦ rw y (k x (ground arith) h.0, h.1)
    | inr n ↦ rw n (h.0, All-update_first p f xs h.1 (λ a e. k a (ground arith)))
  ]
