-- ===== src/Llm/Distinct.antt =====
-- Duplicate steps in `FallbackResolver` (llm_client/resolvers.py).
use lumen_ai_support_agent.Prelude.{
  All, Bool-cases, List, Option, [], arith, eq_iff, false, inl, inr, refl, ℕ, ◌&&◌, ◌==◌, ◌∷◌, ◌≡◌,
  ◌≢◌, ◌⊎◌,
}
use lumen_ai_support_agent.Prelude.Exec.{err, ok}
use lumen_ai_support_agent.Llm.Resolvers.{
  PinnedResolver, fallback_resolver, has_duplicate, is_seen, value_error,
}

-- Steps with the same provider name and the same model.
abbrev pub SameKey : PinnedResolver → PinnedResolver → Type 0
SameKey a b = (a.provider.name ≡ b.provider.name) × (a.model ≡ b.model)

abbrev NoneSeen : List PinnedResolver → PinnedResolver → Type 0
NoneSeen seen s = All (λ t. ¬ SameKey t s) seen

-- No two of the steps have the same key.
abbrev pub IsDistinct : List PinnedResolver → Type 0
IsDistinct [] = Unit
IsDistinct (s ∷ steps) = All (λ t. ¬ SameKey s t) steps × IsDistinct steps

is_seen-false :
    (s : PinnedResolver) (seen : List PinnedResolver) → is_seen s seen ≡ false → NoneSeen seen s
unfolding is_seen
is_seen-false s [] h = tt
is_seen-false s (t ∷ seen) h = (
  (λ k.
      ground
        (arith, (eq_iff t.provider.name s.provider.name).1 k.0, (eq_iff t.model s.model).1 k.1)),
  is_seen-false s seen (ground arith),
)

is_seen-true :
    (s : PinnedResolver) (seen : List PinnedResolver) → NoneSeen seen s → is_seen s seen ≡ false
unfolding is_seen
is_seen-true s [] h = refl
is_seen-true s (t ∷ seen) h =
    elim (Bool-cases (t.provider.name == s.provider.name && t.model == s.model)) [
      | inl y ↦ absurd (
          h.0 (
            (eq_iff t.provider.name s.provider.name).0 (ground arith),
            (eq_iff t.model s.model).0 (ground arith),
          ))
      | inr n ↦ ground (arith, is_seen-true s seen h.1)
    ]

-- Each of the steps against those seen before.
abbrev NoneOf : List PinnedResolver → List PinnedResolver → Type 0
NoneOf seen steps = All (NoneSeen seen) steps

NoneOf-cons :
    (s : PinnedResolver) (seen steps : List PinnedResolver)
    → NoneOf (s ∷ seen) steps
    → All (λ t. ¬ SameKey s t) steps × NoneOf seen steps
NoneOf-cons s seen [] h = (tt, tt)
NoneOf-cons s seen (x ∷ steps) h =
    let rest = NoneOf-cons s seen steps h.1 in ((h.0.0, rest.0), (h.0.1, rest.1))

cons-NoneOf :
    (s : PinnedResolver) (seen steps : List PinnedResolver)
    → All (λ t. ¬ SameKey s t) steps
    → NoneOf seen steps
    → NoneOf (s ∷ seen) steps
cons-NoneOf s seen [] h k = tt
cons-NoneOf s seen (x ∷ steps) h k = ((h.0, k.0), cons-NoneOf s seen steps h.1 k.1)

has_duplicate-false :
    (seen steps : List PinnedResolver)
    → has_duplicate seen steps ≡ false
    → NoneOf seen steps × IsDistinct steps
unfolding has_duplicate
has_duplicate-false seen [] h = (tt, tt)
has_duplicate-false seen (s ∷ steps) h =
    let (unseen, distinct) = has_duplicate-false (s ∷ seen) steps (ground arith) in
    let (apart, rest) = NoneOf-cons s seen steps unseen in
    ((is_seen-false s seen (ground arith), rest), (apart, distinct))

has_duplicate-true :
    (seen steps : List PinnedResolver)
    → NoneOf seen steps
    → IsDistinct steps
    → has_duplicate seen steps ≡ false
unfolding has_duplicate
has_duplicate-true seen [] h d = refl
has_duplicate-true seen (s ∷ steps) h d = ground (
  arith,
  is_seen-true s seen h.0,
  has_duplicate-true (s ∷ seen) steps (cons-NoneOf s seen steps d.0 h.1) d.1,
)

NoneOf-nil : (steps : List PinnedResolver) → NoneOf [] steps
NoneOf-nil [] = tt
NoneOf-nil (s ∷ steps) = (tt, NoneOf-nil steps)

-- A chain is accepted, with its steps as given, exactly where it is not empty and no two steps
-- have the same provider name and model; otherwise ValueError is raised.
pub fallback_resolver-exact :
    (steps : List PinnedResolver) (timeout : Option ℕ)
    → ((steps ≢ [])
        × IsDistinct steps
        × (fallback_resolver steps timeout ≡ ok (record { steps = steps; timeout = timeout })))
      ⊎ (¬ ((steps ≢ []) × IsDistinct steps) × (fallback_resolver steps timeout ≡ err value_error))
unfolding fallback_resolver
fallback_resolver-exact [] timeout = inr ((λ h. h.0 refl), refl)
fallback_resolver-exact (s ∷ steps) timeout = elim (Bool-cases (has_duplicate [] (s ∷ steps))) [
  | inl y ↦
      inr ((λ h. cc (y, has_duplicate-true [] (s ∷ steps) (NoneOf-nil (s ∷ steps)) h.1)), rw y)
  | inr n ↦ inl ((λ e. cc), (has_duplicate-false [] (s ∷ steps) n).1, rw n)
]
