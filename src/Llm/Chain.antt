-- ===== src/Llm/Chain.antt =====
-- The runtime chain, from the administrator's replacement to the gateway that is built from it.
use lumen_ai_support_agent.Llm.Distinct.{IsDistinct, SameKey, fallback_resolver-exact}
use lumen_ai_support_agent.Prelude.Table.Laws.{select-append}
use lumen_ai_support_agent.Llm.Gateway.{gateway, registered_steps}
use lumen_ai_support_agent.Llm.Types.{Provider}
use lumen_ai_support_agent.Prelude.Table.{exists, select}
use mathlib.Core.List.{map-append}
use lumen_ai_support_agent.Prelude.{
  All, Bool, Bool-cases, List, Option, String, [], ap, arith, inl, inr, map, refl, some, subst, sym,
  true, ℕ, ◌++◌, ◌∙◌, ◌∷◌, ◌≡◌, ◌≢◌, ◌⊎◌,
}
use lumen_ai_support_agent.Prelude.Exec.{Result, err, ok}
use lumen_ai_support_agent.Llm.Resolvers.{
  ConfigError, PinnedResolver, Providers, fallback_resolver, get_provider, value_error,
}
use lumen_ai_support_agent.Llm.RuntimeChain.{
  ChainStep, RuntimeChain, active_chain, as_tuple, clean_steps, is_known, replace_steps,
}

abbrev pub AllKnown : List String → List ChainStep → Type 0
AllKnown known = All (λ s. is_known known s.provider ≡ true)

clean_steps_exact :
    (known : List String) (steps : List ChainStep)
    → (AllKnown known steps × (clean_steps known steps ≡ ok steps))
      ⊎ (¬ AllKnown known steps × (clean_steps known steps ≡ err value_error))
unfolding clean_steps
clean_steps_exact known [] = inl (tt, refl)
clean_steps_exact known (s ∷ steps) = elim (Bool-cases (is_known known s.provider)) [
  | inr n ↦ inr ((λ h. cc (n, h.0)), rw n)
  | inl y ↦ elim (clean_steps_exact known steps) [
    | inl (all, e) ↦ inl ((y, all), ground arith)
    | inr (some_unknown, e) ↦ inr ((λ h. some_unknown h.1), ground arith)
  ]
]

select_enabled :
    (steps : List ChainStep)
    → exists (λ s. s.enabled) steps ≡ true
    → map as_tuple (select (λ s. s.enabled) steps) ≢ []
select_enabled [] h = cc
select_enabled (s ∷ steps) h = elim (Bool-cases s.enabled) [
  | inl y ↦ rw y (λ e. cc)
  | inr n ↦ rw n (select_enabled steps (ground arith))
]

module _ (steps : List ChainStep) (known : List String) (chain : RuntimeChain) where
  -- The replacement is all or nothing. Where every provider is known and some step is enabled, the
  -- steps are stored as given, and the gateways to come have an active chain that is not empty;
  -- otherwise ValueError is raised and the chain stays as it was.
  pub replace_steps-exact :
      (AllKnown known steps
        × (exists (λ s. s.enabled) steps ≡ true)
        × (replace_steps steps known chain ≡ (ok tt, record { steps = steps }))
        × (active_chain (replace_steps steps known chain).1 ≢ []))
      ⊎ (¬ (AllKnown known steps × (exists (λ s. s.enabled) steps ≡ true))
          × (replace_steps steps known chain ≡ (err value_error, chain)))
  unfolding replace_steps
  replace_steps-exact = elim (clean_steps_exact known steps) [
    | inr (n, e) ↦ inr ((λ h. n h.0), rw e)
    | inl (all, e) ↦ elim (Bool-cases (exists (λ s. s.enabled) steps)) [
      | inl y ↦
          let stored : replace_steps steps known chain ≡ (ok tt, record { steps = steps }) =
            rw (e, y) in
          inl (
            all,
            y,
            stored,
            subst (λ (r : Result ConfigError (Unit {0}) × RuntimeChain). active_chain r.1 ≢ [])
                (sym stored) (unfold active_chain in select_enabled steps y),
          )
      | inr n ↦ inr ((λ h. cc (h.1, n)), rw (e, n))
    ]
  ]

registered_steps-append :
    (providers : Providers) (xs ys : List (String × String))
    → registered_steps providers (xs ++ ys)
      ≡ registered_steps providers xs ++ registered_steps providers ys
unfolding registered_steps
registered_steps-append providers [] ys = refl
registered_steps-append providers ((name, model) ∷ xs) ys =
    ground (arith, registered_steps-append providers xs ys)

-- The pinned steps that a gateway makes of the enabled steps.
abbrev pinned : Providers → List ChainStep → List PinnedResolver
pinned providers steps = registered_steps providers (map as_tuple (select (λ s. s.enabled) steps))

pinned-append :
    (providers : Providers) (xs ys : List ChainStep)
    → pinned providers (xs ++ ys) ≡ pinned providers xs ++ pinned providers ys
pinned-append providers xs ys =
    rw select-append (rw map-append (registered_steps-append providers _ _))

pinned-cons :
    (providers : Providers) (s : ChainStep) (ys : List ChainStep) {p : Provider}
    → s.enabled ≡ true
    → get_provider s.provider providers ≡ some p
    → pinned providers (s ∷ ys) ≡ record { provider = p; model = s.model } ∷ pinned providers ys
unfolding registered_steps
pinned-cons providers s ys on has = rw on (rw (has, registered_steps))

-- A step that comes twice.
not_apart :
    (d : PinnedResolver) (ys zs : List PinnedResolver) → ¬ All (λ t. ¬ SameKey d t) (ys ++ d ∷ zs)
not_apart d [] zs h = h.0 (refl, refl)
not_apart d (y ∷ ys) zs h = not_apart d ys zs h.1

not-IsDistinct :
    (d : PinnedResolver) (xs ys zs : List PinnedResolver) → ¬ IsDistinct (xs ++ d ∷ (ys ++ d ∷ zs))
not-IsDistinct d [] ys zs h = not_apart d ys zs h.0
not-IsDistinct d (x ∷ xs) ys zs h = not-IsDistinct d xs ys zs h.1

exists_middle {ℓ} :
    {A : Type ℓ} (p : A → Bool) (xs ys : List A) (x : A)
    → p x ≡ true
    → exists p (xs ++ x ∷ ys) ≡ true
exists_middle p [] ys x h = ground arith
exists_middle p (y ∷ xs) ys x h = ground (arith, exists_middle p xs ys x)

refused_twice :
    (before between after : List ChainStep) (s : ChainStep) (providers : Providers)
    (timeout : Option ℕ) {p : Provider}
    → s.enabled ≡ true
    → get_provider s.provider providers ≡ some p
    → fallback_resolver
        (registered_steps providers
          (active_chain (record { steps = before ++ s ∷ (between ++ s ∷ after) })))
        timeout
      ≡ err value_error
unfolding active_chain
refused_twice before between after s providers timeout {p} on has =
    let d : PinnedResolver = record { provider = p; model = s.model } in
    let shape : pinned providers (before ++ s ∷ (between ++ s ∷ after))
        ≡ pinned providers before ++ d ∷ (pinned providers between ++ d ∷ pinned providers after) =
      pinned-append providers before (s ∷ (between ++ s ∷ after))
      ∙ ap (λ l. pinned providers before ++ l)
          (pinned-cons providers s (between ++ s ∷ after) on has
            ∙ ap (λ l. d ∷ l)
                (pinned-append providers between (s ∷ after)
                  ∙ ap (λ l. pinned providers between ++ l)
                      (pinned-cons providers s after on has))) in
    let twice =
      pinned providers before ++ d ∷ (pinned providers between ++ d ∷ pinned providers after) in
    rw shape (elim (fallback_resolver-exact twice timeout) [
      | inl (_, distinct, _) ↦ absurd (
          not-IsDistinct d (pinned providers before) (pinned providers between)
            (pinned providers after) distinct)
      | inr (_, e) ↦ e
    ])

provider-cons :
    (name : String) (providers : Providers) {p : Provider}
    → get_provider name providers ≡ some p
    → providers ≢ []
unfolding get_provider
provider-cons name [] h = cc
provider-cons name (x ∷ ps) h = λ e. cc

gateway_refused :
    (providers : Providers) (default_name : Option String) (chain : List (String × String))
    (timeout : Option ℕ)
    → providers ≢ []
    → chain ≢ []
    → fallback_resolver (registered_steps providers chain) timeout ≡ err value_error
    → gateway providers default_name chain timeout ≡ err value_error
unfolding gateway
gateway_refused [] default_name chain timeout h k e = absurd (h refl)
gateway_refused ((n, p) ∷ ps) default_name [] timeout h k e = absurd (k refl)
gateway_refused ((n, p) ∷ ps) default_name (c ∷ cs) timeout h k e = rw e

-- Where every provider is known, two enabled steps with one provider and one model are let through
-- by the replacement, and then no gateway with that provider can be built: its constructor raises
-- ValueError.
pub replace_steps_duplicates :
    (before between after : List ChainStep) (s : ChainStep) (known : List String)
    (chain : RuntimeChain) (providers : Providers) (default_name : Option String)
    (timeout : Option ℕ) {p : Provider}
    → AllKnown known (before ++ s ∷ (between ++ s ∷ after))
    → s.enabled ≡ true
    → get_provider s.provider providers ≡ some p
    → let (r, chain') = replace_steps (before ++ s ∷ (between ++ s ∷ after)) known chain in
      (r ≡ ok tt) × (gateway providers default_name (active_chain chain') timeout ≡ err value_error)
replace_steps_duplicates before between after s known chain providers default_name timeout all on
      has =
    let steps = before ++ s ∷ (between ++ s ∷ after) in
    let enabled : exists (λ x. x.enabled) steps ≡ true =
      exists_middle (λ x. x.enabled) before (between ++ s ∷ after) s on in
    elim (replace_steps-exact steps known chain) [
      | inr (refused, _) ↦ absurd (refused (all, enabled))
      | inl (_, _, stored, active) ↦ (
        ap (λ (r : Result ConfigError (Unit {0}) × RuntimeChain). r.0) stored,
        gateway_refused providers default_name (active_chain (replace_steps steps known chain).1)
            timeout (provider-cons s.provider providers has) active
            (rw stored (refused_twice before between after s providers timeout on has)),
      )
    ]
