-- ===== src/Auth/Window.antt =====
-- How many lookups of auth/rate_limit.py get through in one window.
use lumen_ai_support_agent.Prelude.{
  All, Bool-cases, List, Option-cases, [], arith, false, inl, inr, none, refl, some, subst, suc,
  sym, true, ℕ, ◌+◌, ◌-◌, ◌<◌, ◌∙◌, ◌∷◌, ◌≡◌, ◌≢◌, ◌≤◌,
}
use lumen_ai_support_agent.Knowledge.Text.{Text}
use lumen_ai_support_agent.Knowledge.Chunker.Blocks.{text_eq}
use lumen_ai_support_agent.Auth.ClientIp.{HttpRequest, client_ip, kept}
use lumen_ai_support_agent.Auth.RateLimit.{
  IsCounter, Redis, allowed, check_tenant_lookup_rate_limit, decide, failed, max_hits_per_window,
  rate_key,
}

pub text_eq_sound : (s t : Text) → text_eq s t ≡ true → s ≡ t
unfolding text_eq
text_eq_sound [] [] h = refl
text_eq_sound [] (d ∷ t) h = absurd (ground (arith, h))
text_eq_sound (c ∷ s) [] h = absurd (ground (arith, h))
text_eq_sound (c ∷ s) (d ∷ t) h =
    let e : c ≡ d = ground (arith, h) in
    let e' : text_eq s t ≡ true = ground (arith, h) in rw (e, text_eq_sound s t e') refl

pub text_eq_refl : (s : Text) → text_eq s s ≡ true
unfolding text_eq
text_eq_refl [] = refl
text_eq_refl (c ∷ s) = ground (arith, text_eq_refl s)

text_eq_apart : (s t : Text) → text_eq s t ≡ false → t ≢ s
text_eq_apart s t h e = let y : text_eq s t ≡ true = rw e (text_eq_refl s) in ground (arith, h, y)

module _ {S : Type 0} (redis : Redis S) (counter : IsCounter redis) (hops : ℕ) (k : Text) where
  -- The key has at least `c` hits until its expiry at `end`.
  abbrev HasHits : ℕ → ℕ → S → Type 0
  HasHits c end s = (redis.ends k s ≡ end) × ((t : ℕ) → t < end → c ≤ redis.live t k s)

  hit :
      (c end now : ℕ) (s : S) (n : ℕ)
      → 1 ≤ c
      → now < end
      → HasHits c end s
      → (redis.execute now k s).0 ≡ some n
      → (suc c ≤ n) × HasHits n end (redis.execute now k s).1
  hit c end now s n p b (e, low) h =
      let count = counter.counts now k s n h in
      let live = low now b in
      let end' = counter.runs_on now k s n h (omega (arith, live, p)) (omega (arith, e, b)) ∙ e in
      (
        omega (arith, count, live),
        (
          end',
          λ t q. let l = counter.stays now t k s n h (omega (arith, end', q)) in omega (arith, l),
        ),
      )

  miss :
      (c end now : ℕ) (s : S)
      → 1 ≤ c
      → now < end
      → HasHits c end s
      → (redis.execute now k s).0 ≡ none
      → HasHits c end (redis.execute now k s).1
  miss c end now s p b (e, low) h =
      let live = low now b in
      (
        counter.raises_ends now k s h (omega (arith, live, p)) (omega (arith, e, b)) ∙ e,
        λ t q. let l = counter.raises now t k s h in let m = low t q in omega (arith, l, m),
      )

  other :
      (c end now : ℕ) (key : Text) (s : S)
      → k ≢ key
      → HasHits c end s
      → HasHits c end (redis.execute now key s).1
  other c end now key s n (e, low) = (
    (counter.apart now now k key s n).1 ∙ e,
    λ t q. let l = (counter.apart now t k key s n).0 in let m = low t q in omega (arith, l, m),
  )

  allowed-rest :
      (hits : List (ℕ × HttpRequest)) (c end : ℕ) (s : S)
      → 1 ≤ c
      → HasHits c end s
      → All (λ h. h.0 < end) hits
      → allowed redis hops k hits s ≤ (max_hits_per_window - c) + failed redis hops k hits s
  unfolding allowed failed check_tenant_lookup_rate_limit decide
  allowed-rest [] c end s p h b = omega arith
  allowed-rest ((now, request) ∷ later) c end s p h (b, bs) =
      let key = rate_key (client_ip hops request) in
      elim (Bool-cases (text_eq key k)) [
        | inr n ↦
            let ih =
              allowed-rest later c end (redis.execute now key s).1 p
                (other c end now key s (text_eq_apart key k n) h) bs in
            rw n ih
        | inl y ↦
            let same = text_eq_sound key k y in
            elim (Option-cases (redis.execute now key s).0) [
              | inl n ↦
                  let kept =
                    subst
                      (λ j.
                        (redis.execute now j s).0 ≡ none → HasHits c end (redis.execute now j s).1)
                      (sym same) (miss c end now s p b h) n in
                  let ih = allowed-rest later c end (redis.execute now key s).1 p kept bs in
                  rw (y, n) (omega arith)
              | inr (m, g) ↦
                  let (more, kept) =
                    subst
                      (λ j.
                        (redis.execute now j s).0 ≡ some m
                        → (suc c ≤ m) × HasHits m end (redis.execute now j s).1)
                      (sym same) (hit c end now s m p b h) g in
                  let ih =
                    allowed-rest later m end (redis.execute now key s).1 (omega arith) kept bs in
                  rw (y, g) (ground arith)
            ]
      ]

  -- The check that opens a window of 60 seconds for its key (no hit is live, and Redis answers it),
  -- and any sequence of checks in that window, from any callers: those of that key that are
  -- allowed are at most 30, and one more for each time that Redis raises for the key.
  pub allowed-window :
      (start : ℕ) (request : HttpRequest) (later : List (ℕ × HttpRequest)) (s : S) (n : ℕ)
      → k ≡ rate_key (client_ip hops request)
      → redis.live start k s ≡ 0
      → (redis.execute start k s).0 ≡ some n
      → All (λ h. h.0 < start + 60) later
      → allowed redis hops k ((start, request) ∷ later) s
        ≤ max_hits_per_window + failed redis hops k ((start, request) ∷ later) s
  unfolding allowed failed check_tenant_lookup_rate_limit decide
  allowed-window start request later s n same fresh answered inside =
      let one = counter.counts start k s n answered in
      let end = counter.opens start k s n answered fresh in
      let low : (t : ℕ) → t < start + 60 → n ≤ redis.live t k (redis.execute start k s).1 = (λ t q.
        let l = counter.stays start t k s n answered (omega (arith, end, q)) in omega (arith, l)) in
      let rest =
        allowed-rest later n (start + 60) (redis.execute start k s).1 (omega arith) (end, low)
          inside in
      rw (sym same, text_eq_refl k, answered) (ground (arith, rest, one, fresh))
