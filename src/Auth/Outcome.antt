-- ===== src/Auth/Outcome.antt =====
-- auth/service.py: when a login succeeds, and what a refusal leaves.
use lumen_ai_support_agent.Prelude.{
  Bool, List, Option, Option-cases, ap, arith, false, inl, inr, none, none≢some, refl, some,
  some-injective, sym, true, ℕ, ◌∙◌, ◌≡◌, ◌≢◌,
}
use lumen_ai_support_agent.Prelude.Exec.{Result, err, ok}
use lumen_ai_support_agent.Auth.Login.{
  Crypto, LoginError, LoginResponse, User, create_access_token, denied, get_by_email, login,
  role_name, user_info,
}
use lumen_ai_support_agent.Knowledge.Text.{Text}

err≢ok : {X A : Type 0} {a : A} {x : X} → err x ≢ ok a
err≢ok h = absurd (ground (arith, h))

ok-injective : {X A : Type 0} {a b : A} → ◌≡◌ {A = Result X A} (ok a) (ok b) → a ≡ b
ok-injective {a = a} h = ap (λ r. elim r [ err x ↦ a | ok b ↦ b ]) h

denied-none :
    (active : Bool) (verified : Option Bool)
    → denied active verified ≡ none
    → (active ≡ true) × (verified ≡ some true)
unfolding denied
denied-none false verified h = absurd (none≢some (sym h))
denied-none true none h = absurd (none≢some (sym h))
denied-none true (some false) h = absurd (none≢some (sym h))
denied-none true (some true) h = (refl, refl)

denied_lem : denied true (some true) ≡ none
unfolding denied
denied_lem = refl

module _ (crypto : Crypto) where
  pub login-cases :
      (ttl now : ℕ) (fails : Bool) (tenant_id email password : Text) (users : List User)
      (r : LoginResponse)
      → (login crypto ttl now fails tenant_id email password users).0 ≡ ok r
      → (user : User) × (get_by_email tenant_id email users ≡ some user)
        × (user.is_active ≡ true)
        × (crypto.verify_password password user.password_hash ≡ some true)
        × (r.access_token
            ≡ create_access_token crypto ttl now tenant_id user.id (role_name user.role))
        × (r.user ≡ user_info user)
  unfolding login
  login-cases ttl now fails tenant_id email password users r h =
      elim (Option-cases (get_by_email tenant_id email users)) [
        | inl n ↦ absurd (err≢ok (rw (n, login) at h))
        | inr (user, found) ↦
            elim (Option-cases
              (denied user.is_active (crypto.verify_password password user.password_hash))) [
                | inr (e, n) ↦ absurd (err≢ok (rw (found, login, n) at h))
                | inl y ↦
                    let (alive, verified) = denied-none _ _ y in
                    let same = ok-injective (rw (found, login, y) at h) in
                    (
                      user,
                      found,
                      alive,
                      verified,
                      sym (ap (λ (x : LoginResponse). x.access_token) same),
                      sym (ap (λ (x : LoginResponse). x.user) same),
                    )
              ]
      ]

  pub login_finds :
      (ttl now : ℕ) (fails : Bool) (tenant_id email password : Text) (users : List User)
      (r : LoginResponse)
      → (login crypto ttl now fails tenant_id email password users).0 ≡ ok r
      → (user : User) × (get_by_email tenant_id email users ≡ some user)
        × (user.is_active ≡ true)
        × (crypto.verify_password password user.password_hash ≡ some true)
  login_finds ttl now fails tenant_id email password users r h =
      let (user, found, alive, verified, token, same) =
        login-cases ttl now fails tenant_id email password users r h in
      (user, found, alive, verified)

  -- A login that raises leaves the users as they are, and no user that the lookup finds is active
  -- with a hash that verifies the password.
  pub login_refused :
      (ttl now : ℕ) (fails : Bool) (tenant_id email password : Text) (users : List User)
      {e : LoginError}
      → (login crypto ttl now fails tenant_id email password users).0 ≡ err e
      → ((login crypto ttl now fails tenant_id email password users).1 ≡ users)
        × ((user : User)
            → get_by_email tenant_id email users ≡ some user
            → user.is_active ≡ true
            → crypto.verify_password password user.password_hash ≢ some true)
  unfolding login
  login_refused ttl now fails tenant_id email password users h =
      elim (Option-cases (get_by_email tenant_id email users)) [
        | inl n ↦ (rw (n, login) refl, λ user found. absurd (none≢some (sym n ∙ found)))
        | inr (user, found) ↦
            elim (Option-cases
              (denied user.is_active (crypto.verify_password password user.password_hash))) [
                | inl y ↦ absurd (err≢ok (sym (rw (found, login, y) at h)))
                | inr (e', n) ↦ (
                  rw (found, login, n) refl,
                  λ other met alive verified.
                      let same : user ≡ other = some-injective (sym found ∙ met) in
                      let passes : denied other.is_active
                            (crypto.verify_password password other.password_hash)
                          ≡ none =
                        rw (alive, verified) (denied_lem) in
                      none≢some (sym passes ∙ (rw same at n)),
                )
              ]
      ]
