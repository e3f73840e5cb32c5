-- ===== src/Auth/Again.antt =====
-- auth/service.py: a login after a login.
use lumen_ai_support_agent.Auth.Outcome.{login_finds, login_refused}
use lumen_ai_support_agent.Knowledge.Chunker.Blocks.{text_eq}
use lumen_ai_support_agent.Prelude.{
  Bool, Bool-cases, List, inl, inr, not, refl, some, some-injective, sym, true, ℕ, ◌&&◌, ◌∙◌, ◌≡◌,
}
use lumen_ai_support_agent.Prelude.Exec.{Result-cases, ok}
use lumen_ai_support_agent.Prelude.Table.Laws.{find-update_first}
use lumen_ai_support_agent.Auth.Login.{
  Crypto, IsCrypto, denied, LoginResponse, User, get_by_email, is_named, login, rehash, set_hash,
  update_password_hash,
}
use lumen_ai_support_agent.Knowledge.Text.{Text}

module _ (crypto : Crypto) (lawful : IsCrypto crypto) (ttl : ℕ)
    (tenant_id email password : Text) where
  -- The lookup finds an active user whose stored hash verifies the password.
  abbrev IsWelcome : List User → Type 0
  IsWelcome users =
      (user : User) × (get_by_email tenant_id email users ≡ some user)
      × (user.is_active ≡ true)
      × (crypto.verify_password password user.password_hash ≡ some true)

  rehash-IsWelcome :
      (fails : Bool) (user : User) (users : List User)
      → get_by_email tenant_id email users ≡ some user
      → user.is_active ≡ true
      → crypto.verify_password password user.password_hash ≡ some true
      → IsWelcome (rehash crypto ttl fails password user users)
  unfolding rehash update_password_hash get_by_email is_named set_hash
  rehash-IsWelcome fails user users found alive verified =
      elim (Bool-cases (crypto.needs_rehash user.password_hash && not fails)) [
        | inr n ↦ rw n (user, found, alive, verified)
        | inl y ↦
            elim (find-update_first (is_named tenant_id email) (λ other. text_eq other.id user.id)
              (set_hash (crypto.hash_password password)) users (λ other. refl)) [
                | inl e ↦ rw y (user, e ∙ found, alive, verified)
                | inr (a, e, e', e'') ↦ rw y (
                  set_hash (crypto.hash_password password) a,
                  e'',
                  rw (sym (some-injective (sym found ∙ e))) alive,
                  lawful.verifies password,
                )
              ]
      ]

  IsWelcome-login :
      (now : ℕ) (fails : Bool) (users : List User)
      → IsWelcome users
      → (r : LoginResponse) × ((login crypto ttl now fails tenant_id email password users).0 ≡ ok r)
  IsWelcome-login now fails users (user, found, alive, verified) =
      elim (Result-cases (login crypto ttl now fails tenant_id email password users).0) [
        | inl (e, h) ↦
            let no =
              (login_refused crypto ttl now fails tenant_id email password users h).1 user found
                alive in
            absurd (no verified)
        | inr (r, h) ↦ (r, h)
      ]

  login-users :
      (now : ℕ) (fails : Bool) (users : List User) (user : User)
      → get_by_email tenant_id email users ≡ some user
      → user.is_active ≡ true
      → crypto.verify_password password user.password_hash ≡ some true
      → (login crypto ttl now fails tenant_id email password users).1
        ≡ rehash crypto ttl fails password user users
  unfolding login rehash denied
  login-users now fails users user found alive verified = rw (found, login, alive, verified) refl

  -- After a login that succeeds, with or without the upgrade of the hash, a login with the same
  -- credentials succeeds at any time.
  pub login_again :
      (now later : ℕ) (fails fails' : Bool) (users : List User) (r : LoginResponse)
      → (login crypto ttl now fails tenant_id email password users).0 ≡ ok r
      → (r' : LoginResponse) × ((login crypto ttl later fails' tenant_id email password
            (login crypto ttl now fails tenant_id email password users).1).0
          ≡ ok r')
  login_again now later fails fails' users r h =
      let (user, found, alive, verified) =
        login_finds crypto ttl now fails tenant_id email password users r h in
      IsWelcome-login later fails' _ (
        rw (login-users now fails users user found alive verified)
          (rehash-IsWelcome fails user users found alive verified))
