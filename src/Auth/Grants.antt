-- ===== src/Auth/Grants.antt =====
-- auth: what a login's token opens.
use lumen_ai_support_agent.Prelude.{
  Bool, List, Option, [], arith, false, nat_eq, refl, some, true, ℕ, ◌*◌, ◌++◌, ◌+◌, ◌<◌, ◌∷◌, ◌≡◌,
}
use lumen_ai_support_agent.Prelude.Exec.{Result, err, ok}
use lumen_ai_support_agent.Auth.Outcome.{login-cases}
use lumen_ai_support_agent.Auth.Login.{
  Claims, Crypto, HttpError, IsCrypto, LoginResponse, User, after_prefix, bearer, check_admin,
  check_agent_or_admin, create_access_token, decode_jwt, enter, forbidden, get_by_email, has_sub,
  is_nonempty, is_one_of, login, payload, require_admin, require_agent_or_admin, role_in, role_name,
  user_info,
}
use lumen_ai_support_agent.Assignment.{UserRole, admin, agent, supervisor, viewer}
use lumen_ai_support_agent.Knowledge.Text.{Text}
use lumen_ai_support_agent.Knowledge.Chunker.Blocks.{text_eq}

after_prefix-append : (s t : Text) → after_prefix s (s ++ t) ≡ some t
unfolding after_prefix
after_prefix-append [] t = refl
after_prefix-append (c ∷ s) t =
    let e : nat_eq c c ≡ true = ground arith in rw e (after_prefix-append s t)

-- What a role opens, written by roles.
abbrev pub is_admin : UserRole → Bool
is_admin admin = true
is_admin supervisor = false
is_admin agent = false
is_admin viewer = false

abbrev pub is_agent_or_admin : UserRole → Bool
is_agent_or_admin admin = true
is_agent_or_admin supervisor = false
is_agent_or_admin agent = true
is_agent_or_admin viewer = false

-- A gate lets the claims in and sets the tenant, or answers 403 and leaves it.
abbrev pub gated : Bool → Claims → Text → Option Text → Result HttpError Claims × Option Text
gated true claims tenant_id context = (ok claims, some tenant_id)
gated false claims tenant_id context = (err forbidden, context)

module _ (crypto : Crypto) (ttl now : ℕ) (tenant_id user_id : Text) (context : Option Text) where
  check_admin-role :
      (role : UserRole)
      → check_admin (payload crypto ttl now tenant_id user_id (role_name role)) context
        ≡ gated
            (is_admin role)
            (payload crypto ttl now tenant_id user_id (role_name role))
            tenant_id
            context
  unfolding check_admin payload enter role_in is_one_of role_name text_eq
  check_admin-role admin = refl
  check_admin-role supervisor = refl
  check_admin-role agent = refl
  check_admin-role viewer = refl

  check_agent_or_admin-role :
      (role : UserRole)
      → is_nonempty user_id ≡ true
      → check_agent_or_admin (payload crypto ttl now tenant_id user_id (role_name role)) context
        ≡ gated
            (is_agent_or_admin role)
            (payload crypto ttl now tenant_id user_id (role_name role))
            tenant_id
            context
  unfolding check_agent_or_admin payload enter role_in is_one_of role_name text_eq has_sub
  check_agent_or_admin-role admin h = rw h refl
  check_agent_or_admin-role supervisor h = refl
  check_agent_or_admin-role agent h = rw h refl
  check_agent_or_admin-role viewer h = refl

-- What a login gives: a user of the tenant and email who is active and whose stored hash verifies the
-- password, and what the two gates make of the token.
abbrev pub IsGranted :
    Crypto → ℕ → ℕ → ℕ → Text → Text → Text → List User → LoginResponse → Option Text → Type 0
IsGranted crypto ttl now at tenant_id email password users r context =
    (user : User) × (get_by_email tenant_id email users ≡ some user)
    × (user.is_active ≡ true)
    × (crypto.verify_password password user.password_hash ≡ some true)
    × (r.user ≡ user_info user)
    × (require_admin crypto at (some (bearer ++ r.access_token)) context
        ≡ gated (is_admin user.role)
            (payload crypto ttl now tenant_id user.id (role_name user.role)) tenant_id context)
    × (require_agent_or_admin crypto at (some (bearer ++ r.access_token)) context
        ≡ gated (is_agent_or_admin user.role)
            (payload crypto ttl now tenant_id user.id (role_name user.role)) tenant_id context)

module _ (crypto : Crypto) (lawful : IsCrypto crypto) where
  decode_jwt-token :
      (now : ℕ) (claims : Claims)
      → now < claims.exp
      → decode_jwt crypto now (some (bearer ++ crypto.encode claims)) ≡ ok claims
  unfolding decode_jwt
  decode_jwt-token now claims h =
      rw
        (after_prefix-append bearer (crypto.encode claims), decode_jwt, lawful.decodes now claims h)
        refl

  gates-token :
      (ttl now at : ℕ) (tenant_id user_id : Text) (role : UserRole) (context : Option Text)
      → at < now + ttl * 60
      → is_nonempty user_id ≡ true
      → (require_admin crypto at
            (some (bearer ++ create_access_token crypto ttl now tenant_id user_id (role_name role)))
            context
          ≡ gated
              (is_admin role)
              (payload crypto ttl now tenant_id user_id (role_name role))
              tenant_id
              context)
        × (require_agent_or_admin crypto at
              (some
                (bearer ++ create_access_token crypto ttl now tenant_id user_id (role_name role)))
              context
            ≡ gated
                (is_agent_or_admin role)
                (payload crypto ttl now tenant_id user_id (role_name role))
                tenant_id
                context)
  unfolding create_access_token payload require_admin require_agent_or_admin
  gates-token ttl now at tenant_id user_id role context h filled =
      let read =
        decode_jwt-token at (payload crypto ttl now tenant_id user_id (role_name role)) h in
      (
        rw (read, require_admin) (check_admin-role crypto ttl now tenant_id user_id context role),
        rw (read, require_agent_or_admin)
            (check_agent_or_admin-role crypto ttl now tenant_id user_id context role filled),
      )

  -- A login that succeeds found an active user of the tenant and email whose stored hash verifies the
  -- password. Until its token expires, and where the user's id is not empty, the admin gate lets the
  -- token of an admin in and the agent gate that of an agent or an admin, with the claims of that user and the
  -- login's tenant as the context; all other roles get 403 and leave the context.
  pub login_grants :
      (ttl now at : ℕ) (fails : Bool) (tenant_id email password : Text) (users : List User)
      (r : LoginResponse) (context : Option Text)
      → (login crypto ttl now fails tenant_id email password users).0 ≡ ok r
      → at < now + ttl * 60
      → is_nonempty r.user.id ≡ true
      → IsGranted crypto ttl now at tenant_id email password users r context
  unfolding user_info
  login_grants ttl now at fails tenant_id email password users r context h before filled =
      let (user, found, alive, verified, token, same) =
        login-cases crypto ttl now fails tenant_id email password users r h in
      let id : is_nonempty user.id ≡ true = rw same at filled in
      let gates = gates-token ttl now at tenant_id user.id user.role context before id in
      (user, found, alive, verified, same, rw token gates.0, rw token gates.1)
