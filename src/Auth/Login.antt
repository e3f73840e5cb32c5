-- ===== src/Auth/Login.antt =====
-- auth/service.py, auth/jwt.py and auth/dependencies.py: a login, its token, and the gates that read
-- it. Ids, emails and passwords are texts. bcrypt and the JWT library are parameters.
use lumen_ai_support_agent.Assignment.{UserRole, admin, agent, supervisor, viewer}
use lumen_ai_support_agent.Prelude.{
  Bool, List, Option, [], false, if◌then◌else◌, nat_eq, none, not, some, true, ℕ, ◌&&◌, ◌*◌, ◌+◌,
  ◌<◌, ◌||◌, ◌∷◌, ◌≡◌,
}
use lumen_ai_support_agent.Prelude.Exec.{Exec, Result, err, lift, ok, ◌>>=◌}
use lumen_ai_support_agent.Prelude.Table.{find, update_first}
use lumen_ai_support_agent.Knowledge.Text.{Text, code_points}
use lumen_ai_support_agent.Knowledge.Chunker.Blocks.{text_eq}

-- `str(user.role)`
unfoldable pub role_name : UserRole → Text
role_name admin = code_points "admin"
role_name supervisor = code_points "supervisor"
role_name agent = code_points "agent"
role_name viewer = code_points "viewer"

pub record User : Type 0 where
  pub id : Text
  pub tenant_id : Text
  pub email : Text
  pub password_hash : Text
  pub full_name : Option Text
  pub role : UserRole
  pub is_active : Bool

-- A token's payload; a key may be missing.
pub record Claims : Type 0 where
  pub sub : Option Text
  pub tenant : Option Text
  pub role : Option Text
  pub iat : ℕ
  pub exp : ℕ

-- `_pwd_context` of auth/password.py, and `jwt.encode` and `jwt.decode` with the secret of the
-- settings; `verify_password` and `decode`, which reads the clock, answer `none` where they raise.
pub record Crypto : Type 0 where
  pub hash_password : Text → Text
  pub verify_password : Text → Text → Option Bool
  pub needs_rehash : Text → Bool
  pub encode : Claims → Text
  pub decode : ℕ → Text → Option Claims

-- What a token was made of is read back until it expires, and a password verifies against its hash.
pub record IsCrypto (crypto : Crypto) : Type 0 where
  pub decodes :
      (now : ℕ) (claims : Claims)
      → now < claims.exp
      → crypto.decode now (crypto.encode claims) ≡ some claims
  pub verifies :
      (password : Text)
      → crypto.verify_password password (crypto.hash_password password) ≡ some true

pub record UserInfo : Type 0 where
  pub id : Text
  pub tenant_id : Text
  pub email : Text
  pub full_name : Option Text
  pub role : Text

unfoldable pub user_info : User → UserInfo
user_info user = record {
  id = user.id;
  tenant_id = user.tenant_id;
  email = user.email;
  full_name = user.full_name;
  role = role_name user.role;
}

pub record LoginResponse : Type 0 where
  pub access_token : Text
  pub expires_in : ℕ
  pub user : UserInfo

-- InvalidCredentialsError, and what `verify_password` lets through.
pub data LoginError : Type 0 where
  invalid_credentials : LoginError
  hash_error : LoginError

-- Why a user who was found is not let in: whether active, and what `verify_password` answers.
unfoldable pub denied : Bool → Option Bool → Option LoginError
denied false verified = some invalid_credentials
denied true none = some hash_error
denied true (some false) = some invalid_credentials
denied true (some true) = none

unfoldable pub is_named : Text → Text → User → Bool
is_named tenant_id email user = text_eq user.tenant_id tenant_id && text_eq user.email email

-- The table's unique index on tenant and email leaves at most one row.
unfoldable pub get_by_email : Text → Text → List User → Option User
get_by_email tenant_id email users = find (is_named tenant_id email) users

unfoldable pub set_hash : Text → User → User
set_hash hash user = record user { password_hash = hash }

unfoldable pub update_password_hash : Text → Text → List User → List User
update_password_hash user_id hash users =
    update_first (λ user. text_eq user.id user_id) (set_hash hash) users

module _ (crypto : Crypto) (ttl_minutes : ℕ) where
  unfoldable pub payload : ℕ → Text → Text → Text → Claims
  payload now tenant_id user_id role = record {
    sub = some user_id;
    tenant = some tenant_id;
    role = some role;
    iat = now;
    exp = now + ttl_minutes * 60;
  }

  unfoldable pub create_access_token : ℕ → Text → Text → Text → Text
  create_access_token now tenant_id user_id role =
      crypto.encode (payload now tenant_id user_id role)

  -- The upgrade of an old hash; `fails` where the database raises, which the login ignores.
  unfoldable pub rehash : Bool → Text → User → List User → List User
  rehash fails password user users =
      if crypto.needs_rehash user.password_hash && not fails
      then update_password_hash user.id (crypto.hash_password password) users
      else users

  unfoldable pub login : ℕ → Bool → Text → Text → Text → Exec (List User) LoginError LoginResponse
  login now fails tenant_id email password users = elim (get_by_email tenant_id email users) [
    | none ↦ (err invalid_credentials, users)
    | some user ↦
        elim (denied user.is_active (crypto.verify_password password user.password_hash)) [
          | some e ↦ (err e, users)
          | none ↦ (
            ok (record {
              access_token = create_access_token now tenant_id user.id (role_name user.role);
              expires_in = ttl_minutes * 60;
              user = user_info user;
            }),
            rehash fails password user users,
          )
        ]
  ]

-- The status of an HTTPException.
pub data HttpError : Type 0 where
  unauthorized : HttpError
  forbidden : HttpError

-- `authorization[len("Bearer "):]` where the header starts with it.
unfoldable pub after_prefix : Text → Text → Option Text
after_prefix [] s = some s
after_prefix (c ∷ cs) [] = none
after_prefix (c ∷ cs) (d ∷ ds) = if nat_eq c d then after_prefix cs ds else none

unfoldable pub bearer : Text
bearer = code_points "Bearer "

module _ (crypto : Crypto) (now : ℕ) where
  unfoldable pub decode_jwt : Option Text → Result HttpError Claims
  decode_jwt none = err unauthorized
  decode_jwt (some authorization) = elim (after_prefix bearer authorization) [
    | none ↦ err unauthorized
    | some token ↦ elim (crypto.decode now token) [
      | none ↦ err unauthorized
      | some claims ↦ ok claims
    ]
  ]

unfoldable pub is_one_of : List Text → Text → Bool
is_one_of [] role = false
is_one_of (name ∷ names) role = text_eq role name || is_one_of names role

unfoldable pub role_in : List Text → Claims → Bool
role_in names claims = elim claims.role [ none ↦ false | some role ↦ is_one_of names role ]

-- The contextvar is written last.
unfoldable pub enter : Claims → Exec (Option Text) HttpError Claims
enter claims context = elim claims.tenant [
  | none ↦ (err unauthorized, context)
  | some tenant_id ↦ (ok claims, some tenant_id)
]

unfoldable pub is_nonempty : Text → Bool
is_nonempty [] = false
is_nonempty (c ∷ cs) = true

-- `not claims.get("sub")`
unfoldable pub has_sub : Claims → Bool
has_sub claims = elim claims.sub [ none ↦ false | some sub ↦ is_nonempty sub ]

-- What a gate does with the claims: `require_admin`, then `require_agent_or_admin`.
unfoldable pub check_admin : Claims → Exec (Option Text) HttpError Claims
check_admin claims context =
    if role_in (code_points "admin" ∷ code_points "owner" ∷ []) claims
    then enter claims context
    else (err forbidden, context)

unfoldable pub check_agent_or_admin : Claims → Exec (Option Text) HttpError Claims
check_agent_or_admin claims context =
    if role_in (code_points "agent" ∷ code_points "admin" ∷ code_points "owner" ∷ []) claims
    then (if has_sub claims then enter claims context else (err unauthorized, context))
    else (err forbidden, context)

unfoldable pub require_admin : Crypto → ℕ → Option Text → Exec (Option Text) HttpError Claims
require_admin crypto now authorization = do
  claims ← lift (decode_jwt crypto now authorization)
  check_admin claims

unfoldable pub require_agent_or_admin :
    Crypto → ℕ → Option Text → Exec (Option Text) HttpError Claims
require_agent_or_admin crypto now authorization = do
  claims ← lift (decode_jwt crypto now authorization)
  check_agent_or_admin claims
