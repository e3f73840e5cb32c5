-- ===== src/Auth/Samples.antt =====
-- A login with a token that is not signed and a password that is its own hash.
use lumen_ai_support_agent.Auth.Grants.{IsGranted, login_grants}
use lumen_ai_support_agent.Prelude.{
  Option, [], ap, arith, false, if◌then◌else◌, length, ltb, none, refl, some, suc, true, zero, ℕ,
  ◌++◌, ◌∷◌, ◌≡◌,
}
use lumen_ai_support_agent.Prelude.Exec.{ok}
use lumen_ai_support_agent.Auth.Login.{
  Claims, Crypto, IsCrypto, LoginResponse, User, create_access_token, denied, get_by_email,
  is_named, is_nonempty, login, role_name, user_info,
}
use lumen_ai_support_agent.Auth.Again.{login_again}
use lumen_ai_support_agent.Auth.Window.{text_eq_refl}
use lumen_ai_support_agent.Assignment.{agent}
use lumen_ai_support_agent.Knowledge.Text.{Text, code_points}
use lumen_ai_support_agent.Knowledge.Chunker.Blocks.{text_eq}

abbrev write_text : Option Text → Text → Text
write_text none rest = 0 ∷ rest
write_text (some t) rest = suc (length t) ∷ t ++ rest

abbrev first : ℕ → Text → Text × Text
first zero s = ([], s)
first (suc n) [] = ([], [])
first (suc n) (c ∷ s) = let (t, rest) = first n s in (c ∷ t, rest)

abbrev read_text : Text → Option Text × Text
read_text [] = (none, [])
read_text (zero ∷ s) = (none, s)
read_text (suc n ∷ s) = let (t, rest) = first n s in (some t, rest)

first-append : (t rest : Text) → first (length t) (t ++ rest) ≡ (t, rest)
first-append [] rest = refl
first-append (c ∷ t) rest = rw (first-append t rest) refl

read-write : (o : Option Text) (rest : Text) → read_text (write_text o rest) ≡ (o, rest)
read-write none rest = refl
read-write (some t) rest = rw (first-append t rest) refl

abbrev write_claims : Claims → Text
write_claims claims =
    claims.iat
    ∷ claims.exp
    ∷ write_text claims.sub (write_text claims.tenant (write_text claims.role []))

abbrev read_fields : ℕ → ℕ → Text → Claims
read_fields iat exp s =
    let (sub, s1) = read_text s in
    let (tenant, s2) = read_text s1 in
    let (role, s3) = read_text s2 in
    record { sub = sub; tenant = tenant; role = role; iat = iat; exp = exp }

abbrev read_claims : ℕ → Text → Option Claims
read_claims now [] = none
read_claims now (iat ∷ []) = none
read_claims now (iat ∷ exp ∷ s) = if ltb now exp then some (read_fields iat exp s) else none

abbrev unsigned : Crypto
unsigned = record {
  hash_password = λ password. password;
  verify_password = λ password hash. some (text_eq password hash);
  needs_rehash = λ hash. true;
  encode = write_claims;
  decode = read_claims;
}

unsigned-IsCrypto : IsCrypto unsigned
unsigned-IsCrypto = record {
  decodes = λ now claims h.
      let early : ltb now claims.exp ≡ true = ground (arith, h) in
      rw (early, read-write claims.sub _, read-write claims.tenant _, read-write claims.role _)
        refl;
  verifies = λ password. ap some (text_eq_refl password);
}

abbrev ada : User
ada = record {
  id = code_points "u1";
  tenant_id = code_points "t1";
  email = code_points "a@x";
  password_hash = code_points "pw";
  full_name = none;
  role = agent;
  is_active = true;
}

abbrev answer : LoginResponse
answer = record {
  access_token =
      create_access_token unsigned 60 1000 (code_points "t1") (code_points "u1") (role_name agent);
  expires_in = 3600;
  user = user_info ada;
}

ada_logs_in :
    (login unsigned 60 1000 false
      (code_points "t1")
      (code_points "a@x")
      (code_points "pw")
      (ada ∷ [])).0
    ≡ ok answer
unfolding login get_by_email is_named text_eq denied
ada_logs_in = refl

login_grants_example :
    IsGranted unsigned 60 1000 2000
      (code_points "t1")
      (code_points "a@x")
      (code_points "pw")
      (ada ∷ [])
      answer
      none
unfolding is_nonempty user_info
login_grants_example =
    login_grants unsigned unsigned-IsCrypto 60 1000 2000 false (code_points "t1")
      (code_points "a@x") (code_points "pw") (ada ∷ []) answer none ada_logs_in (omega arith) refl

login_again_example :
    (r' : LoginResponse) × ((login unsigned 60 5000 false
        (code_points "t1")
        (code_points "a@x")
        (code_points "pw")
        (login unsigned 60 1000 false
          (code_points "t1")
          (code_points "a@x")
          (code_points "pw")
          (ada ∷ [])).1).0
      ≡ ok r')
login_again_example =
    login_again unsigned unsigned-IsCrypto 60 (code_points "t1") (code_points "a@x")
      (code_points "pw") 1000 5000 false false (ada ∷ []) answer ada_logs_in
