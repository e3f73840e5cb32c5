-- ===== src/Auth/RateLimit.antt =====
-- auth/rate_limit.py: the hits that a caller has in a window of 60 seconds. Redis is a parameter.
use lumen_ai_support_agent.Prelude.{
  Bool, List, Option, [], false, if◌then◌else◌, ltb, none, some, suc, true, ℕ, ◌&&◌, ◌++◌, ◌+◌, ◌<◌,
  ◌∷◌, ◌≡◌, ◌≢◌, ◌≤◌,
}
use lumen_ai_support_agent.Knowledge.Text.{Text, code_points}
use lumen_ai_support_agent.Knowledge.Chunker.Blocks.{text_eq}
use lumen_ai_support_agent.Auth.ClientIp.{HttpRequest, client_ip}

-- What the pipeline of INCR and EXPIRE NX answers at a time for a key, `none` when it raises, with
-- the store that it leaves; the count that a key has at a time, and the time at which it expires.
pub record Redis (S : Type 0) : Type 1 where
  pub execute : ℕ → Text → S → Option ℕ × S
  pub live : ℕ → Text → S → ℕ
  pub ends : Text → S → ℕ

-- A counter with an expiry: INCR adds one to the live count; EXPIRE NX sets the expiry 60 seconds
-- ahead where the key has none, that is where the count was zero; a count stays until its expiry; a
-- key's calls do not touch other keys; a call that raises takes no count away, and leaves the expiry of
-- a running window.
pub record IsCounter {S : Type 0} (redis : Redis S) : Type 0 where
  pub counts :
      (now : ℕ) (k : Text) (s : S) (c : ℕ)
      → (redis.execute now k s).0 ≡ some c
      → c ≡ suc (redis.live now k s)
  pub opens :
      (now : ℕ) (k : Text) (s : S) (c : ℕ)
      → (redis.execute now k s).0 ≡ some c
      → redis.live now k s ≡ 0
      → redis.ends k (redis.execute now k s).1 ≡ now + 60
  pub runs_on :
      (now : ℕ) (k : Text) (s : S) (c : ℕ)
      → (redis.execute now k s).0 ≡ some c
      → 0 < redis.live now k s
      → now < redis.ends k s
      → redis.ends k (redis.execute now k s).1 ≡ redis.ends k s
  pub stays :
      (now later : ℕ) (k : Text) (s : S) (c : ℕ)
      → (redis.execute now k s).0 ≡ some c
      → later < redis.ends k (redis.execute now k s).1
      → redis.live later k (redis.execute now k s).1 ≡ c
  pub raises :
      (now later : ℕ) (k : Text) (s : S)
      → (redis.execute now k s).0 ≡ none
      → redis.live later k s ≤ redis.live later k (redis.execute now k s).1
  pub raises_ends :
      (now : ℕ) (k : Text) (s : S)
      → (redis.execute now k s).0 ≡ none
      → 0 < redis.live now k s
      → now < redis.ends k s
      → redis.ends k (redis.execute now k s).1 ≡ redis.ends k s
  pub apart :
      (now later : ℕ) (k other : Text) (s : S)
      → k ≢ other
      → (redis.live later k (redis.execute now other s).1 ≡ redis.live later k s)
        × (redis.ends k (redis.execute now other s).1 ≡ redis.ends k s)

abbrev is_none : Option ℕ → Bool
is_none none = true
is_none (some c) = false

-- `f"rl:tenant-lookup:{ip}"`
unfoldable pub rate_key : Text → Text
rate_key ip = code_points "rl:tenant-lookup:" ++ ip

abbrev pub max_hits_per_window : ℕ
max_hits_per_window = 30

module _ {S : Type 0} (redis : Redis S) where
  -- The answer for what the pipeline gave.
  unfoldable pub decide : Option ℕ → Bool × ℕ
  decide none = (true, 0)
  decide (some c) = if ltb max_hits_per_window c then (false, c) else (true, c)

  unfoldable pub check_tenant_lookup_rate_limit : ℕ → ℕ → HttpRequest → S → (Bool × ℕ) × S
  check_tenant_lookup_rate_limit hops now request s =
      let (answer, s') = redis.execute now (rate_key (client_ip hops request)) s in
      (decide answer, s')

  -- A sequence of checks at their times: how many were allowed for a key, and how often Redis raised
  -- for it.
  unfoldable pub allowed : ℕ → Text → List (ℕ × HttpRequest) → S → ℕ
  allowed hops k [] s = 0
  allowed hops k ((now, request) ∷ later) s =
      let (answer, s') = check_tenant_lookup_rate_limit hops now request s in
      let rest = allowed hops k later s' in
      if text_eq (rate_key (client_ip hops request)) k && answer.0 then suc rest else rest

  unfoldable pub failed : ℕ → Text → List (ℕ × HttpRequest) → S → ℕ
  failed hops k [] s = 0
  failed hops k ((now, request) ∷ later) s =
      let (answer, s') = redis.execute now (rate_key (client_ip hops request)) s in
      let rest = failed hops k later s' in
      if text_eq (rate_key (client_ip hops request)) k && is_none answer then suc rest else rest
